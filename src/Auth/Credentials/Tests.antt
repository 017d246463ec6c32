-- ===== src/Auth/Credentials/Tests.antt =====
-- Runs of a reset and of a change of password on a small database.
use backend_core_kit.Prelude.{◌==◌, ◌≡◌, refl, none, some, find?}
use backend_core_kit.Db.{ok, PasswordResetToken}
use backend_core_kit.Db.Queries.{memory-IsSql}
use backend_core_kit.Db.Retry.{with_transaction_retry, retry_loop}
use backend_core_kit.Db.Samples.{client, sample}
use backend_core_kit.Auth.Credentials.{
  reset_password_by_token_hash, reset_password, reset_found, use_reset_token, revoke_all_of_user,
  reset_done, change_password_and_revoke_other_sessions, change_password, change_found,
  revoke_others, changed,
}
use backend_core_kit.Auth.Credentials.Reset.{
  IsReset, IsAccepted, reset_password_by_token_hash-IsReset,
  reset_password_by_token_hash-IsAccepted,
}

sample_reset : (reset_password_by_token_hash client 300 501 5 sample).0 ≡ ok (reset_done 1)
unfolding reset_password_by_token_hash with_transaction_retry retry_loop reset_password reset_found
    use_reset_token revoke_all_of_user
sample_reset = refl

sample_changed :
    (change_password_and_revoke_other_sessions client 1 7 500 501 5 sample).0 ≡ ok changed
unfolding change_password_and_revoke_other_sessions with_transaction_retry retry_loop
    change_password change_found revoke_others
sample_changed = refl

reset_password_by_token_hash-IsReset_example :
    IsReset 1 501 (reset_password_by_token_hash client 300 501 5 sample).1
reset_password_by_token_hash-IsReset_example =
    reset_password_by_token_hash-IsReset client (memory-IsSql (λ db. 99) (λ n db. none)) 300 501 5 1
      sample sample_reset

reset_password_by_token_hash-IsAccepted_example :
    (t : PasswordResetToken) × (find? (λ r. r.token_hash == 300) sample.reset_tokens ≡ some t)
    × IsAccepted t 5 1
reset_password_by_token_hash-IsAccepted_example =
    reset_password_by_token_hash-IsAccepted client (memory-IsSql (λ db. 99) (λ n db. none)) 300 501
      5 1 sample sample_reset
