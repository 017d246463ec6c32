-- ===== src/Auth/Sessions/Tests.antt =====
-- Runs of revoking a session and of storing a push token on a small database.
use backend_core_kit.Prelude.{◌≡◌, ◌≢◌, refl, arith, true, none}
use backend_core_kit.Db.{ok, android}
use backend_core_kit.Db.Queries.{memory-IsSql}
use backend_core_kit.Db.Retry.{with_transaction_retry, retry_loop}
use backend_core_kit.Db.Samples.{client, sample, phone}
use backend_core_kit.Auth.RefreshTokens.Containment.{IsContained}
use backend_core_kit.Auth.Sessions.{
  find_and_revoke, revoke_session_by_id, revoke_found, attach_push_token, upsert_session_push_token,
  upserted,
}
use backend_core_kit.Auth.Sessions.Revocation.{
  revoke_session_by_id-IsContained, revoke_session_by_id-foreign,
}
use backend_core_kit.Auth.Sessions.PushTokens.{IsAttached, upsert_session_push_token-IsAttached}

sample_revoked : (revoke_session_by_id client 1 7 5 sample).0 ≡ ok true
unfolding revoke_session_by_id find_and_revoke revoke_found
sample_revoked = refl

sample_upserted : (upsert_session_push_token client 1 7 android 55 5 sample).0 ≡ ok upserted
unfolding upsert_session_push_token with_transaction_retry retry_loop attach_push_token
sample_upserted = refl

revoke_session_by_id-IsContained_example :
    IsContained 7 (revoke_session_by_id client 1 7 5 sample).1
revoke_session_by_id-IsContained_example =
    revoke_session_by_id-IsContained client (memory-IsSql (λ db. 99) (λ n db. none)) 1 7 5 sample
      (omega arith) sample_revoked

revoke_session_by_id-foreign_example :
    ((revoke_session_by_id client 2 7 5 sample).1 ≡ sample)
    × ((revoke_session_by_id client 2 7 5 sample).0 ≢ ok true)
revoke_session_by_id-foreign_example =
    revoke_session_by_id-foreign client (memory-IsSql (λ db. 99) (λ n db. none)) 2 7 5 sample phone
      refl (λ h. ground arith)

upsert_session_push_token-IsAttached_example :
    IsAttached 1 7 55 5 (upsert_session_push_token client 1 7 android 55 5 sample).1
upsert_session_push_token-IsAttached_example =
    upsert_session_push_token-IsAttached client (memory-IsSql (λ db. 99) (λ n db. none)) 1 7 android
      55 5 sample sample_upserted
