-- ===== src/Accounts/Admin/Spent.antt =====
-- Changing a user's status makes no refresh token live.
use backend_core_kit.Prelude.{
  ℕ, ◌==◌, arith, ◌&&◌, none, some, is_null, update_where, Option-cases, inl, inr,
}
use backend_core_kit.Db.{Db, User, Session}
use backend_core_kit.Db.Queries.{Queries, IsSql, memory-eq}
use backend_core_kit.Db.Retry.{with_transaction_retry_cases, is_retryable_transaction_error}
use backend_core_kit.Auth.RefreshTokens.Spent.{IsSpent, revoked-IsSpent, commit-IsSpent}
use backend_core_kit.Auth.Credentials.{session_of_user}
use backend_core_kit.Accounts.Admin.{
  SetUserStatusInput, set_user_status, set_user_status_tx, change_status, write_status,
  revoke_suspended, lock_active_admin_invariant,
}

module _ (tid : ℕ) (q : Queries) (sql : IsSql q) where
  change_status-IsSpent :
      (input : SetUserStatusInput) (u : User) (db : Db)
      → IsSpent tid db
      → IsSpent tid (change_status q (λ d. d) input u db).1
  unfolding change_status write_status revoke_suspended lock_active_admin_invariant
  change_status-IsSpent input u db = rw (← memory-eq q sql) (λ h.
      let t = input.target_user_id in
      let sessions =
        update_where (λ (s : Session). s.user_id == t && is_null s.revoked_at)
          (λ (s : Session). record s { revoked_at = some input.now; active_key = none })
          db.sessions in
      ground (
        arith,
        revoked-IsSpent tid input.now (λ r. is_null r.revoked_at && session_of_user sessions t r)
            db.refresh_tokens h,
      ))

  pub set_user_status-IsSpent :
      (input : SetUserStatusInput) (db : Db)
      → IsSpent tid db
      → IsSpent tid (set_user_status q (λ d. d) input db).1
  unfolding set_user_status set_user_status_tx
  set_user_status-IsSpent input db h =
      with_transaction_retry_cases (λ r. IsSpent tid r.1) 3 is_retryable_transaction_error db
        (λ e. h) q sql (set_user_status_tx q (λ d. d) input)
        (commit-IsSpent tid (set_user_status_tx q (λ d. d) input) db h
          (elim (Option-cases (q.find_unique User (λ u. u.id == input.target_user_id) db.users)) [
            | inl missing ↦ rw missing h
            | inr (u, found) ↦ rw found (change_status-IsSpent input u db h)
          ]))
