-- ===== src/Auth/Credentials/Spent.antt =====
-- Setting a password makes no refresh token live.
use backend_core_kit.Prelude.{
  ℕ, ◌==◌, arith, not, ◌&&◌, map, any, filter, update_where, is_null, Option-cases, inl, inr,
}
use backend_core_kit.Db.{Db, User, Session, PasswordCredential, PasswordResetToken}
use backend_core_kit.Db.Queries.{Queries, IsSql, memory-eq}
use backend_core_kit.Db.Retry.{with_transaction_retry_cases, is_retryable_transaction_error}
use backend_core_kit.Auth.RefreshTokens.Spent.{IsSpent, revoked-IsSpent, commit-IsSpent}
use backend_core_kit.Auth.Sessions.{revoked_and_cleared}
use backend_core_kit.Auth.Credentials.{
  reset_password_by_token_hash, reset_password, reset_found, use_reset_token, revoke_all_of_user,
  session_of_user, change_password_and_revoke_other_sessions, change_password, change_found,
  revoke_others,
}

module _ (tid : ℕ) (q : Queries) (sql : IsSql q) where
  reset_found-IsSpent :
      (t : PasswordResetToken) (hash now : ℕ) (db : Db)
      → IsSpent tid db
      → IsSpent tid (reset_found q t hash now db).1
  unfolding reset_found use_reset_token revoke_all_of_user
  reset_found-IsSpent t hash now db = rw (← memory-eq q sql) (λ h.
      let sessions =
        update_where (λ (s : Session). s.user_id == t.user_id && is_null s.revoked_at)
          (revoked_and_cleared now) db.sessions in
      ground (
        arith,
        revoked-IsSpent tid now (λ r. is_null r.revoked_at && session_of_user sessions t.user_id r)
            db.refresh_tokens h,
      ))

  pub reset_password_by_token_hash-IsSpent :
      (token_hash hash now : ℕ) (db : Db)
      → IsSpent tid db
      → IsSpent tid (reset_password_by_token_hash q token_hash hash now db).1
  unfolding reset_password_by_token_hash reset_password
  reset_password_by_token_hash-IsSpent token_hash hash now db h =
      with_transaction_retry_cases (λ r. IsSpent tid r.1) 3 is_retryable_transaction_error db
        (λ e. h) q sql (reset_password q token_hash hash now)
        (commit-IsSpent tid (reset_password q token_hash hash now) db h
          (elim (Option-cases
            (q.find_unique PasswordResetToken (λ t. t.token_hash == token_hash) db.reset_tokens)) [
              | inl missing ↦ rw missing h
              | inr (t, found) ↦ rw found (reset_found-IsSpent t hash now db h)
            ]))

  revoke_others-IsSpent :
      (user_id sid now : ℕ) (db : Db)
      → IsSpent tid db
      → IsSpent tid (revoke_others q user_id sid now db).1
  unfolding revoke_others
  revoke_others-IsSpent user_id sid now db = rw (← memory-eq q sql) (λ h.
      let ids =
        map (λ (s : Session). s.id)
          (filter
            (λ (s : Session). s.user_id == user_id && not (s.id == sid) && is_null s.revoked_at)
            db.sessions) in
      ground (
        arith,
        revoked-IsSpent tid now (λ t. any (λ i. i == t.session_id) ids && is_null t.revoked_at)
            db.refresh_tokens h,
      ))

  change_found-IsSpent :
      (user_id sid expected hash now : ℕ) (c : PasswordCredential) (db : Db)
      → IsSpent tid db
      → IsSpent tid (change_found q user_id sid expected hash now c db).1
  unfolding change_found
  change_found-IsSpent user_id sid expected hash now c db h =
      let mine = λ (r : PasswordCredential). r.user_id == user_id in
      let f = λ (r : PasswordCredential). record r { password_hash = hash } in
      let written : Db = record db { credentials = update_where mine f db.credentials } in
      ground (
        arith,
        sql.update_lem PasswordCredential mine f db.credentials,
        revoke_others-IsSpent user_id sid now written h,
      )

  pub change_password_and_revoke_other_sessions-IsSpent :
      (user_id sid expected hash now : ℕ) (db : Db)
      → IsSpent tid db
      → IsSpent tid (change_password_and_revoke_other_sessions q user_id sid expected hash now db).1
  unfolding change_password_and_revoke_other_sessions change_password
  change_password_and_revoke_other_sessions-IsSpent user_id sid expected hash now db h =
      with_transaction_retry_cases (λ r. IsSpent tid r.1) 3 is_retryable_transaction_error db
        (λ e. h) q sql (change_password q user_id sid expected hash now)
        (commit-IsSpent tid (change_password q user_id sid expected hash now) db h
          (elim (Option-cases (q.find_unique User (λ u. u.id == user_id) db.users)) [
            | inl no_user ↦ rw no_user h
            | inr (u, user) ↦
                elim (Option-cases
                  (q.find_unique PasswordCredential (λ r. r.user_id == user_id) db.credentials)) [
                    | inl no_credential ↦ rw user (rw no_credential h)
                    | inr (c, found) ↦
                        rw user
                          (rw found (change_found-IsSpent user_id sid expected hash now c db h))
                  ]
          ]))
