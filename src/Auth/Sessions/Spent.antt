-- ===== src/Auth/Sessions/Spent.antt =====
-- Revoking sessions makes no refresh token live.
use backend_core_kit.Prelude.{ℕ, ◌==◌, arith, ◌&&◌, is_null, Option-cases, inl, inr}
use backend_core_kit.Db.{Db, Session, ActiveKey, key_is}
use backend_core_kit.Db.Queries.{Queries, IsSql, memory-eq}
use backend_core_kit.Auth.RefreshTokens.Spent.{IsSpent, revoked-IsSpent, transaction-IsSpent}
use backend_core_kit.Auth.Sessions.{
  find_and_revoke, revoke_session_by_id, revoke_found, revoke_device_session,
  find_and_revoke_device, revoke_active_session_for_device,
}

module _ (tid : ℕ) (q : Queries) (sql : IsSql q) where
  revoke_found-IsSpent :
      (user_id sid now : ℕ) (s : Session) (db : Db)
      → IsSpent tid db
      → IsSpent tid (revoke_found q user_id sid now s db).1
  unfolding revoke_found
  revoke_found-IsSpent user_id sid now s db = rw (← memory-eq q sql) (λ h. ground (
    arith,
    revoked-IsSpent tid now (λ t. t.session_id == sid && is_null t.revoked_at) db.refresh_tokens h,
  ))

  pub revoke_session_by_id-IsSpent :
      (user_id sid now : ℕ) (db : Db)
      → IsSpent tid db
      → IsSpent tid (revoke_session_by_id q user_id sid now db).1
  unfolding revoke_session_by_id find_and_revoke
  revoke_session_by_id-IsSpent user_id sid now db h =
      transaction-IsSpent tid q sql (find_and_revoke q user_id sid now) 1 db h
        (elim (Option-cases (q.find_unique Session (λ s. s.id == sid) db.sessions)) [
          | inl missing ↦ rw missing h
          | inr (s, found) ↦ rw found (revoke_found-IsSpent user_id sid now s db h)
        ])

  revoke_device_session-IsSpent :
      (user_id now : ℕ) (s : Session) (db : Db)
      → IsSpent tid db
      → IsSpent tid (revoke_device_session q user_id now s db).1
  unfolding revoke_device_session
  revoke_device_session-IsSpent user_id now s db = rw (← memory-eq q sql) (λ h. ground (
    arith,
    revoked-IsSpent tid now (λ t. t.session_id == s.id && is_null t.revoked_at) db.refresh_tokens h,
  ))

  pub revoke_active_session_for_device-IsSpent :
      (user_id : ℕ) (key : ActiveKey) (now : ℕ) (db : Db)
      → IsSpent tid db
      → IsSpent tid (revoke_active_session_for_device q user_id key now db).1
  unfolding revoke_active_session_for_device find_and_revoke_device
  revoke_active_session_for_device-IsSpent user_id key now db h =
      transaction-IsSpent tid q sql (find_and_revoke_device q user_id key now) 1 db h
        (elim (Option-cases (q.find_unique Session (λ s. key_is s.active_key key) db.sessions)) [
          | inl missing ↦ rw missing h
          | inr (s, found) ↦ rw found (revoke_device_session-IsSpent user_id now s db h)
        ])
