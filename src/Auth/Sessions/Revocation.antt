-- ===== src/Auth/Sessions/Revocation.antt =====
-- What revoking one session by its id does.
use backend_core_kit.Prelude.{
  ℕ, ◌==◌, ◌≡◌, ◌≢◌, ◌≤◌, refl, arith, Bool, true, false, not, ◌&&◌, some, is_null, is_some,
  any-update_where, any-update_where_keep, find?-unique, count, find?, Option-cases, inl, inr,
}
use backend_core_kit.Db.{Db, ok, Session}
use backend_core_kit.Db.Queries.{Queries, IsSql, memory-eq, transaction-ok}
use backend_core_kit.Auth.RefreshTokens.{push_cleared, token_revoked}
use backend_core_kit.Auth.RefreshTokens.Containment.{IsContained, is_usable, is_spendable}
use backend_core_kit.Auth.Sessions.{
  find_and_revoke, revoke_session_by_id, revoke_found, revoked_and_cleared,
}

revoke_found-IsContained :
    (q : Queries)
    → IsSql q
    → (user_id sid now : ℕ) (s : Session) (db : Db) → find? (λ r. r.id == sid) db.sessions ≡ some s
    → count (λ r. r.id == sid) db.sessions ≤ 1
    → (revoke_found q user_id sid now s db).0 ≡ ok true
    → IsContained sid (revoke_found q user_id sid now s db).1
unfolding revoke_found
revoke_found-IsContained q sql user_id sid now s db = rw (← memory-eq q sql) (λ e u h. ground (
  arith,
  any-update_where (is_usable sid) (λ r. r.id == sid) (revoked_and_cleared now) db.sessions
      (λ x. ground arith),
  find?-unique (λ r. r.id == sid) db.sessions s (λ r. is_some r.revoked_at && r.user_id == user_id)
      e u,
  any-update_where_keep (is_usable sid) (λ r. r.id == sid && r.user_id == user_id)
      (push_cleared now) (λ r. r.id == sid && not (is_some r.revoked_at && r.user_id == user_id))
      db.sessions (λ x g. ground arith),
  any-update_where (is_spendable sid) (λ t. t.session_id == sid && is_null t.revoked_at)
      (token_revoked now) db.refresh_tokens (λ x. ground arith),
))

find_and_revoke-IsContained :
    (q : Queries)
    → IsSql q
    → (user_id sid now : ℕ) (db : Db) → count (λ r. r.id == sid) db.sessions ≤ 1
    → (find_and_revoke q user_id sid now db).0 ≡ ok true
    → IsContained sid (find_and_revoke q user_id sid now db).1
unfolding find_and_revoke
find_and_revoke-IsContained q sql user_id sid now db u h =
    elim (Option-cases (find? (λ r. r.id == sid) db.sessions)) [
      | inl missing ↦ ground (arith, sql.find_unique_lem Session (λ r. r.id == sid) db.sessions)
      | inr (s, found) ↦ ground (
        arith,
        sql.find_unique_lem Session (λ r. r.id == sid) db.sessions,
        revoke_found-IsContained q sql user_id sid now s db found u,
      )
    ]

-- When revoking a session by its id, which is unique, is answered by true, it is revoked and has no
-- device key and no push token, and no refresh token of it is unrevoked.
pub revoke_session_by_id-IsContained :
    (q : Queries)
    → IsSql q
    → (user_id sid now : ℕ) (db : Db) → count (λ r. r.id == sid) db.sessions ≤ 1
    → (revoke_session_by_id q user_id sid now db).0 ≡ ok true
    → IsContained sid (revoke_session_by_id q user_id sid now db).1
unfolding revoke_session_by_id
revoke_session_by_id-IsContained q sql user_id sid now db u h = ground (
  arith,
  transaction-ok q sql (find_and_revoke q user_id sid now) 1 db true h,
  find_and_revoke-IsContained q sql user_id sid now db u,
)

find_and_revoke-foreign :
    (q : Queries)
    → IsSql q
    → (user_id sid now : ℕ) (db : Db) (s : Session) → find? (λ r. r.id == sid) db.sessions ≡ some s
    → s.user_id ≢ user_id
    → find_and_revoke q user_id sid now db ≡ (ok false, db)
unfolding find_and_revoke revoke_found
find_and_revoke-foreign q sql user_id sid now db s found other =
    ground (arith, sql.find_unique_lem Session (λ r. r.id == sid) db.sessions)

-- Revoking by its id a session that belongs to another user leaves the database as it is and is
-- never answered by true.
pub revoke_session_by_id-foreign :
    (q : Queries)
    → IsSql q
    → (user_id sid now : ℕ) (db : Db) (s : Session) → find? (λ r. r.id == sid) db.sessions ≡ some s
    → s.user_id ≢ user_id
    → ((revoke_session_by_id q user_id sid now db).1 ≡ db)
      × ((revoke_session_by_id q user_id sid now db).0 ≢ ok true)
unfolding revoke_session_by_id
revoke_session_by_id-foreign q sql user_id sid now db s found other =
    rw (sql.transaction_lem Bool (find_and_revoke q user_id sid now) 1 db)
      (elim (Option-cases (q.fault 1 db)) [
        | inl fine ↦
            rw (fine, find_and_revoke-foreign q sql user_id sid now db s found other)
              (refl, λ h. cc h)
        | inr (e, fails) ↦ rw fails (refl, λ h. cc h)
      ])
