-- ===== src/Auth/RefreshTokens/Containment.antt =====
-- What revoking a session takes away, and when a refresh request does it.
use backend_core_kit.Prelude.{
  ℕ, ◌==◌, ◌≡◌, arith, Bool, false, ◌&&◌, ◌||◌, some, is_null, is_some, any, any-update_where,
  Option-cases, inl, inr, any-update_where_twice,
}
use backend_core_kit.Db.{
  Db, DbError, refresh_token_already_used, Result, ok, err, Session, RefreshToken,
}
use backend_core_kit.Db.Queries.{Queries, IsSql, memory-eq}
use backend_core_kit.Auth.RefreshTokens.{
  revoke_session_and_tokens, push_cleared, token_revoked, rotation_outcome, rotate_found,
  rotate_refresh_token, token_with_session, exchange, TokenWithSession, SessionSeenMetadata,
  revoked_or_reused,
}

-- A session that could still be refreshed, be found for its device or receive a push message.
abbrev pub is_usable : ℕ → Session → Bool
is_usable sid s =
    s.id == sid && (is_null s.revoked_at || is_some s.active_key || is_some s.push_token)

abbrev pub is_spendable : ℕ → RefreshToken → Bool
is_spendable sid t = t.session_id == sid && is_null t.revoked_at

-- Nothing of the session can be used any more.
abbrev pub IsContained : ℕ → Db → Type 0
IsContained sid db =
    (any (is_usable sid) db.sessions ≡ false) × (any (is_spendable sid) db.refresh_tokens ≡ false)

pub revoke_session_and_tokens-IsContained :
    (q : Queries)
    → IsSql q
    → (sid now : ℕ) (db : Db) → (revoke_session_and_tokens q sid now db).0 ≡ ok tt
    → IsContained sid (revoke_session_and_tokens q sid now db).1
unfolding revoke_session_and_tokens
revoke_session_and_tokens-IsContained q sql sid now db = rw (← memory-eq q sql) (λ h. ground (
  arith,
  any-update_where_twice (is_usable sid) (λ s. s.id == sid) (push_cleared now)
      (λ s. s.id == sid && is_null s.revoked_at) (λ s. record s { revoked_at = some now })
      db.sessions (λ x. ground arith),
  any-update_where (is_spendable sid) (λ t. t.session_id == sid && is_null t.revoked_at)
      (token_revoked now) db.refresh_tokens (λ x. ground arith),
))

-- Whatever a refused or lost rotation was answered by `revoked_or_reused`, the session is contained.
rotation_outcome-IsContained :
    (q : Queries)
    → IsSql q
    → (found : TokenWithSession) (now sid uid : ℕ) (r : Result DbError (Unit {0}) × Db)
    → (rotation_outcome q found now r).0 ≡ ok (revoked_or_reused sid uid)
    → IsContained sid (rotation_outcome q found now r).1
unfolding rotation_outcome
rotation_outcome-IsContained q sql found now sid uid (ok done, db) h = cc
rotation_outcome-IsContained q sql found now sid uid (err refresh_token_already_used, db) h =
    ground (arith, revoke_session_and_tokens-IsContained q sql found.session.id now db)
rotation_outcome-IsContained q sql found now sid uid (err e, db) h = cc

rotate_found-IsContained :
    (q : Queries)
    → IsSql q
    → (others : Db → Db) (found : TokenWithSession) (new_hash now : ℕ) (seen : SessionSeenMetadata)
      (sid uid : ℕ) (db : Db)
    → (rotate_found q others found new_hash now seen db).0 ≡ ok (revoked_or_reused sid uid)
    → IsContained sid (rotate_found q others found new_hash now seen db).1
unfolding rotate_found
rotate_found-IsContained q sql others found new_hash now seen sid uid db h = ground (
  arith,
  revoke_session_and_tokens-IsContained q sql found.session.id now db,
  rotation_outcome-IsContained q sql found now sid uid
      (q.transaction (Unit {0}) (exchange q found.token new_hash now seen) 1 (others db)),
)

-- When a rotation is answered by reuse, the session that it names is contained: it is revoked and
-- has no device key and no push token, and no refresh token of it is unrevoked. What other requests
-- commit between the rotation's first read and its transaction is arbitrary.
pub rotate_refresh_token-IsContained :
    (q : Queries)
    → IsSql q
    → (others : Db → Db) (token_hash new_hash now : ℕ) (seen : SessionSeenMetadata) (sid uid : ℕ)
      (db : Db)
    → (rotate_refresh_token q others token_hash new_hash now seen db).0
      ≡ ok (revoked_or_reused sid uid)
    → IsContained sid (rotate_refresh_token q others token_hash new_hash now seen db).1
unfolding rotate_refresh_token
rotate_refresh_token-IsContained q sql others token_hash new_hash now seen sid uid db h =
    elim (Option-cases (token_with_session q db token_hash)) [
      | inl e ↦ ground arith
      | inr (f, e) ↦
          ground (arith, rotate_found-IsContained q sql others f new_hash now seen sid uid db)
    ]
