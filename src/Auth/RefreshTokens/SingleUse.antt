-- ===== src/Auth/RefreshTokens/SingleUse.antt =====
-- A refresh token is exchanged once, and its successor inherits its session and its expiry.
use backend_core_kit.Prelude.{
  ℕ, ◌==◌, ◌≡◌, ◌≢◌, arith, Bool, true, false, ◌&&◌, none, some, is_null, any, count, count-append,
  any-update_where, any-update_where_last, ◌++◌, ◌∷◌, [],
}
use backend_core_kit.Db.{Db, DbError, refresh_token_already_used, Result, ok, err, RefreshToken}
use backend_core_kit.Db.Queries.{Queries, IsSql, memory-eq}
use backend_core_kit.Auth.RefreshTokens.{
  create_refresh_token, exchange, rotation_outcome, rotate_found, rotate_refresh_token,
  token_with_session, TokenWithSession, SessionSeenMetadata, rotated, AuthUserRecord, is_expired,
  is_used,
}

-- The token of this id has neither been revoked nor replaced.
abbrev pub is_live : ℕ → RefreshToken → Bool
is_live tid t = t.id == tid && is_null t.revoked_at && is_null t.replaced_by_id

pub exchange-spent :
    (q : Queries)
    → IsSql q
    → (t : RefreshToken) (new_hash now : ℕ) (seen : SessionSeenMetadata) (db : Db)
    → count (is_live t.id) db.refresh_tokens ≡ 0
    → q.generate_uuid db ≢ t.id
    → (exchange q t new_hash now seen db).0 ≢ ok tt
unfolding exchange create_refresh_token
exchange-spent q sql t new_hash now seen db = rw (← memory-eq q sql) (λ spent fresh h. ground (
  arith,
  count-append (is_live t.id) db.refresh_tokens (
      record {
        id = q.generate_uuid db;
        token_hash = new_hash;
        expires_at = t.expires_at;
        revoked_at = none;
        session_id = t.session_id;
        replaced_by_id = none;
      }
      ∷ []),
))

-- A live token of this hash that continues `t`: the same session, the same expiry.
abbrev pub is_successor : RefreshToken → ℕ → RefreshToken → Bool
is_successor t new_hash s =
    s.token_hash == new_hash
    && s.session_id == t.session_id
    && s.expires_at == t.expires_at
    && is_null s.revoked_at
    && is_null s.replaced_by_id

abbrev pub Exchanged : RefreshToken → ℕ → Db → Type 0
Exchanged t new_hash db =
    (any (is_live t.id) db.refresh_tokens ≡ false)
    × (any (is_successor t new_hash) db.refresh_tokens ≡ true)

pub exchange-Exchanged :
    (q : Queries)
    → IsSql q
    → (t : RefreshToken) (new_hash now : ℕ) (seen : SessionSeenMetadata) (db : Db)
    → q.generate_uuid db ≢ t.id
    → (q.transaction (Unit {0}) (exchange q t new_hash now seen) 1 db).0 ≡ ok tt
    → Exchanged t new_hash (q.transaction (Unit {0}) (exchange q t new_hash now seen) 1 db).1
unfolding exchange create_refresh_token
exchange-Exchanged q sql t new_hash now seen db = rw (← memory-eq q sql) (λ fresh h.
    let uuid = q.generate_uuid db in
    let p =
      λ (r : RefreshToken). r.id == t.id && is_null r.revoked_at && is_null r.replaced_by_id in
    let f = λ (r : RefreshToken). record r { revoked_at = some now; replaced_by_id = some uuid } in
    let new : RefreshToken = record {
      id = q.generate_uuid db;
      token_hash = new_hash;
      expires_at = t.expires_at;
      revoked_at = none;
      session_id = t.session_id;
      replaced_by_id = none;
    } in
    ground (
      arith,
      any-update_where (is_live t.id) p f (db.refresh_tokens ++ new ∷ []) (λ x. ground arith),
      any-update_where_last (is_successor t new_hash) p f db.refresh_tokens new (ground arith),
    ))

pub transaction-spent :
    (q : Queries)
    → IsSql q
    → (t : RefreshToken) (new_hash now : ℕ) (seen : SessionSeenMetadata) (db : Db)
    → count (is_live t.id) db.refresh_tokens ≡ 0
    → q.generate_uuid db ≢ t.id
    → (q.transaction (Unit {0}) (exchange q t new_hash now seen) 1 db).0 ≢ ok tt
transaction-spent q sql t new_hash now seen db spent fresh h = ground (
  arith,
  sql.transaction_lem (Unit {0}) (exchange q t new_hash now seen) 1 db,
  exchange-spent q sql t new_hash now seen db spent fresh,
)

rotation_outcome-rotated :
    (q : Queries) (found : TokenWithSession) (now sid exp : ℕ) (u : AuthUserRecord)
    (r : Result DbError (Unit {0}) × Db)
    → (rotation_outcome q found now r).0 ≡ ok (rotated sid u exp)
    → (r.0 ≡ ok tt)
      × (r.1 ≡ (rotation_outcome q found now r).1)
      × (sid ≡ found.session.id)
      × (u ≡ found.user)
      × (exp ≡ found.session.expires_at)
unfolding rotation_outcome
rotation_outcome-rotated q found now sid exp u (ok tt, db) h = ground arith
rotation_outcome-rotated q found now sid exp u (err refresh_token_already_used, db) h = ground arith
rotation_outcome-rotated q found now sid exp u (err e, db) h = cc

-- What must have held at the first read for the token to be exchanged at all.
pub record IsExchangeable (found : TokenWithSession) (now : ℕ) : Type 0 where
  pub session_open : found.session.revoked_at ≡ none
  pub in_time : is_expired found now ≡ false
  pub unused : is_used found ≡ false

pub rotate_found-rotated :
    (q : Queries)
    → IsSql q
    → (others : Db → Db) (found : TokenWithSession) (new_hash now : ℕ) (seen : SessionSeenMetadata)
      (sid exp : ℕ) (u : AuthUserRecord) (db : Db)
    → q.generate_uuid (others db) ≢ found.token.id
    → (rotate_found q others found new_hash now seen db).0 ≡ ok (rotated sid u exp)
    → IsExchangeable found now
      × Exchanged found.token new_hash (rotate_found q others found new_hash now seen db).1
      × (sid ≡ found.session.id)
      × (u ≡ found.user)
      × (exp ≡ found.session.expires_at)
unfolding rotate_found
rotate_found-rotated q sql others found new_hash now seen sid exp u db fresh h =
    let body = exchange q found.token new_hash now seen in
    let r = q.transaction (Unit {0}) body 1 (others db) in
    (
      record { session_open = ground arith; in_time = ground arith; unused = ground arith },
      ground (
        arith,
        rotation_outcome-rotated q found now sid exp u r,
        exchange-Exchanged q sql found.token new_hash now seen (others db) fresh,
      ),
      ground (arith, rotation_outcome-rotated q found now sid exp u r),
      ground (arith, rotation_outcome-rotated q found now sid exp u r),
      ground (arith, rotation_outcome-rotated q found now sid exp u r),
    )

rotate_found-spent :
    (q : Queries)
    → IsSql q
    → (others : Db → Db) (found : TokenWithSession) (new_hash now : ℕ) (seen : SessionSeenMetadata)
      (sid exp : ℕ) (u : AuthUserRecord) (db : Db)
    → count (is_live found.token.id) (others db).refresh_tokens ≡ 0
    → q.generate_uuid (others db) ≢ found.token.id
    → (rotate_found q others found new_hash now seen db).0 ≢ ok (rotated sid u exp)
unfolding rotate_found
rotate_found-spent q sql others found new_hash now seen sid exp u db spent fresh h =
    let body = exchange q found.token new_hash now seen in
    let r = q.transaction (Unit {0}) body 1 (others db) in
    ground (
      arith,
      rotation_outcome-rotated q found now sid exp u r,
      transaction-spent q sql found.token new_hash now seen (others db) spent fresh,
    )

-- A rotation whose first read finds a token succeeds only if that token's session was open and the
-- token unexpired and unused; afterwards the old token is not live, a live token of the new hash has
-- its session and expiry, and the answer names that session, its user and its expiry. The id that
-- the database generates is not the old token's.
pub rotate_refresh_token-rotated :
    (q : Queries)
    → IsSql q
    → (others : Db → Db) (token_hash new_hash now : ℕ) (seen : SessionSeenMetadata) (sid exp : ℕ)
      (u : AuthUserRecord) (found : TokenWithSession) (db : Db)
    → token_with_session q db token_hash ≡ some found
    → q.generate_uuid (others db) ≢ found.token.id
    → (rotate_refresh_token q others token_hash new_hash now seen db).0 ≡ ok (rotated sid u exp)
    → IsExchangeable found now
      × (let after = (rotate_refresh_token q others token_hash new_hash now seen db).1 in
          (any (is_live found.token.id) after.refresh_tokens ≡ false)
          × (any (is_successor found.token new_hash) after.refresh_tokens ≡ true))
      × (sid ≡ found.session.id)
      × (u ≡ found.user)
      × (exp ≡ found.session.expires_at)
unfolding rotate_refresh_token
rotate_refresh_token-rotated q sql others token_hash new_hash now seen sid exp u found db e fresh =
    rw (e, rotate_refresh_token)
      (rotate_found-rotated q sql others found new_hash now seen sid exp u db fresh)

-- A token that is not live any more when the transaction starts, because another request has
-- exchanged or revoked it since the first read found it, is not exchanged again. The id that the
-- database generates is not that token's.
pub rotate_refresh_token-spent :
    (q : Queries)
    → IsSql q
    → (others : Db → Db) (token_hash new_hash now : ℕ) (seen : SessionSeenMetadata) (sid exp : ℕ)
      (u : AuthUserRecord) (found : TokenWithSession) (db : Db)
    → token_with_session q db token_hash ≡ some found
    → count (is_live found.token.id) (others db).refresh_tokens ≡ 0
    → q.generate_uuid (others db) ≢ found.token.id
    → (rotate_refresh_token q others token_hash new_hash now seen db).0 ≢ ok (rotated sid u exp)
unfolding rotate_refresh_token
rotate_refresh_token-spent q sql others token_hash new_hash now seen sid exp u found db e spent
      fresh =
    rw (e, rotate_refresh_token)
      (rotate_found-spent q sql others found new_hash now seen sid exp u db spent fresh)
