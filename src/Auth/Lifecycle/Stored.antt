-- ===== src/Auth/Lifecycle/Stored.antt =====
-- A session and a refresh token that have just been stored, as the refresh will read them.
use backend_core_kit.Prelude.{
  ℕ, ◌==◌, ◌≡◌, refl, ◌∙◌, arith, true, ◌&&◌, ◌<◌, none, some, find?, is_null, find?-append_one,
  any_weaker,
}
use backend_core_kit.Db.{Db, User, Session, RefreshToken, ok, session_collides, token_collides}
use backend_core_kit.Db.Queries.{Queries, IsSql, memory-eq}
use backend_core_kit.Auth.RefreshTokens.{
  create_refresh_token, token_with_session, join_session, join_user, TokenWithSession,
  to_auth_user_record,
}
use backend_core_kit.Auth.RefreshTokens.SingleUse.{IsExchangeable}
use backend_core_kit.Auth.Sessions.{create_session, CreateSessionInput, SessionRecord}

module _ (q : Queries) (sql : IsSql q) where
  -- The session that has been stored is found by its id.
  create_session-found :
      (input : CreateSessionInput) (s : SessionRecord) (db : Db)
      → (create_session q input db).0 ≡ ok s
      → let after = (create_session q input db).1 in
        (found : Session) × (find? (λ r. r.id == s.id) after.sessions ≡ some found)
        × (found.user_id ≡ input.user_id)
        × (found.revoked_at ≡ none)
        × (found.expires_at ≡ input.session_expires_at)
        × (s.expires_at ≡ input.session_expires_at)
        × (found.id ≡ s.id)
        × (after.users ≡ db.users)
  unfolding create_session session_collides
  create_session-found input s db = rw (← memory-eq q sql) (λ h.
      let new : Session = record {
        id = q.generate_uuid db;
        user_id = input.user_id;
        device_id = input.device_id;
        device_name = input.device_name;
        push_platform = none;
        push_token = none;
        push_token_updated_at = none;
        push_token_revoked_at = none;
        ip = input.ip;
        user_agent = input.user_agent;
        active_key = input.active_key;
        last_seen_at = input.last_seen_at;
        expires_at = input.session_expires_at;
        revoked_at = none;
      } in
      (
        new,
        ground (
          arith,
          find?-append_one (λ r. r.id == q.generate_uuid db) db.sessions new,
          any_weaker (λ r. r.id == q.generate_uuid db) (session_collides new) db.sessions
              (λ x k. ground arith),
        ),
        refl,
        refl,
        refl,
        ground arith,
        ground arith,
        ground arith,
      ))

  -- The refresh token that has been stored is found by its hash.
  create_refresh_token-found :
      (sid hash exp : ℕ) (t : RefreshToken) (db : Db)
      → (create_refresh_token q sid hash exp db).0 ≡ ok t
      → let after = (create_refresh_token q sid hash exp db).1 in
        (find? (λ r. r.token_hash == hash) after.refresh_tokens ≡ some t)
        × (t.session_id ≡ sid)
        × (t.expires_at ≡ exp)
        × (is_null t.revoked_at && is_null t.replaced_by_id ≡ true)
        × (after.sessions ≡ db.sessions)
        × (after.users ≡ db.users)
  unfolding create_refresh_token token_collides
  create_refresh_token-found sid hash exp t db = rw (← memory-eq q sql) (λ h.
      let new : RefreshToken = record {
        id = q.generate_uuid db;
        token_hash = hash;
        expires_at = exp;
        revoked_at = none;
        session_id = sid;
        replaced_by_id = none;
      } in
      ground (
        arith,
        find?-append_one (λ r. r.token_hash == hash) db.refresh_tokens new,
        any_weaker (λ r. r.token_hash == hash) (token_collides new) db.refresh_tokens
            (λ x k. ground arith),
      ))

  -- The rows that the nested selects join.
  token_with_session-joined :
      (hash : ℕ) (t : RefreshToken) (s : Session) (u : User) (db : Db)
      → find? (λ r. r.token_hash == hash) db.refresh_tokens ≡ some t
      → find? (λ r. r.id == t.session_id) db.sessions ≡ some s
      → find? (λ r. r.id == s.user_id) db.users ≡ some u
      → token_with_session q db hash
        ≡ some (record { token = t; session = s; user = to_auth_user_record u })
  unfolding token_with_session join_session join_user
  token_with_session-joined hash t s u db a b c = ground (
    arith,
    sql.find_unique_lem RefreshToken (λ r. r.token_hash == hash) db.refresh_tokens,
    sql.find_unique_lem Session (λ r. r.id == t.session_id) db.sessions,
    sql.find_unique_lem User (λ r. r.id == s.user_id) db.users,
  )

-- The refresh will read a token of this hash, of the user, and take it until it expires.
pub record IsRefreshable (q : Queries) (hash expiry : ℕ) (u : User) (db : Db) : Type 0 where
  pub found : TokenWithSession
  pub read : token_with_session q db hash ≡ some found
  pub owner : found.user ≡ to_auth_user_record u
  pub session_expiry : found.session.expires_at ≡ expiry
  pub token_expiry : found.token.expires_at ≡ expiry
  pub exchangeable : (later : ℕ) → later < expiry → IsExchangeable found later

pub stored-IsRefreshable :
    (q : Queries)
    → IsSql q
    → (input : CreateSessionInput) (hash : ℕ) (s : SessionRecord) (t : RefreshToken) (u : User)
      (db : Db)
    → (create_session q input db).0 ≡ ok s
    → (create_refresh_token q s.id hash s.expires_at (create_session q input db).1).0 ≡ ok t
    → find? (λ r. r.id == input.user_id) db.users ≡ some u
    → IsRefreshable q hash input.session_expires_at u
        (create_refresh_token q s.id hash s.expires_at (create_session q input db).1).1
stored-IsRefreshable q sql input hash s t u db made minted user =
    let mid = (create_session q input db).1 in
    let (row, row_found, row_owner, row_open, row_expiry, s_expiry, row_id, users) =
      create_session-found q sql input s db made in
    let (token_found, token_session, token_expiry, token_live, sessions', users') =
      create_refresh_token-found q sql s.id hash s.expires_at t mid minted in
    record {
      found = record { token = t; session = row; user = to_auth_user_record u };
      read =
          token_with_session-joined q sql hash t row u _ token_found (ground arith) (ground arith);
      owner = refl;
      session_expiry = row_expiry;
      token_expiry = token_expiry ∙ s_expiry;
      exchangeable = λ later h. record {
        session_open = row_open;
        in_time = ground arith;
        unused = ground arith;
      };
    }
