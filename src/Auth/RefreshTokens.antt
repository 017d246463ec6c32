-- ===== src/Auth/RefreshTokens.antt =====
-- libs/features/auth/infra/persistence/prisma-auth.repository.refresh-tokens.ts.
pub mod Tests
pub mod Containment
pub mod SingleUse
pub mod Spent
pub mod Quiet
use backend_core_kit.Prelude.{
  ℕ, ◌==◌, leb, Bool, ◌&&◌, ◌||◌, Option, none, some, is_null, is_some, if◌then◌else◌,
}
use backend_core_kit.Db.{
  Db, DbError, refresh_token_already_used, Result, ok, err, User, Session, RefreshToken, UserRole,
  UserStatus,
}
use backend_core_kit.Db.Queries.{Queries, Action}
use backend_core_kit.Db.Client.{
  ◌>>=◌, ◌>>◌, pure, throw, unless, find_token, update_session, update_sessions, update_tokens,
  insert_token, new_id, transaction,
}

pub record AuthUserRecord : Type 0 where
  pub id : ℕ
  pub email : ℕ
  pub email_verified_at : Option ℕ
  pub role : UserRole
  pub status : UserStatus

abbrev pub to_auth_user_record : User → AuthUserRecord
to_auth_user_record u = record {
  id = u.id;
  email = u.email;
  email_verified_at = u.email_verified_at;
  role = u.role;
  status = u.status;
}

-- A refresh token with its session and the session's user.
pub record TokenWithSession : Type 0 where
  pub token : RefreshToken
  pub session : Session
  pub user : AuthUserRecord

-- The metadata of the request: an absent value leaves the column alone.
pub record SessionSeenMetadata : Type 0 where
  pub ip : Option ℕ
  pub user_agent : Option ℕ

pub data RefreshRotationResult : Type 0 where
  not_found : RefreshRotationResult
  revoked_or_reused expired session_revoked : ℕ → ℕ → RefreshRotationResult
  rotated : ℕ → AuthUserRecord → ℕ → RefreshRotationResult

abbrev set_if_given : Option ℕ → Option ℕ → Option ℕ
set_if_given none old = old
set_if_given (some new) old = some new

-- The columns that forget a session's device and its push token.
abbrev pub push_cleared : ℕ → Session → Session
push_cleared now s = record s {
  active_key = none;
  push_platform = none;
  push_token = none;
  push_token_updated_at = some now;
  push_token_revoked_at = some now;
}

abbrev pub token_revoked : ℕ → RefreshToken → RefreshToken
token_revoked now t = record t { revoked_at = some now }

abbrev pub is_expired : TokenWithSession → ℕ → Bool
is_expired found now = leb found.token.expires_at now || leb found.session.expires_at now

abbrev pub is_used : TokenWithSession → Bool
is_used found = is_some found.token.revoked_at || is_some found.token.replaced_by_id

module _ (q : Queries) where
  unfoldable pub create_refresh_token : ℕ → ℕ → ℕ → Action RefreshToken
  create_refresh_token session_id token_hash expires_at = do
    fresh ← new_id q
    let token : RefreshToken = record {
      id = fresh;
      token_hash = token_hash;
      expires_at = expires_at;
      revoked_at = none;
      session_id = session_id;
      replaced_by_id = none;
    }
    insert_token q token
    pure token

  -- The nested selects: a foreign key leads from the token to its session and on to its user.
  unfoldable pub join_user : Db → RefreshToken → Session → Option TokenWithSession
  join_user db t s = elim (q.find_unique User (λ u. u.id == s.user_id) db.users) [
    | none ↦ none
    | some u ↦ some (record { token = t; session = s; user = to_auth_user_record u })
  ]

  unfoldable pub join_session : Db → RefreshToken → Option TokenWithSession
  join_session db t = elim (q.find_unique Session (λ s. s.id == t.session_id) db.sessions) [
    | none ↦ none
    | some s ↦ join_user db t s
  ]

  unfoldable pub token_with_session : Db → ℕ → Option TokenWithSession
  token_with_session db token_hash =
      elim (q.find_unique RefreshToken (λ t. t.token_hash == token_hash) db.refresh_tokens) [
        | none ↦ none
        | some t ↦ join_session db t
      ]

  unfoldable pub find_refresh_token_with_session : ℕ → Action (Option TokenWithSession)
  find_refresh_token_with_session token_hash db = (ok (token_with_session db token_hash), db)

  unfoldable pub revoke_session_and_tokens : ℕ → ℕ → Action (Unit {0})
  revoke_session_and_tokens session_id now = transaction q (do
    update_sessions q (λ s. s.id == session_id) (push_cleared now)
    update_sessions q (λ s. s.id == session_id && is_null s.revoked_at)
        (λ s. record s { revoked_at = some now })
    update_tokens q (λ t. t.session_id == session_id && is_null t.revoked_at) (token_revoked now)
    pure tt)

  -- The transaction of rotateRefreshToken: a successor, the compare-and-set on the old token, and
  -- the session's metadata.
  unfoldable pub exchange : RefreshToken → ℕ → ℕ → SessionSeenMetadata → Action (Unit {0})
  exchange existing new_hash now seen = do
    next ← create_refresh_token existing.session_id new_hash existing.expires_at
    updated ←
        update_tokens q
          (λ t. t.id == existing.id && is_null t.revoked_at && is_null t.replaced_by_id)
          (λ t. record t { revoked_at = some now; replaced_by_id = some next.id })
    unless (updated == 1) (throw refresh_token_already_used)
    update_session q (λ s. s.id == existing.session_id)
        (λ s. record s {
          last_seen_at = now;
          ip = set_if_given seen.ip s.ip;
          user_agent = set_if_given seen.user_agent s.user_agent;
        })

  -- The catch block: a lost race counts as reuse, any other error is thrown on.
  unfoldable pub rotation_outcome :
      TokenWithSession
      → ℕ
      → Result DbError (Unit {0}) × Db
      → Result DbError RefreshRotationResult × Db
  rotation_outcome found now (ok done, db) =
      (ok (rotated found.session.id found.user found.session.expires_at), db)
  rotation_outcome found now (err refresh_token_already_used, db) =
      (do
        revoke_session_and_tokens found.session.id now
        pure (revoked_or_reused found.session.id found.session.user_id))
        db
  rotation_outcome found now (err e, db) = (err e, db)

  unfoldable pub rotate_found :
      (Db → Db) → TokenWithSession → ℕ → ℕ → SessionSeenMetadata → Action RefreshRotationResult
  rotate_found others found new_hash now seen =
      let sid = found.session.id in
      let uid = found.session.user_id in
      if is_some found.session.revoked_at
      then pure (session_revoked sid uid)
      else if is_expired found now
      then pure (expired sid uid)
      else if is_used found
      then (do revoke_session_and_tokens sid now; pure (revoked_or_reused sid uid))
      else (λ db.
          rotation_outcome found now
            (transaction q (exchange found.token new_hash now seen) (others db)))

  -- `others` is what other requests commit between this one's first read and its transaction.
  unfoldable pub rotate_refresh_token :
      (Db → Db) → ℕ → ℕ → ℕ → SessionSeenMetadata → Action RefreshRotationResult
  unfolding find_refresh_token_with_session
  rotate_refresh_token others token_hash new_hash now seen = do
    found ← find_refresh_token_with_session token_hash
    elim found [ none ↦ pure not_found | some f ↦ rotate_found others f new_hash now seen ]

  unfoldable pub revoke_session_by_refresh_token_hash : ℕ → ℕ → Action Bool
  revoke_session_by_refresh_token_hash token_hash now = do
    existing ← find_token q (λ t. t.token_hash == token_hash)
    elim existing [
      | none ↦ pure Bool.false
      | some t ↦ (do revoke_session_and_tokens t.session_id now; pure Bool.true)
    ]
