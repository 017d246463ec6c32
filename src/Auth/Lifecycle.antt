-- ===== src/Auth/Lifecycle.antt =====
-- libs/features/auth/app/auth-session-lifecycle.service.ts: issuing tokens, refresh and logout.
pub mod Tests
pub mod Issue
pub mod Stored
pub mod Refresh
use backend_core_kit.Prelude.{
  ℕ, leb, List, Bool, true, false, ◌||◌, Option, none, some, is_some, if◌then◌else◌,
}
use backend_core_kit.Db.{Db, deleted, status_eq, ActiveKey}
use backend_core_kit.Db.Queries.{Queries}
use backend_core_kit.Auth.RefreshTokens.{
  AuthUserRecord, TokenWithSession, SessionSeenMetadata, RefreshRotationResult, not_found,
  revoked_or_reused, expired, session_revoked, rotated, is_expired, is_used,
  find_refresh_token_with_session, revoke_session_by_refresh_token_hash, rotate_refresh_token,
  create_refresh_token,
}
use backend_core_kit.Auth.Users.{AuthMethod}
use backend_core_kit.Auth.Sessions.{revoke_active_session_for_device, create_session, SessionRecord}
use backend_core_kit.Auth.Service.{
  ◌>>=◌, ◌>>◌, pure, throw, lift, meanwhile, Service, AppError, auth_error, signing_failed,
  refresh_token_expired, refresh_token_reused, session_revoked_code, invalid_refresh_token_error,
  Crypto, AuthConfig, AccessTokenClaims, AuthResult, to_auth_user_view, build_active_session_key,
  session_expires_at_from, assert_user_is_not_suspended,
}

pub record NewSessionInput : Type 0 where
  pub device_id : Option ℕ
  pub device_name : Option ℕ
  pub ip : Option ℕ
  pub user_agent : Option ℕ
  pub now : ℕ

module _ (q : Queries) (crypto : Crypto) (config : AuthConfig) where
  unfoldable pub sign_access_token_for_user : AuthUserRecord → ℕ → Service ℕ
  sign_access_token_for_user u session_id =
      elim (crypto.sign_access_token (record {
        user_id = u.id;
        session_id = session_id;
        email_verified = is_some u.email_verified_at;
        role = u.role;
        ttl_seconds = config.access_token_ttl_seconds;
      })) [ none ↦ throw signing_failed | some token ↦ pure token ]

  unfoldable pub revoke_device : ℕ → Option ActiveKey → ℕ → Service (Unit {0})
  revoke_device user_id none now = pure tt
  revoke_device user_id (some key) now = lift (revoke_active_session_for_device q user_id key now)

  -- `token` is what generateRefreshToken draws. The result is the session's id and the token.
  unfoldable pub create_session_and_tokens : ℕ → ℕ → NewSessionInput → Service ℕ
  create_session_and_tokens token user_id input = do
    let key = build_active_session_key user_id input.device_id
    revoke_device user_id key input.now
    session ← lift (
        create_session q (record {
          user_id = user_id;
          device_id = input.device_id;
          device_name = input.device_name;
          ip = input.ip;
          user_agent = input.user_agent;
          last_seen_at = input.now;
          session_expires_at = session_expires_at_from input.now config.refresh_token_ttl_seconds;
          active_key = key;
        }))
    lift (create_refresh_token q session.id (crypto.hash_refresh_token token) session.expires_at)
    pure session.id

  unfoldable pub issue_tokens_for_new_session :
      ℕ → AuthUserRecord → List AuthMethod → NewSessionInput → Service AuthResult
  issue_tokens_for_new_session token u methods input = do
    session_id ← create_session_and_tokens token u.id input
    access ← sign_access_token_for_user u session_id
    pure (record {
      user = to_auth_user_view u (some methods);
      access_token = access;
      refresh_token = token;
    })

  pub answer_rotation : AuthUserRecord → ℕ → ℕ → RefreshRotationResult → Service AuthResult
  answer_rotation u access next not_found = throw invalid_refresh_token_error
  answer_rotation u access next (expired sid uid) = throw (auth_error 401 refresh_token_expired)
  answer_rotation u access next (session_revoked sid uid) =
      throw (auth_error 401 session_revoked_code)
  answer_rotation u access next (revoked_or_reused sid uid) =
      throw (auth_error 401 refresh_token_reused)
  answer_rotation u access next (rotated sid user exp) =
      pure (record { user = to_auth_user_view u none; access_token = access; refresh_token = next })

  -- From the minting of the access token on; `others` is what other requests commit before the
  -- rotation reads the token again, `racing` what they commit while it runs.
  pub mint_and_rotate :
      (Db → Db)
      → (Db → Db)
      → ℕ
      → TokenWithSession
      → ℕ
      → ℕ
      → SessionSeenMetadata
      → Service AuthResult
  mint_and_rotate others racing next found current_hash now seen = do
    access ← sign_access_token_for_user found.user found.session.id
    meanwhile others
    rotation ←
        lift (rotate_refresh_token q racing current_hash (crypto.hash_refresh_token next) now seen)
    answer_rotation found.user access next rotation

  pub refresh_found :
      (Db → Db)
      → (Db → Db)
      → ℕ
      → TokenWithSession
      → ℕ
      → ℕ
      → SessionSeenMetadata
      → Service AuthResult
  refresh_found others racing next found current_hash now seen =
      if status_eq found.user.status deleted then throw invalid_refresh_token_error else (do
        assert_user_is_not_suspended found.user
        if is_some found.session.revoked_at
            then throw (auth_error 401 session_revoked_code)
            else if is_expired found now
            then throw (auth_error 401 refresh_token_expired)
            else if is_used found
            then (do
              lift (revoke_session_by_refresh_token_hash q current_hash now)
              throw (auth_error 401 refresh_token_reused))
            else mint_and_rotate others racing next found current_hash now seen)

  unfoldable pub refresh :
      (Db → Db) → (Db → Db) → ℕ → ℕ → ℕ → SessionSeenMetadata → Service AuthResult
  refresh others racing next token now seen = do
    let current_hash = crypto.hash_refresh_token token
    existing ← lift (find_refresh_token_with_session q current_hash)
    elim existing [
      | none ↦ throw invalid_refresh_token_error
      | some found ↦ refresh_found others racing next found current_hash now seen
    ]

  unfoldable pub logout : ℕ → ℕ → Service (Unit {0})
  logout token now = do
    done ← lift (revoke_session_by_refresh_token_hash q (crypto.hash_refresh_token token) now)
    if done then pure tt else throw invalid_refresh_token_error
