-- ===== src/Auth/Tokens.antt =====
-- libs/features/auth/app: the services for e-mail verification (auth-email-verification.service.ts),
-- password reset (auth-password-reset.service.ts), push tokens (auth-push-tokens.service.ts) and the
-- sessions of a user (auth-sessions.service.ts, but for the list), with auth-user-state.ts.
pub mod Guards
use backend_core_kit.Prelude.{
  ℕ, leb, Bool, true, false, Option, none, some, Text, is_some, if◌then◌else◌,
}
use backend_core_kit.Db.{Db, deleted, status_eq, PushPlatform}
use backend_core_kit.Db.Queries.{Queries}
use backend_core_kit.Auth.RefreshTokens.{AuthUserRecord}
use backend_core_kit.Auth.Users.{
  VerifyEmailResult, verified, already_verified, verify_email_by_token_hash, find_user_by_id,
  find_user_id_by_email,
}
use backend_core_kit.Auth.Users
use backend_core_kit.Auth.Credentials.{
  ResetPasswordResult, reset_done, token_invalid, token_expired, reset_password_by_token_hash,
}
use backend_core_kit.Auth.Sessions.{
  UpsertPushTokenResult, upserted, session_not_found, upsert_session_push_token,
  revoke_session_push_token, revoke_session_by_id,
}
use backend_core_kit.Auth.Service.{
  ◌>>=◌, ◌>>◌, pure, throw, lift, Service, auth_error, unauthorized,
  email_verification_token_expired, email_verification_token_invalid, password_reset_token_expired,
  password_reset_token_invalid, AuthConfig,
}
use backend_core_kit.Auth.Passwords.{PasswordHasher, assert_password_policy}
use backend_core_kit.Auth.Oidc.{require_existing_non_deleted_user}

pub data EmailVerificationStatus : Type 0 where
  is_verified is_unverified : EmailVerificationStatus

pub data SessionStatus : Type 0 where
  active_session revoked_session expired_session : SessionStatus

pub data RevokeResult : Type 0 where
  revoke_done session_missing : RevokeResult

abbrev pub status_for : Option ℕ → ℕ → ℕ → SessionStatus
status_for revoked_at expires_at now =
    if is_some revoked_at
    then revoked_session
    else if leb expires_at now
    then expired_session
    else active_session

abbrev answer_verification : VerifyEmailResult → Service (Unit {0})
answer_verification verified = pure tt
answer_verification already_verified = pure tt
answer_verification Users.token_expired = throw (auth_error 400 email_verification_token_expired)
answer_verification Users.token_invalid = throw (auth_error 400 email_verification_token_invalid)

abbrev pub answer_reset : ResetPasswordResult → Service (Unit {0})
answer_reset (reset_done user_id) = pure tt
answer_reset token_expired = throw (auth_error 400 password_reset_token_expired)
answer_reset token_invalid = throw (auth_error 400 password_reset_token_invalid)

abbrev answer_upsert : UpsertPushTokenResult → Service (Unit {0})
answer_upsert upserted = pure tt
answer_upsert session_not_found = throw (auth_error 401 unauthorized)

abbrev refuse_gone : Option AuthUserRecord → Service (Unit {0})
refuse_gone none = throw (auth_error 401 unauthorized)
refuse_gone (some u) =
    if status_eq u.status deleted then throw (auth_error 401 unauthorized) else pure tt

-- `hash_token` is SHA-256 of a token.
module _ (q : Queries) (hash_token : ℕ → ℕ) where
  unfoldable pub assert_auth_user_is_active : ℕ → Service (Unit {0})
  assert_auth_user_is_active user_id = do
    found ← lift (find_user_by_id q user_id)
    refuse_gone found

  unfoldable pub verify_email : ℕ → ℕ → Service (Unit {0})
  verify_email token now = do
    result ← lift (verify_email_by_token_hash q (hash_token token) now)
    answer_verification result

  unfoldable pub get_email_verification_status : ℕ → Service EmailVerificationStatus
  get_email_verification_status user_id = do
    u ← require_existing_non_deleted_user q user_id
    pure (if is_some u.email_verified_at then is_verified else is_unverified)

  unfoldable pub request_password_reset : ℕ → Service (Option ℕ)
  request_password_reset email = lift (find_user_id_by_email q email)

  unfoldable pub confirm_password_reset :
      PasswordHasher → AuthConfig → ℕ → ℕ → Text → ℕ → Service (Unit {0})
  confirm_password_reset hasher config salt token new_password now = do
    assert_password_policy new_password config.password_min_length
    result ←
        lift (reset_password_by_token_hash q (hash_token token) (hasher.hash salt new_password) now)
    answer_reset result

  unfoldable pub upsert_my_push_token : ℕ → ℕ → PushPlatform → ℕ → ℕ → Service (Unit {0})
  upsert_my_push_token user_id session_id platform token now = do
    assert_auth_user_is_active user_id
    result ← lift (upsert_session_push_token q user_id session_id platform token now)
    answer_upsert result

  unfoldable pub revoke_my_push_token : ℕ → ℕ → ℕ → Service (Unit {0})
  revoke_my_push_token user_id session_id now = do
    assert_auth_user_is_active user_id
    lift (revoke_session_push_token q user_id session_id now)

  unfoldable pub revoke_my_session : ℕ → ℕ → ℕ → Service RevokeResult
  revoke_my_session user_id session_id now = do
    assert_auth_user_is_active user_id
    done ← lift (revoke_session_by_id q user_id session_id now)
    pure (if done then revoke_done else session_missing)
