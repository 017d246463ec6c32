-- ===== src/Auth/Service.antt =====
-- libs/features/auth/app: the errors that the services throw, the steps of a service method, and
-- what the services take from cryptographic libraries and from the environment.
use backend_core_kit.Prelude.{ℕ, ◌+◌, ◌*◌, Bool, List, Option, none, some, is_some, if◌then◌else◌}
use backend_core_kit.Db.{Db, DbError, Result, ok, err, UserRole, suspended, status_eq, ActiveKey}
use backend_core_kit.Db.Queries.{Action}
use backend_core_kit.Auth.RefreshTokens.{AuthUserRecord}
use backend_core_kit.Auth.Users.{AuthMethod}

-- The codes of AuthErrorCode and ErrorCode that the modelled services throw.
pub data AuthErrorCode : Type 0 where
  email_already_exists invalid_credentials password_not_set : AuthErrorCode
  current_password_invalid refresh_token_invalid refresh_token_reused : AuthErrorCode
  refresh_token_expired session_revoked_code user_suspended : AuthErrorCode
  validation_failed unauthorized rate_limited_code internal : AuthErrorCode
  oidc_link_required oidc_not_configured oidc_token_invalid oidc_email_not_verified : AuthErrorCode
  oidc_identity_already_linked oidc_provider_already_linked : AuthErrorCode
  email_verification_token_expired email_verification_token_invalid : AuthErrorCode
  password_reset_token_expired password_reset_token_invalid : AuthErrorCode

-- An AuthError by its status and code, or an error that a service passes on.
pub data AppError : Type 0 where
  auth_error : ℕ → AuthErrorCode → AppError
  database : DbError → AppError
  signing_failed : AppError

abbrev pub Service : Type 0 → Type 0
Service A = Db → Result AppError A × Db

abbrev pub bind_service :
    {A B : Type 0} → Result AppError A × Db → (A → Service B) → Result AppError B × Db
bind_service (ok a, db) f = f a db
bind_service (err e, db) f = (err e, db)

infixl 5 ◌>>=◌ ◌>>◌
abbrev pub ◌>>=◌ : {A B : Type 0} → Service A → (A → Service B) → Service B
◌>>=◌ m f db = bind_service (m db) f

abbrev pub ◌>>◌ : {A B : Type 0} → Service A → Service B → Service B
◌>>◌ m k db = bind_service (m db) (λ _. k)

abbrev pub pure : {A : Type 0} → A → Service A
pure a db = (ok a, db)

abbrev pub throw : {A : Type 0} → AppError → Service A
throw e db = (err e, db)

abbrev pub lift_result : {A : Type 0} → Result DbError A × Db → Result AppError A × Db
lift_result (ok a, db) = (ok a, db)
lift_result (err e, db) = (err (database e), db)

-- A call of the repository: its errors are passed on.
abbrev pub lift : {A : Type 0} → Action A → Service A
lift m db = lift_result (m db)

-- What other requests commit while the service waits.
abbrev pub meanwhile : (Db → Db) → Service (Unit {0})
meanwhile others db = (ok tt, others db)

pub record AccessTokenClaims : Type 0 where
  pub user_id : ℕ
  pub session_id : ℕ
  pub email_verified : Bool
  pub role : UserRole
  pub ttl_seconds : ℕ

-- SHA-256 of a refresh token, and the signature of an access token, which may fail.
pub record Crypto : Type 0 where
  pub hash_refresh_token : ℕ → ℕ
  pub sign_access_token : AccessTokenClaims → Option ℕ

pub record AuthConfig : Type 0 where
  pub access_token_ttl_seconds : ℕ
  pub refresh_token_ttl_seconds : ℕ
  pub password_min_length : ℕ

abbrev pub invalid_refresh_token_error : AppError
invalid_refresh_token_error = auth_error 401 refresh_token_invalid

abbrev pub invalid_credentials_error : AppError
invalid_credentials_error = auth_error 401 invalid_credentials

unfoldable pub assert_user_is_not_suspended : AuthUserRecord → Service (Unit {0})
assert_user_is_not_suspended u =
    if status_eq u.status suspended then throw (auth_error 403 user_suspended) else pure tt

-- An empty device id counts as absent; the model's option has no empty text.
abbrev pub build_active_session_key : ℕ → Option ℕ → Option ActiveKey
build_active_session_key user_id none = none
build_active_session_key user_id (some device_id) =
    some (record { user_id = user_id; device_id = device_id })

abbrev pub session_expires_at_from : ℕ → ℕ → ℕ
session_expires_at_from now ttl_seconds = now + ttl_seconds * 1000

pub record AuthUserView : Type 0 where
  pub id : ℕ
  pub email : ℕ
  pub email_verified : Bool
  pub auth_methods : Option (List AuthMethod)

abbrev pub to_auth_user_view : AuthUserRecord → Option (List AuthMethod) → AuthUserView
to_auth_user_view u methods = record {
  id = u.id;
  email = u.email;
  email_verified = is_some u.email_verified_at;
  auth_methods = methods;
}

pub record AuthResult : Type 0 where
  pub user : AuthUserView
  pub access_token : ℕ
  pub refresh_token : ℕ
