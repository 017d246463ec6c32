-- ===== src/Auth/Passwords.antt =====
-- libs/features/auth/app/auth-password-auth.service.ts: registration, login and change of password,
-- over the database and the login limiter's store. An e-mail is given as normalizeEmail returns it.
pub mod Tests
pub mod Login
pub mod Lockout
pub mod Change
use backend_core_kit.Prelude.{
  ℕ, ◌≡◌, ltb, Bool, true, false, not, ◌&&◌, ◌||◌, Option, none, some, List, [], ◌∷◌, length, Text,
  text_eq, is_some, if◌then◌else◌,
}
use backend_core_kit.Db.{Db, email_already_exists_error, Result, ok, err, deleted, status_eq}
use backend_core_kit.Db.Queries.{Queries}
use backend_core_kit.Redis.{Counters}
use backend_core_kit.RateLimit.{
  LimiterKey, same_limiter_key, RateLimitConfig, LoginContext, assert_allowed, record_failure,
  record_success,
}
use backend_core_kit.Auth.RefreshTokens.{AuthUserRecord}
use backend_core_kit.Auth.Users.{
  LoginUser, password_method, create_user_with_password, find_user_for_login, get_auth_methods,
}
use backend_core_kit.Auth.Credentials.{
  find_password_credential, ChangePasswordResult, changed, user_not_found, password_not_set,
  current_password_mismatch, change_password_and_revoke_other_sessions,
}
use backend_core_kit.Auth.Service.{
  Service, AppError, auth_error, database, AuthErrorCode, email_already_exists, validation_failed,
  current_password_invalid, unauthorized, rate_limited_code, invalid_credentials_error,
  assert_user_is_not_suspended, Crypto, AuthConfig, AuthResult, bind_service, lift,
}
use backend_core_kit.Auth.Service
use backend_core_kit.Auth.Lifecycle.{NewSessionInput, issue_tokens_for_new_session}

-- Argon2, which draws a salt for each hash, and whose verification accepts what was hashed.
pub record PasswordHasher : Type 0 where
  pub hash : ℕ → Text → ℕ
  pub verify : ℕ → Text → Bool
  pub verify-hash : (salt : ℕ) (password : Text) → verify (hash salt password) password ≡ true

pub record PasswordInput : Type 0 where
  pub email : ℕ
  pub password : Text
  pub ip_address : Option ℕ
  pub session : NewSessionInput

pub record ChangePasswordInput : Type 0 where
  pub user_id : ℕ
  pub session_id : ℕ
  pub current_password : Text
  pub new_password : Text

abbrev pub policy_error : AppError
policy_error = auth_error 400 validation_failed

unfoldable pub assert_password_policy : Text → ℕ → Service (Unit {0})
assert_password_policy password min_length db =
    if ltb (length password) min_length then (err policy_error, db) else (ok tt, db)

-- The catch block of the registration.
abbrev pub email_conflict : {A : Type 0} → Result AppError A × Db → Result AppError A × Db
email_conflict (err (database email_already_exists_error), db) =
    (err (auth_error 409 email_already_exists), db)
email_conflict r = r

abbrev pub answer_change : ChangePasswordResult → Service (Unit {0})
answer_change changed db = (ok tt, db)
answer_change user_not_found db = (err (auth_error 401 unauthorized), db)
answer_change password_not_set db = (err (auth_error 409 AuthErrorCode.password_not_set), db)
answer_change current_password_mismatch db = (err (auth_error 400 current_password_invalid), db)

module _ (q : Queries) (crypto : Crypto) (config : AuthConfig) (hasher : PasswordHasher) where
  -- `token` is the refresh token that is drawn, `salt` what the hash draws.
  unfoldable pub register_with_password : ℕ → ℕ → PasswordInput → Service AuthResult
  register_with_password token salt input db =
      bind_service (assert_password_policy input.password config.password_min_length db) (λ _ db1.
        bind_service
          (email_conflict
            (lift (create_user_with_password q input.email (hasher.hash salt input.password)) db1))
          (λ u.
            issue_tokens_for_new_session q crypto config token u (password_method ∷ [])
              input.session))

  unfoldable pub change_verified : ℕ → ℕ → ChangePasswordInput → ℕ → Service (Unit {0})
  change_verified salt now input current_hash db =
      bind_service
        (lift
          (change_password_and_revoke_other_sessions q input.user_id input.session_id current_hash
            (hasher.hash salt input.new_password) now)
          db)
        answer_change

  unfoldable pub change_existing : ℕ → ℕ → ChangePasswordInput → Option ℕ → Service (Unit {0})
  change_existing salt now input none db = (err (auth_error 409 AuthErrorCode.password_not_set), db)
  change_existing salt now input (some current_hash) db =
      if not (hasher.verify current_hash input.current_password)
      then (err (auth_error 400 current_password_invalid), db)
      else change_verified salt now input current_hash db

  unfoldable pub change_password : ℕ → ℕ → ChangePasswordInput → Service (Unit {0})
  change_password salt now input db =
      bind_service (assert_password_policy input.new_password config.password_min_length db)
        (λ _ db1.
          if text_eq input.current_password input.new_password
          then (err policy_error, db1)
          else bind_service (lift (find_password_credential q input.user_id) db1)
              (change_existing salt now input))

  -- The database and the store of the limiter.
  module _ (c : Counters LimiterKey same_limiter_key) (enabled : Bool) (limits : RateLimitConfig)
      (dummy_password_hash : ℕ) (context : ℕ → Option ℕ → LoginContext) where
    abbrev pub State : Type 0
    State = Db × c.Store

    abbrev pub on_database : {A : Type 0} → Service A → State → Result AppError A × State
    on_database m (db, s) = let r = m db in (r.0, (r.1, s))

    abbrev pub reject : LoginContext → State → Result AppError AuthResult × State
    reject ctx (db, s) =
        (err invalid_credentials_error, (db, record_failure c enabled limits ctx s))

    -- The user is known and the password is right.
    unfoldable pub accept :
        ℕ
        → PasswordInput
        → LoginContext
        → AuthUserRecord
        → State
        → Result AppError AuthResult × State
    accept token input ctx u (db, s) =
        on_database
          (λ db1.
            bind_service (lift (get_auth_methods q u.id) db1) (λ methods.
              issue_tokens_for_new_session q crypto config token u methods input.session))
          (db, record_success c enabled ctx s)

    abbrev pub unless_suspended :
        Result AppError (Unit {0}) × Db
        → c.Store
        → (State → Result AppError AuthResult × State)
        → Result AppError AuthResult × State
    unless_suspended (err e, db) s k = (err e, (db, s))
    unless_suspended (ok done, db) s k = k (db, s)

    unfoldable pub login_user :
        ℕ
        → PasswordInput
        → LoginContext
        → AuthUserRecord
        → State
        → Result AppError AuthResult × State
    login_user token input ctx u (db, s) =
        if status_eq u.status deleted
        then reject ctx (db, s)
        else unless_suspended (assert_user_is_not_suspended u db) s (accept token input ctx u)

    abbrev pub hash_to_verify : Option LoginUser → ℕ
    hash_to_verify none = dummy_password_hash
    hash_to_verify (some f) = f.password_hash

    -- Some hash is verified whether or not there is a user; `verified` is the outcome.
    unfoldable pub login_verified :
        ℕ
        → PasswordInput
        → LoginContext
        → Option LoginUser
        → Bool
        → State
        → Result AppError AuthResult × State
    login_verified token input ctx (some f) true state = login_user token input ctx f.user state
    login_verified token input ctx found verified state = reject ctx state

    unfoldable pub login_found :
        ℕ
        → PasswordInput
        → LoginContext
        → Result AppError (Option LoginUser) × State
        → Result AppError AuthResult × State
    login_found token input ctx (err e, state) = (err e, state)
    login_found token input ctx (ok found, state) =
        login_verified token input ctx found (hasher.verify (hash_to_verify found) input.password)
          state

    unfoldable pub login_limited :
        ℕ
        → PasswordInput
        → LoginContext
        → Result ℕ (Unit {0})
        → State
        → Result AppError AuthResult × State
    login_limited token input ctx (err seconds) state =
        (err (auth_error 429 rate_limited_code), state)
    login_limited token input ctx (ok done) state =
        login_found token input ctx (on_database (lift (find_user_for_login q input.email)) state)

    unfoldable pub login_with_password :
        ℕ → PasswordInput → State → Result AppError AuthResult × State
    login_with_password token input (db, s) =
        let ctx = context input.email input.ip_address in
        login_limited token input ctx (assert_allowed c enabled limits ctx s) (db, s)
