-- ===== src/Auth/Passwords/Tests.antt =====
-- Runs of a login, of a lockout and of a change of password on a small database.
use backend_core_kit.Prelude.{
  ==_refl, ℕ, ◌==◌, ◌+◌, ◌≡◌, ◌<◌, refl, arith, true, none, some, Option, [], ◌∷◌, Text, length,
}
use backend_core_kit.Db.{
  ok, err, user_collides, credential_collides, profile_collides, session_collides, token_collides,
}
use backend_core_kit.Db.Queries.{memory-IsSql}
use backend_core_kit.Db.Retry.{with_transaction_retry, retry_loop}
use backend_core_kit.Db.Samples.{client, sample, member}
use backend_core_kit.Redis.{Counters}
use backend_core_kit.Redis.Samples.{memory_counters}
use backend_core_kit.RateLimit.{
  LimiterKey, same_limiter_key, RateLimitConfig, LoginContext, assert_allowed, blocked_for,
  record_success,
}
use backend_core_kit.Auth.RefreshTokens.{AuthUserRecord, to_auth_user_record, create_refresh_token}
use backend_core_kit.Auth.Users.{
  LoginUser, new_user, register, create_user_with_password, find_user_for_login, get_auth_methods,
  password_method,
}
use backend_core_kit.Auth.Sessions.{create_session}
use backend_core_kit.Auth.Credentials.{
  find_password_credential, change_password_and_revoke_other_sessions, change_found, revoke_others,
}
use backend_core_kit.Auth.Credentials
use backend_core_kit.Auth.Service.{
  AuthResult, AuthConfig, Crypto, auth_error, rate_limited_code, to_auth_user_view, lift,
  assert_user_is_not_suspended,
}
use backend_core_kit.Auth.Lifecycle.{
  issue_tokens_for_new_session, create_session_and_tokens, revoke_device,
  sign_access_token_for_user,
}
use backend_core_kit.Auth.Passwords.{
  PasswordHasher, PasswordInput, ChangePasswordInput, assert_password_policy, change_verified,
  change_existing, change_password, accept, login_user, login_verified, login_found, login_limited,
  login_with_password, on_database,
}
use backend_core_kit.Auth.Passwords.Login.{
  IsLoggedIn, login_with_password-IsLoggedIn, login_with_password-registered,
}
use backend_core_kit.Auth.Passwords.Lockout.{login, attempts, is_wrong, login_with_password-lockout}
use backend_core_kit.Auth.Passwords.Change.{IsChangedByOwner, change_password-IsChangedByOwner}

-- A hasher for the tests: a password has the length, and the hash is 500 and it.
abbrev hasher : PasswordHasher
hasher = record {
  hash = λ salt password. 500 + length password;
  verify = λ hash password. hash == 500 + length password;
  verify-hash = λ salt password. ==_refl (500 + length password);
}

abbrev crypto : Crypto
crypto = record {
  hash_refresh_token = λ token. token + 100;
  sign_access_token = λ claims. some claims.session_id;
}

abbrev config : AuthConfig
config = record {
  access_token_ttl_seconds = 900;
  refresh_token_ttl_seconds = 3600;
  password_min_length = 2;
}

abbrev counters : Counters LimiterKey same_limiter_key
counters = memory_counters same_limiter_key

abbrev limits : RateLimitConfig
limits = record { max_attempts = 2; window_seconds = 60; block_seconds = 900 }

abbrev context : ℕ → Option ℕ → LoginContext
context email ip = record { email_hash = email; ip_hash = none }

abbrev nothing_stored : LimiterKey → Option ℕ
nothing_stored key = none

abbrev with_password : Text → PasswordInput
with_password password = record {
  email = 11;
  password = password;
  ip_address = none;
  session = record { device_id = none; device_name = none; ip = none; user_agent = none; now = 5 };
}

abbrev right_password : PasswordInput
right_password = with_password []

abbrev wrong_password : PasswordInput
wrong_password = with_password (65 ∷ [])

abbrev answer : AuthResult
answer = record {
  user = to_auth_user_view (to_auth_user_record member) (some (password_method ∷ []));
  access_token = 99;
  refresh_token = 300;
}

member_logs_in :
    (login_with_password client crypto config hasher counters true limits 0 context 300
      right_password
      (sample, nothing_stored)).0
    ≡ ok answer
unfolding login_with_password login_limited login_found login_verified login_user accept
    assert_allowed blocked_for record_success assert_user_is_not_suspended find_user_for_login
    get_auth_methods issue_tokens_for_new_session create_session_and_tokens revoke_device
    create_session session_collides create_refresh_token token_collides sign_access_token_for_user
member_logs_in = refl

login_with_password-IsLoggedIn_example :
    IsLoggedIn hasher counters true limits
      (context 11 none)
      right_password
      answer
      sample
      nothing_stored
      (login_with_password client crypto config hasher counters true limits 0 context 300
        right_password
        (sample, nothing_stored)).1.1
login_with_password-IsLoggedIn_example =
    login_with_password-IsLoggedIn client (memory-IsSql (λ db. 99) (λ n db. none)) crypto config
      hasher counters true limits 0 context 300 right_password answer sample nothing_stored
      member_logs_in

abbrev newcomer : AuthUserRecord
newcomer = to_auth_user_record (new_user 99 14 none)

abbrev new_input : PasswordInput
new_input = record right_password { email = 14 }

registered : (create_user_with_password client 14 500 sample).0 ≡ ok newcomer
unfolding create_user_with_password register user_collides credential_collides profile_collides
registered = refl

is_let_in : assert_allowed counters true limits (context 14 none) nothing_stored ≡ ok tt
unfolding assert_allowed blocked_for
is_let_in = refl

login_with_password-registered_example :
    login_with_password client crypto config hasher counters true limits 0 context 300 new_input
      ((create_user_with_password client 14 500 sample).1, nothing_stored)
    ≡ accept client crypto config hasher counters true limits 0 context 300 new_input
        (context 14 none)
        newcomer
        ((create_user_with_password client 14 500 sample).1, nothing_stored)
login_with_password-registered_example =
    login_with_password-registered client (memory-IsSql (λ db. 99) (λ n db. none)) crypto config
      hasher counters true limits 0 context 300 7 new_input newcomer sample nothing_stored
      registered is_let_in

abbrev member_login : LoginUser
member_login = record { user = to_auth_user_record member; password_hash = 500 }

member_is_found : find_user_for_login client 11 sample ≡ (ok (some member_login), sample)
unfolding find_user_for_login
member_is_found = refl

guess_is_wrong : is_wrong hasher wrong_password (some member_login) ≡ true
unfolding is_wrong
guess_is_wrong = refl

abbrev twice : ℕ
twice = 2

login_with_password-lockout_example :
    let after =
      attempts client crypto config hasher counters limits 0 context twice 300 wrong_password
        (sample, nothing_stored) in
    let reply =
      login client crypto config hasher counters limits 0 context 300 right_password after in
    (twice ≡ limits.max_attempts → reply ≡ (err (auth_error 429 rate_limited_code), after))
    × (twice < limits.max_attempts
        → reply
          ≡ login_found client crypto config hasher counters true limits 0 context 300
              right_password
              (context 11 none)
              (on_database client crypto config hasher counters true limits 0 context
                (lift (find_user_for_login client 11))
                after))
login_with_password-lockout_example =
    login_with_password-lockout client crypto config hasher counters limits 0 context 300 twice 11
      wrong_password right_password (some member_login) sample nothing_stored refl refl
      (ground arith) (ground arith) (ground arith) member_is_found guess_is_wrong refl refl

abbrev change_input : ChangePasswordInput
change_input = record {
  user_id = 1;
  session_id = 7;
  current_password = [];
  new_password = 65 ∷ 66 ∷ [];
}

owner_changes : (change_password client crypto config hasher 3 5 change_input sample).0 ≡ ok tt
unfolding change_password assert_password_policy find_password_credential change_existing
    change_verified change_password_and_revoke_other_sessions with_transaction_retry retry_loop
    Credentials.change_password change_found revoke_others
owner_changes = refl

change_password-IsChangedByOwner_example :
    IsChangedByOwner config hasher 3 change_input sample
      (change_password client crypto config hasher 3 5 change_input sample).1
change_password-IsChangedByOwner_example =
    change_password-IsChangedByOwner client (memory-IsSql (λ db. 99) (λ n db. none)) crypto config
      hasher 3 5 change_input sample owner_changes
