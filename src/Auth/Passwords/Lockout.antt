-- ===== src/Auth/Passwords/Lockout.antt =====
-- Wrong passwords lead to a lockout, and a registration to a login.
use backend_core_kit.Prelude.{
  ℕ, zero, suc, ◌≡◌, ◌≤◌, ◌<◌, refl, ◌∙◌, ap, arith, Bool, true, false, not, Option, none, some,
}
use backend_core_kit.Db.{Db, Result, ok, err}
use backend_core_kit.Db.Queries.{Queries}
use backend_core_kit.Redis.{Counters}
use backend_core_kit.RateLimit.{
  LimiterKey, same_limiter_key, email_failures, email_blocked, RateLimitConfig, LoginContext,
  assert_allowed, record_failure,
}
use backend_core_kit.RateLimit.Lockout.{ctx, failures, is_allowed, assert_allowed-failures}
use backend_core_kit.Auth.Users.{LoginUser, find_user_for_login}
use backend_core_kit.Auth.Service.{
  AppError, auth_error, rate_limited_code, AuthResult, Crypto, AuthConfig, lift,
  invalid_credentials_error,
}
use backend_core_kit.Auth.Passwords.{
  PasswordHasher, PasswordInput, on_database, login_with_password, login_limited, login_found,
  login_verified,
}

-- Nobody has the e-mail, or the password is not the user's.
unfoldable pub is_wrong : PasswordHasher → PasswordInput → Option LoginUser → Bool
is_wrong hasher input none = true
is_wrong hasher input (some f) = not (hasher.verify f.password_hash input.password)

allowed-ok : (r : Result ℕ (Unit {0})) → is_allowed r ≡ true → r ≡ ok tt
allowed-ok (ok done) h = refl
allowed-ok (err seconds) h = cc h

refused-err : (r : Result ℕ (Unit {0})) → is_allowed r ≡ false → (seconds : ℕ) × (r ≡ err seconds)
refused-err (ok done) h = cc h
refused-err (err seconds) h = (seconds, refl)

module _ (q : Queries) (crypto : Crypto) (config : AuthConfig) (hasher : PasswordHasher)
    (c : Counters LimiterKey same_limiter_key) (limits : RateLimitConfig) (dummy : ℕ)
    (context : ℕ → Option ℕ → LoginContext) where
  abbrev pub login : ℕ → PasswordInput → Db × c.Store → Result AppError AuthResult × (Db × c.Store)
  login token input state =
      login_with_password q crypto config hasher c true limits dummy context token input state

  -- n logins with the same input, one after another.
  pub attempts : ℕ → ℕ → PasswordInput → Db × c.Store → Db × c.Store
  attempts zero token input state = state
  attempts (suc n) token input state = (login token input (attempts n token input state)).1

  login-wrong :
      (token : ℕ) (input : PasswordInput) (found : Option LoginUser) (db : Db) (s : c.Store)
      → find_user_for_login q input.email db ≡ (ok found, db)
      → is_wrong hasher input found ≡ true
      → assert_allowed c true limits (context input.email input.ip_address) s ≡ ok tt
      → login token input (db, s) ≡ (
        err invalid_credentials_error,
        (db, record_failure c true limits (context input.email input.ip_address) s),
      )
  unfolding login_with_password login_limited login_found login_verified is_wrong
  login-wrong token input none db s reads wrong allowed = rw (allowed, reads) refl
  login-wrong token input (some f) db s reads wrong allowed = rw (allowed, reads) (ground arith)

  attempts-failures :
      (token n h : ℕ) (input : PasswordInput) (found : Option LoginUser) (db : Db) (s : c.Store)
      → context input.email input.ip_address ≡ ctx c limits h
      → 0 < limits.block_seconds
      → n ≤ limits.max_attempts
      → find_user_for_login q input.email db ≡ (ok found, db)
      → is_wrong hasher input found ≡ true
      → c.get s (email_failures h) ≡ none
      → c.get s (email_blocked h) ≡ none
      → attempts n token input (db, s) ≡ (db, failures c limits h n s)
  unfolding attempts failures
  attempts-failures token zero h input found db s same lasts fits reads wrong a b = refl
  attempts-failures token (suc n) h input found db s same lasts fits reads wrong a b =
      let before =
        attempts-failures token n h input found db s same lasts (omega arith) reads wrong a b in
      let open_still = assert_allowed-failures c limits h n s lasts a b in
      let allowed =
        allowed-ok (assert_allowed c true limits (ctx c limits h) (failures c limits h n s))
          (open_still ∙ ground arith) in
      ap (λ st. (login token input st).1) before
      ∙ ap (λ r. r.1)
          (login-wrong token input found db (failures c limits h n s) reads wrong
            (ap (λ x. assert_allowed c true limits x (failures c limits h n s)) same ∙ allowed))
      ∙ ap (λ x. (db, record_failure c true limits x (failures c limits h n s))) same

  login-limit :
      (token h : ℕ) (input : PasswordInput) (db : Db) (s : c.Store) (limit : Result ℕ (Unit {0}))
      → context input.email input.ip_address ≡ ctx c limits h
      → assert_allowed c true limits (ctx c limits h) s ≡ limit
      → login token input (db, s)
        ≡ login_limited q crypto config hasher c true limits dummy context token input
            (context input.email input.ip_address)
            limit
            (db, s)
  unfolding login_with_password
  login-limit token h input db s limit same e =
      ap
        (λ x.
          login_limited q crypto config hasher c true limits dummy context token input
            (context input.email input.ip_address) x (db, s))
        (ap (λ x. assert_allowed c true limits x s) same ∙ e)

-- From a store without a count or a block for an e-mail, with nothing expiring and no address given:
-- after n logins with a wrong password, n being at most the configured limit and that at least 1, a
-- login with any password is refused with the limiter's error and changes nothing if n is the limit,
-- and is checked against the stored hash if n is below it.
pub login_with_password-lockout :
    (q : Queries) (crypto : Crypto) (config : AuthConfig) (hasher : PasswordHasher)
    (c : Counters LimiterKey same_limiter_key) (limits : RateLimitConfig) (dummy : ℕ)
    (context : ℕ → Option ℕ → LoginContext) (token n h : ℕ) (input next : PasswordInput)
    (found : Option LoginUser) (db : Db) (s : c.Store)
    → context input.email input.ip_address ≡ ctx c limits h
    → context next.email next.ip_address ≡ ctx c limits h
    → 0 < limits.block_seconds
    → 0 < limits.max_attempts
    → n ≤ limits.max_attempts
    → find_user_for_login q input.email db ≡ (ok found, db)
    → is_wrong hasher input found ≡ true
    → c.get s (email_failures h) ≡ none
    → c.get s (email_blocked h) ≡ none
    → let after = attempts q crypto config hasher c limits dummy context n token input (db, s) in
      let answer = login q crypto config hasher c limits dummy context token next after in
      (n ≡ limits.max_attempts → answer ≡ (err (auth_error 429 rate_limited_code), after))
      × (n < limits.max_attempts
          → answer
            ≡ login_found q crypto config hasher c true limits dummy context token next
                (context next.email next.ip_address)
                (on_database q crypto config hasher c true limits dummy context
                  (lift (find_user_for_login q next.email))
                  after))
unfolding login_limited
login_with_password-lockout q crypto config hasher c limits dummy context token n h input next found
      db s same same' lasts positive fits reads wrong a b =
    let ran =
      attempts-failures q crypto config hasher c limits dummy context token n h input found db s
        same lasts fits reads wrong a b in
    let limit = assert_allowed c true limits (ctx c limits h) (failures c limits h n s) in
    let outcome = assert_allowed-failures c limits h n s lasts a b in
    let answered = login-limit q crypto config hasher c limits dummy context token h next db in
    rw ran (
      (λ full.
          let (seconds, refused) = refused-err limit (outcome ∙ ground arith) in
          answered (failures c limits h n s) (err seconds) same' refused),
      (λ below.
          answered (failures c limits h n s) (ok tt) same'
            (allowed-ok limit (outcome ∙ ground arith))),
    )
