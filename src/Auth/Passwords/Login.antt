-- ===== src/Auth/Passwords/Login.antt =====
-- Who is let in by a login, and what a refused login leaves behind.
use backend_core_kit.Prelude.{
  ℕ, ◌==◌, ◌≡◌, ◌≢◌, refl, sym, ◌∙◌, ap, subst, arith, Bool, true, Option, none, some, List, find?,
  Option-cases, Bool-cases, inl, inr,
}
use backend_core_kit.Db.{Db, User, PasswordCredential, deleted, suspended, Result, ok, err}
use backend_core_kit.Db.Queries.{Queries, IsSql}
use backend_core_kit.Redis.{Counters}
use backend_core_kit.RateLimit.{
  LimiterKey, same_limiter_key, RateLimitConfig, LoginContext, assert_allowed, record_success,
}
use backend_core_kit.Auth.RefreshTokens.{AuthUserRecord, to_auth_user_record}
use backend_core_kit.Auth.Users.Registration.{
  create_user_with_password-found, create_user_with_password-active,
}
use backend_core_kit.Auth.Users.{
  AuthMethod, LoginUser, create_user_with_password, find_user_for_login, get_auth_methods,
}
use backend_core_kit.Auth.Service.{
  AuthResult, Crypto, AuthConfig, lift, assert_user_is_not_suspended,
}
use backend_core_kit.Auth.Lifecycle.{issue_tokens_for_new_session}
use backend_core_kit.Auth.Lifecycle.Issue.{bind-ok}
use backend_core_kit.Auth.Passwords.{
  PasswordHasher, PasswordInput, login_with_password, login_limited, login_found, login_verified,
  login_user, accept,
}

-- What a lookup for a login has found.
pub IsStoredLogin : ℕ → Db → Option LoginUser → Type 0
IsStoredLogin email db none = Unit
IsStoredLogin email db (some f) =
    (u : User) × (p : PasswordCredential) × (find? (λ x. x.email == email) db.users ≡ some u)
    × (find? (λ x. x.user_id == u.id) db.credentials ≡ some p)
    × (f.user ≡ to_auth_user_record u)
    × (f.password_hash ≡ p.password_hash)

-- The lookup never fails and changes nothing.
pub find_user_for_login-reads :
    (q : Queries)
    → IsSql q
    → (email : ℕ) (db : Db)
    → (found : Option LoginUser) × (find_user_for_login q email db ≡ (ok found, db))
      × IsStoredLogin email db found
unfolding find_user_for_login IsStoredLogin
find_user_for_login-reads q sql email db =
    let by_email = λ (u : User). u.email == email in
    rw (sql.find_unique_lem User by_email db.users) (elim (Option-cases (find? by_email db.users)) [
      | inl nobody ↦ rw nobody (none, refl, tt)
      | inr (u, stored) ↦
          let own = λ (p : PasswordCredential). p.user_id == u.id in
          rw (stored, sql.find_unique_lem PasswordCredential own db.credentials)
            (elim (Option-cases (find? own db.credentials)) [
              | inl unset ↦ rw unset (none, refl, tt)
              | inr (p, kept) ↦ rw kept (
                some (record { user = to_auth_user_record u; password_hash = p.password_hash }),
                refl,
                (u, p, stored, kept, refl, refl),
              )
            ])
    ])

-- A login that was answered with tokens: whose it was, and what it was let in by.
pub record IsLoggedIn (hasher : PasswordHasher) (c : Counters LimiterKey same_limiter_key)
    (enabled : Bool) (limits : RateLimitConfig) (ctx : LoginContext) (input : PasswordInput)
    (r : AuthResult) (db : Db) (s after : c.Store) : Type 0 where
  pub member : User
  pub stored : find? (λ u. u.email == input.email) db.users ≡ some member
  pub credential : PasswordCredential
  pub kept : find? (λ p. p.user_id == member.id) db.credentials ≡ some credential
  pub right : hasher.verify credential.password_hash input.password ≡ true
  pub not_deleted : member.status ≢ deleted
  pub not_suspended : member.status ≢ suspended
  pub allowed : assert_allowed c enabled limits ctx s ≡ ok tt
  pub counted : after ≡ record_success c enabled ctx s
  pub answered : r.user.id ≡ member.id

module _ (q : Queries) (sql : IsSql q) (crypto : Crypto) (config : AuthConfig)
    (hasher : PasswordHasher) (c : Counters LimiterKey same_limiter_key) (enabled : Bool)
    (limits : RateLimitConfig) (dummy : ℕ) (context : ℕ → Option ℕ → LoginContext) where
  issue-user :
      (token : ℕ) (a : AuthUserRecord) (methods : List AuthMethod) (input : PasswordInput)
      (r : AuthResult) (db : Db)
      → (issue_tokens_for_new_session q crypto config token a methods input.session db).0 ≡ ok r
      → r.user.id ≡ a.id
  unfolding issue_tokens_for_new_session
  issue-user token a methods input r db h = ground arith

  accept-user :
      (token : ℕ) (a : AuthUserRecord) (input : PasswordInput) (ctx : LoginContext) (r : AuthResult)
      (db : Db) (s : c.Store)
      → let after =
          accept q crypto config hasher c enabled limits dummy context token input ctx a (db, s) in
        after.0 ≡ ok r → (r.user.id ≡ a.id) × (after.1.1 ≡ record_success c enabled ctx s)
  unfolding accept
  accept-user token a input ctx r db s h =
      let issue = λ (methods : List AuthMethod).
        issue_tokens_for_new_session q crypto config token a methods input.session in
      let (methods, e, h', same) = bind-ok (lift (get_auth_methods q a.id) db) issue r h in
      (issue-user token a methods input r (lift (get_auth_methods q a.id) db).1 h', refl)

  login_user-ok :
      (token : ℕ) (a : AuthUserRecord) (input : PasswordInput) (ctx : LoginContext) (r : AuthResult)
      (db : Db) (s : c.Store)
      → let after =
          login_user q crypto config hasher c enabled limits dummy context token input ctx a
            (db, s) in
        after.0 ≡ ok r
        → (a.status ≢ deleted)
          × (a.status ≢ suspended)
          × (r.user.id ≡ a.id)
          × (after.1.1 ≡ record_success c enabled ctx s)
  unfolding login_user assert_user_is_not_suspended
  login_user-ok token a input ctx r db s h = ground (arith, accept-user token a input ctx r db s)

  login_limited-ok :
      (token : ℕ) (input : PasswordInput) (ctx : LoginContext) (r : AuthResult) (db : Db)
      (s : c.Store) (limit : Result ℕ (Unit {0}))
      → assert_allowed c enabled limits ctx s ≡ limit
      → let after =
          login_limited q crypto config hasher c enabled limits dummy context token input ctx limit
            (db, s) in
        after.0 ≡ ok r → IsLoggedIn hasher c enabled limits ctx input r db s after.1.1
  unfolding login_limited login_found login_verified IsStoredLogin
  login_limited-ok token input ctx r db s (err seconds) e = λ h. cc h
  login_limited-ok token input ctx r db s (ok done) e =
      let (found, reads, known) = find_user_for_login-reads q sql input.email db in
      rw reads (verified found known)
    where
      verified :
          (found : Option LoginUser)
          → IsStoredLogin input.email db found
          → let after =
              login_found q crypto config hasher c enabled limits dummy context token input ctx
                (ok found, (db, s)) in
            after.0 ≡ ok r → IsLoggedIn hasher c enabled limits ctx input r db s after.1.1
      verified none known = λ h. cc h
      verified (some f) (u, p, stored, kept, same_user, same_hash) =
          elim (Bool-cases (hasher.verify f.password_hash input.password)) [
            | inr wrong ↦ rw wrong (λ h. cc h)
            | inl right ↦ rw right (λ h.
                let (not_deleted, not_suspended, answered, counted) =
                  login_user-ok token f.user input ctx r db s h in
                record {
                  member = u;
                  stored = stored;
                  credential = p;
                  kept = kept;
                  right = ap (λ x. hasher.verify x input.password) (sym same_hash) ∙ right;
                  not_deleted = subst (λ x. x.status ≢ deleted) same_user not_deleted;
                  not_suspended = subst (λ x. x.status ≢ suspended) same_user not_suspended;
                  allowed = e;
                  counted = counted;
                  answered = answered ∙ ap (λ x. x.id) same_user;
                })
          ]

-- A login is answered with tokens only when the limiter allows it, for a stored user of the e-mail
-- who is neither deleted nor suspended and whose stored hash the password verifies; the answer is
-- that user's, and the limiter's store is the one after a success.
pub login_with_password-IsLoggedIn :
    (q : Queries)
    → IsSql q
    → (crypto : Crypto) (config : AuthConfig) (hasher : PasswordHasher)
      (c : Counters LimiterKey same_limiter_key) (enabled : Bool) (limits : RateLimitConfig)
      (dummy : ℕ) (context : ℕ → Option ℕ → LoginContext) (token : ℕ) (input : PasswordInput)
      (r : AuthResult) (db : Db) (s : c.Store)
    → let after =
        login_with_password q crypto config hasher c enabled limits dummy context token input
          (db, s) in
      after.0 ≡ ok r
      → IsLoggedIn hasher c enabled limits
          (context input.email input.ip_address)
          input
          r
          db
          s
          after.1.1
unfolding login_with_password
login_with_password-IsLoggedIn q sql crypto config hasher c enabled limits dummy context token input
      r db s =
    let ctx = context input.email input.ip_address in
    login_limited-ok q sql crypto config hasher c enabled limits dummy context token input ctx r db
      s (assert_allowed c enabled limits ctx s) refl

-- Who has registered with a password is let in by it: when the registration has succeeded and the
-- limiter allows it, a login with the same e-mail and password is accepted for the new user.
pub login_with_password-registered :
    (q : Queries)
    → IsSql q
    → (crypto : Crypto) (config : AuthConfig) (hasher : PasswordHasher)
      (c : Counters LimiterKey same_limiter_key) (enabled : Bool) (limits : RateLimitConfig)
      (dummy : ℕ) (context : ℕ → Option ℕ → LoginContext) (token salt : ℕ) (input : PasswordInput)
      (a : AuthUserRecord) (db : Db) (s : c.Store)
    → let registered =
        create_user_with_password q input.email (hasher.hash salt input.password) db in
      let ctx = context input.email input.ip_address in
      registered.0 ≡ ok a
      → assert_allowed c enabled limits ctx s ≡ ok tt
      → login_with_password q crypto config hasher c enabled limits dummy context token input
          (registered.1, s)
        ≡ accept q crypto config hasher c enabled limits dummy context token input ctx a
            (registered.1, s)
unfolding login_with_password login_limited login_found login_verified login_user
    assert_user_is_not_suspended
login_with_password-registered q sql crypto config hasher c enabled limits dummy context token salt
      input a db s made allowed =
    let hash = hasher.hash salt input.password in
    let after = (create_user_with_password q input.email hash db).1 in
    let (found, reads, known) = find_user_for_login-reads q sql input.email after in
    let stored = create_user_with_password-found q sql input.email hash a db made in
    let reads' : find_user_for_login q input.email after
        ≡ (ok (some (record { user = a; password_hash = hash })), after) =
      reads ∙ ap (λ o. (o, after)) (ap (λ r. r.0) (sym reads) ∙ stored) in
    let is_active = create_user_with_password-active q sql input.email hash a db made in
    rw (allowed, reads', hasher.verify-hash salt input.password, is_active) refl
