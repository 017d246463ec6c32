-- ===== src/Auth/Tokens/Guards.antt =====
-- What the services refuse, and what a confirmed reset does.
use backend_core_kit.Prelude.{
  ℕ, ◌==◌, ◌≡◌, ◌≤◌, ◌⊎◌, refl, sym, ◌∙◌, ap, subst, arith, none, some, Text, length, ltb, find?,
  Bool-cases, inl, inr,
}
use backend_core_kit.Db.{Db, User, deleted, PushPlatform, Result, ok, err}
use backend_core_kit.Db.Queries.{Queries, IsSql}
use backend_core_kit.Auth.Users.{find_user_by_id}
use backend_core_kit.Auth.Credentials.{
  ResetPasswordResult, reset_done, token_invalid, token_expired, reset_password_by_token_hash,
}
use backend_core_kit.Auth.Credentials.Reset.{IsReset, reset_password_by_token_hash-IsReset}
use backend_core_kit.Auth.Service.{AppError, auth_error, unauthorized, AuthConfig, lift}
use backend_core_kit.Auth.Lifecycle.Issue.{bind-ok, lift_result-ok}
use backend_core_kit.Auth.Passwords.{PasswordHasher, assert_password_policy}
use backend_core_kit.Auth.Tokens.{
  assert_auth_user_is_active, answer_reset, upsert_my_push_token, revoke_my_push_token,
  revoke_my_session, confirm_password_reset,
}

-- The user is not stored, or is deleted.
abbrev pub IsGone : ℕ → Db → Type 0
IsGone user_id db =
    (find? (λ u. u.id == user_id) db.users ≡ none)
    ⊎ ((u : User) × (find? (λ r. r.id == user_id) db.users ≡ some u) × (u.status ≡ deleted))

abbrev refusal : {A : Type 0} → Db → Result AppError A × Db
refusal db = (err (auth_error 401 unauthorized), db)

assert_active-IsGone :
    (q : Queries)
    → IsSql q
    → (hash_token : ℕ → ℕ) (user_id : ℕ) (db : Db) → IsGone user_id db
    → assert_auth_user_is_active q hash_token user_id db ≡ refusal db
unfolding assert_auth_user_is_active find_user_by_id
assert_active-IsGone q sql hash_token user_id db (inl missing) =
    rw (sql.find_unique_lem User (λ u. u.id == user_id) db.users, missing) refl
assert_active-IsGone q sql hash_token user_id db (inr (u, found, gone)) =
    rw (sql.find_unique_lem User (λ u. u.id == user_id) db.users, found) (ground arith)

-- A user who is not stored, or who is deleted, is refused with the unauthorized error by the three
-- services on push tokens and on a session of the user, and the database is left as it was.
pub revoke_my_session-IsGone :
    (q : Queries)
    → IsSql q
    → (hash_token : ℕ → ℕ) (user_id session_id : ℕ) (platform : PushPlatform) (token now : ℕ)
      (db : Db)
    → IsGone user_id db
    → (revoke_my_session q hash_token user_id session_id now db ≡ refusal db)
      × (upsert_my_push_token q hash_token user_id session_id platform token now db ≡ refusal db)
      × (revoke_my_push_token q hash_token user_id session_id now db ≡ refusal db)
unfolding revoke_my_session upsert_my_push_token revoke_my_push_token
revoke_my_session-IsGone q sql hash_token user_id session_id platform token now db gone =
    rw (assert_active-IsGone q sql hash_token user_id db gone) (refl, refl, refl)

answer_reset-ok :
    (r : ResetPasswordResult) (db : Db)
    → (answer_reset r db).0 ≡ ok tt
    → (user_id : ℕ) × (r ≡ reset_done user_id) × ((answer_reset r db).1 ≡ db)
answer_reset-ok (reset_done user_id) db h = (user_id, refl, refl)
answer_reset-ok token_invalid db h = cc h
answer_reset-ok token_expired db h = cc h

-- A confirmed reset has set a password that is long enough for some user, of whom no open session, no
-- unrevoked refresh token and no usable reset token is left.
pub confirm_password_reset-IsReset :
    (q : Queries)
    → IsSql q
    → (hash_token : ℕ → ℕ) (hasher : PasswordHasher) (config : AuthConfig) (salt token : ℕ)
      (new_password : Text) (now : ℕ) (db : Db)
    → let after =
        confirm_password_reset q hash_token hasher config salt token new_password now db in
      after.0 ≡ ok tt
      → (config.password_min_length ≤ length new_password)
        × ((user_id : ℕ) × IsReset user_id (hasher.hash salt new_password) after.1)
unfolding confirm_password_reset assert_password_policy
confirm_password_reset-IsReset q sql hash_token hasher config salt token new_password now db =
    let call =
      reset_password_by_token_hash q (hash_token token) (hasher.hash salt new_password) now in
    elim (Bool-cases (ltb (length new_password) config.password_min_length)) [
      | inl short ↦ rw short (λ h. cc h)
      | inr long_enough ↦ rw long_enough (λ h.
          let (r, e, h', same) = bind-ok (lift call db) answer_reset tt h in
          let (user_id, is_done, kept) = answer_reset-ok r (lift call db).1 h' in
          let (e', same') = lift_result-ok (call db) r e in
          let after = ap (λ x. x.1) same ∙ kept ∙ same' in
          (
            ground arith,
            (
              user_id,
              subst (IsReset user_id (hasher.hash salt new_password)) (sym after) (
                  reset_password_by_token_hash-IsReset q sql (hash_token token)
                    (hasher.hash salt new_password) now user_id db (e' ∙ ap (λ x. ok x) is_done)),
            ),
          ))
    ]
