-- ===== src/Auth/Passwords/Change.antt =====
-- A change of password by its owner.
use backend_core_kit.Prelude.{
  ℕ, ◌==◌, ◌≡◌, ◌≤◌, ◌∙◌, ap, arith, true, false, Option, none, some, length, text_eq, Bool-cases,
  inl, inr, ltb,
}
use backend_core_kit.Db.{Db, PasswordCredential, ok}
use backend_core_kit.Db.Queries.{Queries, IsSql}
use backend_core_kit.Auth.Credentials.{
  find_password_credential, ChangePasswordResult, changed,
  change_password_and_revoke_other_sessions,
}
use backend_core_kit.Auth.Credentials.Change.{
  IsChanged, change_password_and_revoke_other_sessions-IsChanged,
}
use backend_core_kit.Auth.Lifecycle.Issue.{bind-ok, lift_result-ok}
use backend_core_kit.Auth.Service.{Crypto, AuthConfig, lift}
use backend_core_kit.Auth.Passwords.{
  PasswordHasher, ChangePasswordInput, assert_password_policy, answer_change, change_verified,
  change_existing, change_password,
}

-- What a change of password that succeeded was let through by, and what it did.
pub record IsChangedByOwner (config : AuthConfig) (hasher : PasswordHasher) (salt : ℕ)
    (input : ChangePasswordInput) (before after : Db) : Type 0 where
  pub long_enough : config.password_min_length ≤ length input.new_password
  pub different : text_eq input.current_password input.new_password ≡ false
  pub current_hash : ℕ
  pub confirmed : hasher.verify current_hash input.current_password ≡ true
  pub done :
      IsChanged input.user_id input.session_id current_hash
        (hasher.hash salt input.new_password)
        before
        after

module _ (q : Queries) (sql : IsSql q) (crypto : Crypto) (config : AuthConfig)
    (hasher : PasswordHasher) where
  answer-changed :
      (r : ChangePasswordResult) (db : Db)
      → (answer_change r db).0 ≡ ok tt
      → (r ≡ changed) × ((answer_change r db).1 ≡ db)
  answer-changed r db h = ground arith

  change_verified-IsChanged :
      (salt now current_hash : ℕ) (input : ChangePasswordInput) (db : Db)
      → (change_verified q crypto config hasher salt now input current_hash db).0 ≡ ok tt
      → IsChanged input.user_id input.session_id current_hash
          (hasher.hash salt input.new_password)
          db
          (change_verified q crypto config hasher salt now input current_hash db).1
  unfolding change_verified
  change_verified-IsChanged salt now current_hash input db h =
      let m =
        change_password_and_revoke_other_sessions q input.user_id input.session_id current_hash
          (hasher.hash salt input.new_password) now in
      let (r, e, h', same) = bind-ok (lift m db) answer_change tt h in
      let (is_changed, kept) = answer-changed r (lift m db).1 h' in
      let (e', same') = lift_result-ok (m db) r e in
      let after : (change_verified q crypto config hasher salt now input current_hash db).1
          ≡ (m db).1 =
        ap (λ x. x.1) same ∙ kept ∙ same' in
      rw after (
        change_password_and_revoke_other_sessions-IsChanged q sql input.user_id input.session_id
          current_hash (hasher.hash salt input.new_password) now db
          (e' ∙ ap (λ x. ok x) is_changed))

  change_existing-IsChangedByOwner :
      (salt now : ℕ) (input : ChangePasswordInput) (found : Option ℕ) (db : Db)
      → config.password_min_length ≤ length input.new_password
      → text_eq input.current_password input.new_password ≡ false
      → (change_existing q crypto config hasher salt now input found db).0 ≡ ok tt
      → IsChangedByOwner config hasher salt input db
          (change_existing q crypto config hasher salt now input found db).1
  unfolding change_existing
  change_existing-IsChangedByOwner salt now input none db long_enough different = λ h. cc h
  change_existing-IsChangedByOwner salt now input (some current_hash) db long_enough different =
      elim (Bool-cases (hasher.verify current_hash input.current_password)) [
        | inr wrong ↦ rw wrong (λ h. cc h)
        | inl confirmed ↦ rw confirmed (λ h. record {
          long_enough = long_enough;
          different = different;
          current_hash = current_hash;
          confirmed = confirmed;
          done = change_verified-IsChanged salt now current_hash input db h;
        })
      ]

-- A change of password succeeds only with a new password that is long enough and another than the
-- current one, which verifies the stored hash; then the hash of the new password is stored, and the
-- other sessions of the user are revoked with their refresh tokens.
pub change_password-IsChangedByOwner :
    (q : Queries)
    → IsSql q
    → (crypto : Crypto) (config : AuthConfig) (hasher : PasswordHasher) (salt now : ℕ)
      (input : ChangePasswordInput) (db : Db)
    → (change_password q crypto config hasher salt now input db).0 ≡ ok tt
    → IsChangedByOwner config hasher salt input db
        (change_password q crypto config hasher salt now input db).1
unfolding change_password assert_password_policy find_password_credential
change_password-IsChangedByOwner q sql crypto config hasher salt now input db =
    elim (Bool-cases (ltb (length input.new_password) config.password_min_length)) [
      | inl short ↦ rw short (λ h. cc h)
      | inr long_enough ↦
          rw long_enough (elim (Bool-cases (text_eq input.current_password input.new_password)) [
            | inl same ↦ rw same (λ h. cc h)
            | inr different ↦ rw different (
                change_existing-IsChangedByOwner q sql crypto config hasher salt now input
                  (elim (q.find_unique PasswordCredential (λ c. c.user_id == input.user_id)
                    db.credentials) [ none ↦ none | some c ↦ some c.password_hash ])
                  db (ground arith) different)
          ])
    ]
