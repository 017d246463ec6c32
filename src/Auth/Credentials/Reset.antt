-- ===== src/Auth/Credentials/Reset.antt =====
-- A password reset: it uses its token up, and leaves nothing of the user's sessions to be used.
use backend_core_kit.Prelude.{
  ℕ, ◌==◌, ◌≡◌, ◌∙◌, ap, arith, Bool, true, false, ◌&&◌, some, none, is_null, any, find?,
  Option-cases, inl, inr, any-update_where, any-update_where_twice, any-update_where_of_any,
  any-append_one, update_where, ◌<◌,
}
use backend_core_kit.Db.{Db, ok, Session, PasswordCredential, PasswordResetToken}
use backend_core_kit.Db.Queries.{Queries, IsSql, memory-eq}
use backend_core_kit.Db.Retry.{with_transaction_retry-ok, is_retryable_transaction_error}
use backend_core_kit.Auth.RefreshTokens.{token_revoked}
use backend_core_kit.Auth.Sessions.{revoked_and_cleared}
use backend_core_kit.Auth.Credentials.{
  reset_password_by_token_hash, reset_password, reset_found, use_reset_token, revoke_all_of_user,
  session_of_user, reset_done,
}

-- A session of the user that is not revoked.
abbrev pub is_open : ℕ → Session → Bool
is_open user_id s = s.user_id == user_id && is_null s.revoked_at

-- A reset token of the user that could still be used.
abbrev pub is_usable_token : ℕ → PasswordResetToken → Bool
is_usable_token user_id t = t.user_id == user_id && is_null t.used_at && is_null t.revoked_at

abbrev pub has_password : ℕ → ℕ → PasswordCredential → Bool
has_password user_id hash c = c.user_id == user_id && c.password_hash == hash

-- No open session, no unrevoked refresh token in a session, no usable reset token, and the password.
abbrev pub IsReset : ℕ → ℕ → Db → Type 0
IsReset user_id hash db =
    (any (is_open user_id) db.sessions ≡ false)
    × (any (λ t. is_null t.revoked_at && session_of_user db.sessions user_id t) db.refresh_tokens
        ≡ false)
    × (any (is_usable_token user_id) db.reset_tokens ≡ false)
    × (any (has_password user_id hash) db.credentials ≡ true)

-- The user whose password was set is the owner of the token.
use_reset_token-owner :
    (q : Queries)
    → IsSql q
    → (t : PasswordResetToken) (hash now : ℕ) (user_id : ℕ) (db : Db)
    → (use_reset_token q t hash now db).0 ≡ ok (reset_done user_id)
    → user_id ≡ t.user_id
unfolding use_reset_token revoke_all_of_user
use_reset_token-owner q sql t hash now user_id db = rw (← memory-eq q sql) (λ h. ground arith)

use_reset_token-IsReset :
    (q : Queries)
    → IsSql q
    → (t : PasswordResetToken) (hash now : ℕ) (db : Db)
    → (use_reset_token q t hash now db).0 ≡ ok (reset_done t.user_id)
    → IsReset t.user_id hash (use_reset_token q t hash now db).1
unfolding use_reset_token revoke_all_of_user
use_reset_token-IsReset q sql t hash now db = rw (← memory-eq q sql) (λ h.
    let uid = t.user_id in
    let mine = λ (c : PasswordCredential). c.user_id == uid in
    let sessions =
      update_where (λ (s : Session). s.user_id == uid && is_null s.revoked_at)
        (revoked_and_cleared now) db.sessions in
    ground (
      arith,
      any-update_where (is_open uid) (λ s. s.user_id == uid && is_null s.revoked_at)
          (revoked_and_cleared now) db.sessions (λ x. ground arith),
      any-update_where (λ r. is_null r.revoked_at && session_of_user sessions uid r)
          (λ r. is_null r.revoked_at && session_of_user sessions uid r) (token_revoked now)
          db.refresh_tokens (λ x. ground arith),
      any-update_where_twice (is_usable_token uid)
          (λ r. r.id == t.id && is_null r.used_at && is_null r.revoked_at)
          (λ r. record r { used_at = some now })
          (λ r. r.user_id == uid && is_null r.used_at && is_null r.revoked_at)
          (λ r. record r { revoked_at = some now }) db.reset_tokens (λ x. ground arith),
      any-update_where_of_any (has_password uid hash) mine (λ c. record c { password_hash = hash })
          mine db.credentials (λ x m. ground arith),
      any-append_one (has_password uid hash) db.credentials
          (record { user_id = uid; password_hash = hash }),
    ))

reset_password-IsReset :
    (q : Queries)
    → IsSql q
    → (token_hash hash now user_id : ℕ) (db : Db)
    → (reset_password q token_hash hash now db).0 ≡ ok (reset_done user_id)
    → IsReset user_id hash (reset_password q token_hash hash now db).1
unfolding reset_password reset_found
reset_password-IsReset q sql token_hash hash now user_id db h =
    elim (Option-cases
      (q.find_unique PasswordResetToken (λ t. t.token_hash == token_hash) db.reset_tokens)) [
        | inl missing ↦ ground arith
        | inr (t, found) ↦
            let used : (use_reset_token q t hash now db).0 ≡ ok (reset_done user_id) =
              ground arith in
            let owner = use_reset_token-owner q sql t hash now user_id db used in
            let same : (reset_password q token_hash hash now db).1
                ≡ (use_reset_token q t hash now db).1 =
              ground arith in
            rw (owner, same)
              (use_reset_token-IsReset q sql t hash now db
                (used ∙ ap (λ u. ok (reset_done u)) owner))
      ]

-- When a reset succeeds, the user has the new password, no session of the user is unrevoked, no
-- refresh token in a session of the user is unrevoked, and no reset token of the user is usable.
pub reset_password_by_token_hash-IsReset :
    (q : Queries)
    → IsSql q
    → (token_hash hash now user_id : ℕ) (db : Db)
    → (reset_password_by_token_hash q token_hash hash now db).0 ≡ ok (reset_done user_id)
    → IsReset user_id hash (reset_password_by_token_hash q token_hash hash now db).1
unfolding reset_password_by_token_hash
reset_password_by_token_hash-IsReset q sql token_hash hash now user_id db h = ground (
  arith,
  with_transaction_retry-ok q sql 3 is_retryable_transaction_error
      (reset_password q token_hash hash now) db (reset_done user_id) h,
  reset_password-IsReset q sql token_hash hash now user_id db,
)

-- What a stored token must be for a reset to succeed.
pub record IsAccepted (t : PasswordResetToken) (now user_id : ℕ) : Type 0 where
  pub unused : t.used_at ≡ none
  pub unrevoked : t.revoked_at ≡ none
  pub in_time : now < t.expires_at
  pub owned : t.user_id ≡ user_id

-- A reset succeeds only by a stored token of that hash that is unused, unrevoked, not expired and of
-- the user whose password it sets.
pub reset_password_by_token_hash-IsAccepted :
    (q : Queries)
    → IsSql q
    → (token_hash hash now user_id : ℕ) (db : Db)
    → (reset_password_by_token_hash q token_hash hash now db).0 ≡ ok (reset_done user_id)
    → (t : PasswordResetToken) × (find? (λ r. r.token_hash == token_hash) db.reset_tokens ≡ some t)
      × IsAccepted t now user_id
unfolding reset_password_by_token_hash reset_password reset_found
reset_password_by_token_hash-IsAccepted q sql token_hash hash now user_id db h =
    let ran =
      with_transaction_retry-ok q sql 3 is_retryable_transaction_error
        (reset_password q token_hash hash now) db (reset_done user_id) h in
    let key =
      sql.find_unique_lem PasswordResetToken (λ t. t.token_hash == token_hash) db.reset_tokens in
    elim (Option-cases
      (q.find_unique PasswordResetToken (λ t. t.token_hash == token_hash) db.reset_tokens)) [
        | inl missing ↦ absurd (ground arith)
        | inr (t, found) ↦ (
          t,
          ground (arith, key),
          ground (arith, use_reset_token-owner q sql t hash now user_id db),
        )
      ]
