-- ===== src/Auth/Users/Verification.antt =====
-- Verification of an e-mail by a token: it happens once, and holds from then on.
use backend_core_kit.Prelude.{
  ℕ, ◌==◌, ◌≡◌, subst, ◌<◌, ap, sym, ◌∙◌, arith, Bool, true, false, ◌&&◌, none, some, any, find?,
  any-update_where, any-update_where_of_any, is_null, column_is, Option-cases, inl, inr,
  any_of_count, ==_refl,
}
use backend_core_kit.Db.{Db, User, EmailVerificationToken, ok}
use backend_core_kit.Db.Queries.{Queries, IsSql, memory-eq}
use backend_core_kit.Db.Retry.{with_transaction_retry-ok, is_retryable_transaction_error}
use backend_core_kit.Auth.Users.{
  verified, mark_verification_token, use_verification_token, verify_found, verify_token, verify_tx,
  verify_email_by_token_hash,
}

-- The user's e-mail is verified at this time.
abbrev pub is_verified_at : ℕ → ℕ → User → Bool
is_verified_at user_id now u = u.id == user_id && column_is u.email_verified_at now

-- The token of this id, if it is not used.
abbrev pub is_unused : ℕ → EmailVerificationToken → Bool
is_unused id t = t.id == id && is_null t.used_at

-- A verification that succeeded: the token it was done with was stored, unused, unrevoked and in
-- time, its user's e-mail is verified as of now, and the token is used.
pub record IsVerified (token_hash now : ℕ) (before after : Db) : Type 0 where
  pub token : EmailVerificationToken
  pub stored : find? (λ t. t.token_hash == token_hash) before.verification_tokens ≡ some token
  pub unused : token.used_at ≡ none
  pub unrevoked : token.revoked_at ≡ none
  pub in_time : now < token.expires_at
  pub marked : any (is_unused token.id) after.verification_tokens ≡ false
  pub verified_now : any (is_verified_at token.user_id now) after.users ≡ true

use_verification_token-effect :
    (q : Queries)
    → IsSql q
    → (t : EmailVerificationToken) (now : ℕ) (db : Db)
    → (use_verification_token q t now db).0 ≡ ok verified
    → let after = (use_verification_token q t now db).1 in
      (any (is_unused t.id) after.verification_tokens ≡ false)
      × (any (is_verified_at t.user_id now) after.users ≡ true)
unfolding use_verification_token mark_verification_token
use_verification_token-effect q sql t now db = rw (← memory-eq q sql) (λ h.
    let fresh = λ (u : User). u.id == t.user_id && is_null u.email_verified_at in
    (
      any-update_where (is_unused t.id) (is_unused t.id) (λ r. record r { used_at = some now })
          db.verification_tokens (λ x. ground arith),
      any-update_where_of_any (is_verified_at t.user_id now) fresh
          (λ u. record u { email_verified_at = some now }) fresh db.users
          (λ x m. ground (arith, ==_refl now)) (any_of_count fresh db.users (ground arith)),
    ))

verify_found-ok :
    (q : Queries) (t : EmailVerificationToken) (u : User) (now : ℕ) (db : Db)
    → (verify_found q t u now db).0 ≡ ok verified
    → (t.used_at ≡ none)
      × (t.revoked_at ≡ none)
      × (now < t.expires_at)
      × (verify_found q t u now db ≡ use_verification_token q t now db)
unfolding verify_found mark_verification_token
verify_found-ok q t u now db h = ground arith

verify_tx-IsVerified :
    (q : Queries)
    → IsSql q
    → (token_hash now : ℕ) (db : Db) → (verify_tx q token_hash now db).0 ≡ ok verified
    → IsVerified token_hash now db (verify_tx q token_hash now db).1
unfolding verify_tx verify_token
verify_tx-IsVerified q sql token_hash now db =
    let key = λ (t : EmailVerificationToken). t.token_hash == token_hash in
    rw (sql.find_unique_lem EmailVerificationToken key db.verification_tokens)
      (elim (Option-cases (find? key db.verification_tokens)) [
        | inl missing ↦ rw missing (λ h. cc h)
        | inr (t, found) ↦
            rw (found, sql.find_unique_lem User (λ u. u.id == t.user_id) db.users)
              (elim (Option-cases (find? (λ u. u.id == t.user_id) db.users)) [
                | inl orphan ↦ rw orphan (λ h. cc h)
                | inr (u, owner) ↦ rw owner (λ h.
                    let (unused, unrevoked, in_time, same) = verify_found-ok q t u now db h in
                    let effect =
                      use_verification_token-effect q sql t now db (ap (λ x. x.0) (sym same) ∙ h) in
                    rw same (record {
                      token = t;
                      stored = found;
                      unused = unused;
                      unrevoked = unrevoked;
                      in_time = in_time;
                      marked = effect.0;
                      verified_now = effect.1;
                    }))
              ])
      ])

-- An e-mail is verified only by a stored token of the given hash that is unused, unrevoked and not
-- expired; then the token is used and its user's e-mail is verified as of now.
pub verify_email_by_token_hash-IsVerified :
    (q : Queries)
    → IsSql q
    → (token_hash now : ℕ) (db : Db)
    → (verify_email_by_token_hash q token_hash now db).0 ≡ ok verified
    → IsVerified token_hash now db (verify_email_by_token_hash q token_hash now db).1
unfolding verify_email_by_token_hash
verify_email_by_token_hash-IsVerified q sql token_hash now db h =
    let ran =
      with_transaction_retry-ok q sql 3 is_retryable_transaction_error (verify_tx q token_hash now)
        db verified h in
    subst (IsVerified token_hash now db) (ap (λ x. x.1) ran)
      (verify_tx-IsVerified q sql token_hash now db (ap (λ x. x.0) ran))
