-- ===== src/Auth/RefreshTokens/Quiet.antt =====
-- Which rotations write to the database.
use backend_core_kit.Prelude.{
  ℕ, Bool, true, ◌==◌, ◌≡◌, ◌⊎◌, refl, inl, inr, ◌∙◌, Option-cases, Bool-cases, is_some,
}
use backend_core_kit.Db.{Db, DbError, refresh_token_already_used, Result, ok, err, RefreshToken}
use backend_core_kit.Db.Queries.{Queries, IsSql, transaction-err}
use backend_core_kit.Db.Client.{bind_result, pure}
use backend_core_kit.Auth.RefreshTokens.{
  revoke_session_and_tokens, exchange, rotation_outcome, rotate_found, rotate_refresh_token,
  token_with_session, TokenWithSession, SessionSeenMetadata, RefreshRotationResult,
  revoked_or_reused, rotated, is_expired, is_used, revoke_session_by_refresh_token_hash,
}

pub revoke_session_and_tokens-err :
    (q : Queries)
    → IsSql q
    → (sid now : ℕ) (db : Db) (e : DbError) → (revoke_session_and_tokens q sid now db).0 ≡ err e
    → (revoke_session_and_tokens q sid now db).1 ≡ db
unfolding revoke_session_and_tokens
revoke_session_and_tokens-err q sql sid now db e h = transaction-err q sql _ 1 db e h

-- The answers that come with a write.
abbrev pub Writes : Result DbError RefreshRotationResult → Type 0
Writes (ok (rotated sid u exp)) = Unit
Writes (ok (revoked_or_reused sid uid)) = Unit
Writes _ = ⊥

-- The database after the call: unwritten by it.
abbrev pub Unwritten : Db → Db → Db → Type 0
Unwritten before raced after = (after ≡ before) ⊎ (after ≡ raced)

-- Reporting reuse either writes or leaves the database as it was.
report-quiet :
    (q : Queries) (sid uid : ℕ) (raced : Db) (r : Result DbError (Unit {0}) × Db)
    → ((e : DbError) → r.0 ≡ err e → r.1 ≡ raced)
    → let after = bind_result r (λ _. pure (revoked_or_reused sid uid)) in
      Writes after.0 ⊎ (after.1 ≡ raced)
report-quiet q sid uid raced (ok a, db) h = inl tt
report-quiet q sid uid raced (err e, db) h = inr (h e refl)

rotation_outcome-quiet :
    (q : Queries)
    → IsSql q
    → (found : TokenWithSession) (now : ℕ) (raced : Db) (r : Result DbError (Unit {0}) × Db)
    → ((e : DbError) → r.0 ≡ err e → r.1 ≡ raced)
    → Writes (rotation_outcome q found now r).0 ⊎ ((rotation_outcome q found now r).1 ≡ raced)
unfolding rotation_outcome
rotation_outcome-quiet q sql found now raced (ok done, db) h = inl tt
rotation_outcome-quiet q sql found now raced (err refresh_token_already_used, db) h =
    let sid = found.session.id in
    report-quiet q sid found.session.user_id raced (revoke_session_and_tokens q sid now db) (λ e k.
      revoke_session_and_tokens-err q sql sid now db e k ∙ h refresh_token_already_used refl)
rotation_outcome-quiet q sql found now raced (err e, db) h = inr (h e refl)

weaken : {W A B : Type 0} → W ⊎ B → W ⊎ (A ⊎ B)
weaken (inl w) = inl w
weaken (inr b) = inr (inr b)

weaken_left : {W A B : Type 0} → W ⊎ A → W ⊎ (A ⊎ B)
weaken_left (inl w) = inl w
weaken_left (inr a) = inr (inl a)

rotate_found-quiet :
    (q : Queries)
    → IsSql q
    → (others : Db → Db) (found : TokenWithSession) (new_hash now : ℕ) (seen : SessionSeenMetadata)
      (db : Db)
    → let r = rotate_found q others found new_hash now seen db in
      Writes r.0 ⊎ Unwritten db (others db) r.1
unfolding rotate_found
rotate_found-quiet q sql others found new_hash now seen db =
    elim (Bool-cases (is_some found.session.revoked_at)) [
      | inl revoked ↦ rw revoked (inr (inl refl))
      | inr open_still ↦ elim (Bool-cases (is_expired found now)) [
        | inl late ↦ rw (open_still, late) (inr (inl refl))
        | inr in_time ↦ elim (Bool-cases (is_used found)) [
          | inl used ↦
              rw (open_still, in_time, used)
                (weaken_left (
                  report-quiet q found.session.id found.session.user_id db
                    (revoke_session_and_tokens q found.session.id now db)
                    (revoke_session_and_tokens-err q sql found.session.id now db)))
          | inr unused ↦
              rw (open_still, in_time, unused)
                (weaken (
                  rotation_outcome-quiet q sql found now (others db) _ (
                    transaction-err q sql (exchange q found.token new_hash now seen) 1
                      (others db))))
        ]
      ]
    ]

-- A rotation that answers neither `rotated` nor `revoked_or_reused` has written nothing.
pub rotate_refresh_token-quiet :
    (q : Queries)
    → IsSql q
    → (others : Db → Db) (token_hash new_hash now : ℕ) (seen : SessionSeenMetadata) (db : Db)
    → let r = rotate_refresh_token q others token_hash new_hash now seen db in
      Writes r.0 ⊎ Unwritten db (others db) r.1
unfolding rotate_refresh_token
rotate_refresh_token-quiet q sql others token_hash new_hash now seen db =
    elim (Option-cases (token_with_session q db token_hash)) [
      | inl missing ↦ rw missing (inr (inl refl))
      | inr (found, e) ↦ rw e (rotate_found-quiet q sql others found new_hash now seen db)
    ]

reported-err :
    (base : Db) (r : Result DbError (Unit {0}) × Db) (b : Bool)
    → ((e : DbError) → r.0 ≡ err e → r.1 ≡ base)
    → (e : DbError) → (bind_result r (λ _. pure b)).0 ≡ err e
    → (bind_result r (λ _. pure b)).1 ≡ base
reported-err base (ok a, db) b h e k = cc k
reported-err base (err f, db) b h e k = h f refl

pub revoke_session_by_refresh_token_hash-err :
    (q : Queries)
    → IsSql q
    → (token_hash now : ℕ) (db : Db) (e : DbError)
    → (revoke_session_by_refresh_token_hash q token_hash now db).0 ≡ err e
    → (revoke_session_by_refresh_token_hash q token_hash now db).1 ≡ db
unfolding revoke_session_by_refresh_token_hash
revoke_session_by_refresh_token_hash-err q sql token_hash now db e =
    elim (Option-cases
      (q.find_unique RefreshToken (λ t. t.token_hash == token_hash) db.refresh_tokens)) [
        | inl missing ↦ rw missing (λ h. cc)
        | inr (t, found) ↦ rw found (
            reported-err db (revoke_session_and_tokens q t.session_id now db) true
              (revoke_session_and_tokens-err q sql t.session_id now db) e)
      ]
