-- ===== src/Auth/Lifecycle/Refresh.antt =====
-- What a refresh request promises.
use backend_core_kit.Prelude.{
  ℕ, ◌≡◌, ◌≢◌, ◌⊎◌, arith, refl, Bool, some, inl, inr, Option-cases, Bool-cases, is_some,
}
use backend_core_kit.Db.{Db, DbError, Result, ok, err, suspended, deleted, status_eq}
use backend_core_kit.Db.Queries.{Queries, IsSql}
use backend_core_kit.Auth.RefreshTokens.{
  TokenWithSession, SessionSeenMetadata, RefreshRotationResult, AuthUserRecord, not_found, expired,
  session_revoked, rotated, revoked_or_reused, is_expired, is_used,
  revoke_session_by_refresh_token_hash, token_with_session, find_refresh_token_with_session,
}
use backend_core_kit.Auth.RefreshTokens.SingleUse.{IsExchangeable}
use backend_core_kit.Auth.RefreshTokens.Quiet.{
  Writes, Unwritten, rotate_refresh_token-quiet, revoke_session_by_refresh_token_hash-err,
}
use backend_core_kit.Auth.Service.{
  Crypto, AuthConfig, AppError, auth_error, refresh_token_reused, AuthResult, bind_service,
  lift_result, throw, assert_user_is_not_suspended,
}
use backend_core_kit.Auth.Lifecycle.{
  refresh, refresh_found, mint_and_rotate, answer_rotation, sign_access_token_for_user,
}

-- Whose tokens are renewed, and from what.
pub record IsRenewed (crypto : Crypto) (config : AuthConfig) (found : TokenWithSession)
    (next now : ℕ) (r : AuthResult) : Type 0 where
  pub exchangeable : IsExchangeable found now
  pub not_deleted : found.user.status ≢ deleted
  pub not_suspended : found.user.status ≢ suspended
  pub next_token : r.refresh_token ≡ next
  pub signed :
      crypto.sign_access_token (record {
        user_id = found.user.id;
        session_id = found.session.id;
        email_verified = is_some found.user.email_verified_at;
        role = found.user.role;
        ttl_seconds = config.access_token_ttl_seconds;
      })
      ≡ some r.access_token

module _ (q : Queries) (crypto : Crypto) (config : AuthConfig) where
  mint_and_rotate-ok :
      (others racing : Db → Db) (next : ℕ) (found : TokenWithSession) (hash now : ℕ)
      (seen : SessionSeenMetadata) (r : AuthResult) (db : Db)
      → (mint_and_rotate q crypto config others racing next found hash now seen db).0 ≡ ok r
      → (r.refresh_token ≡ next)
        × (crypto.sign_access_token (record {
          user_id = found.user.id;
          session_id = found.session.id;
          email_verified = is_some found.user.email_verified_at;
          role = found.user.role;
          ttl_seconds = config.access_token_ttl_seconds;
        })
            ≡ some r.access_token)
  unfolding mint_and_rotate sign_access_token_for_user answer_rotation
  mint_and_rotate-ok others racing next found hash now seen r db h = ground arith

  refresh_found-ok :
      (others racing : Db → Db) (next : ℕ) (found : TokenWithSession) (hash now : ℕ)
      (seen : SessionSeenMetadata) (r : AuthResult) (db : Db)
      → (refresh_found q crypto config others racing next found hash now seen db).0 ≡ ok r
      → IsRenewed crypto config found next now r
  unfolding refresh_found assert_user_is_not_suspended
  refresh_found-ok others racing next found hash now seen r db h =
      ground (arith, mint_and_rotate-ok others racing next found hash now seen r db)

-- Tokens are renewed only for a stored token of an open session, unexpired and unused when it was
-- read, of a user that is neither deleted nor suspended; the answer carries the next refresh token
-- and an access token signed for that user and session.
pub refresh-IsRenewed :
    (q : Queries) (crypto : Crypto) (config : AuthConfig) (others racing : Db → Db)
    (next token now : ℕ) (seen : SessionSeenMetadata) (r : AuthResult) (db : Db)
    → (refresh q crypto config others racing next token now seen db).0 ≡ ok r
    → (found : TokenWithSession) × (token_with_session q db (crypto.hash_refresh_token token)
        ≡ some found)
      × IsRenewed crypto config found next now r
unfolding refresh find_refresh_token_with_session
refresh-IsRenewed q crypto config others racing next token now seen r db h =
    elim (Option-cases (token_with_session q db (crypto.hash_refresh_token token))) [
      | inl missing ↦ absurd (ground arith)
      | inr (found, e) ↦ (
        found,
        e,
        refresh_found-ok q crypto config others racing next found (crypto.hash_refresh_token token)
            now seen r db (ground arith),
      )
    ]

-- The error by which a client learns of reuse, the only one that comes with a write.
abbrev pub reuse_error : AppError
reuse_error = auth_error 401 refresh_token_reused

-- The database after a refused refresh: what the others made of it.
abbrev pub LeftAlone : Db → (Db → Db) → (Db → Db) → Db → Type 0
LeftAlone db others racing after = (after ≡ db) ⊎ (after ≡ others db) ⊎ (after ≡ racing (others db))

abbrev Refused : Result AppError AuthResult × Db → Db → (Db → Db) → (Db → Db) → Type 0
Refused r db others racing =
    ((a : AuthResult) × (r.0 ≡ ok a)) ⊎ (r.0 ≡ err reuse_error) ⊎ LeftAlone db others racing r.1

module _ (q : Queries) (sql : IsSql q) (crypto : Crypto) (config : AuthConfig)
    (others racing : Db → Db) where
  answered :
      (db : Db) (u : AuthUserRecord) (access next : ℕ)
      (r : Result DbError RefreshRotationResult × Db)
      → Writes r.0 ⊎ Unwritten (others db) (racing (others db)) r.1
      → Refused
          (bind_service (lift_result r) (answer_rotation q crypto config u access next))
          db
          others
          racing
  unfolding answer_rotation
  answered db u access next (ok (rotated sid user exp), after) w = inl (_, refl)
  answered db u access next (ok (revoked_or_reused sid uid), after) w = inr (inl refl)
  answered db u access next (ok not_found, after) (inr w) = inr (inr (inr w))
  answered db u access next (ok (expired sid uid), after) (inr w) = inr (inr (inr w))
  answered db u access next (ok (session_revoked sid uid), after) (inr w) = inr (inr (inr w))
  answered db u access next (err e, after) (inr w) = inr (inr (inr w))
  answered db u access next (ok not_found, after) (inl w) = absurd w
  answered db u access next (ok (expired sid uid), after) (inl w) = absurd w
  answered db u access next (ok (session_revoked sid uid), after) (inl w) = absurd w
  answered db u access next (err e, after) (inl w) = absurd w

  mint_and_rotate-Refused :
      (next : ℕ) (found : TokenWithSession) (hash now : ℕ) (seen : SessionSeenMetadata) (db : Db)
      → Refused
          (mint_and_rotate q crypto config others racing next found hash now seen db)
          db
          others
          racing
  unfolding mint_and_rotate sign_access_token_for_user
  mint_and_rotate-Refused next found hash now seen db =
      elim (Option-cases (
        crypto.sign_access_token (record {
          user_id = found.user.id;
          session_id = found.session.id;
          email_verified = is_some found.user.email_verified_at;
          role = found.user.role;
          ttl_seconds = config.access_token_ttl_seconds;
        }))) [
          | inl unsigned ↦ rw (unsigned, sign_access_token_for_user) (inr (inr (inl refl)))
          | inr (access, signed) ↦
              rw (signed, sign_access_token_for_user)
                (answered db found.user access next _ (
                  rotate_refresh_token-quiet q sql racing hash (crypto.hash_refresh_token next) now
                    seen (others db)))
        ]

  reported :
      (db : Db) (r : Result DbError Bool × Db)
      → ((e : DbError) → r.0 ≡ err e → r.1 ≡ db)
      → Refused (bind_service (lift_result r) (λ _. throw reuse_error)) db others racing
  reported db (ok done, after) h = inr (inl refl)
  reported db (err e, after) h = inr (inr (inl (h e refl)))

  refresh_found-Refused :
      (next : ℕ) (found : TokenWithSession) (hash now : ℕ) (seen : SessionSeenMetadata) (db : Db)
      → Refused
          (refresh_found q crypto config others racing next found hash now seen db)
          db
          others
          racing
  unfolding refresh_found assert_user_is_not_suspended
  refresh_found-Refused next found hash now seen db =
      elim (Bool-cases (status_eq found.user.status deleted)) [
        | inl gone ↦ rw gone (inr (inr (inl refl)))
        | inr here ↦ elim (Bool-cases (status_eq found.user.status suspended)) [
          | inl barred ↦ rw (here, barred) (inr (inr (inl refl)))
          | inr free ↦ elim (Bool-cases (is_some found.session.revoked_at)) [
            | inl revoked ↦ rw (here, free, revoked) (inr (inr (inl refl)))
            | inr open_still ↦ elim (Bool-cases (is_expired found now)) [
              | inl late ↦ rw (here, free, open_still, late) (inr (inr (inl refl)))
              | inr in_time ↦ elim (Bool-cases (is_used found)) [
                | inl used ↦
                    rw (here, free, open_still, in_time, used)
                      (reported db (revoke_session_by_refresh_token_hash q hash now db)
                        (revoke_session_by_refresh_token_hash-err q sql hash now db))
                | inr unused ↦
                    rw (here, free, open_still, in_time, unused)
                      (mint_and_rotate-Refused next found hash now seen db)
              ]
            ]
          ]
        ]
      ]

-- A refresh is answered by tokens, or by the error for a reused token, or it has changed nothing
-- itself: the database is then as it was, or as what other requests committed before the rotation's
-- first read, or between that and its transaction, have made it.
pub refresh-refused :
    (q : Queries)
    → IsSql q
    → (crypto : Crypto) (config : AuthConfig) (others racing : Db → Db) (next token now : ℕ)
      (seen : SessionSeenMetadata) (db : Db)
    → let r = refresh q crypto config others racing next token now seen db in
      ((a : AuthResult) × (r.0 ≡ ok a)) ⊎ (r.0 ≡ err reuse_error) ⊎ LeftAlone db others racing r.1
unfolding refresh find_refresh_token_with_session
refresh-refused q sql crypto config others racing next token now seen db =
    elim (Option-cases (token_with_session q db (crypto.hash_refresh_token token))) [
      | inl missing ↦ rw missing (inr (inr (inl refl)))
      | inr (found, e) ↦ rw e (
          refresh_found-Refused q sql crypto config others racing next found
            (crypto.hash_refresh_token token) now seen db)
    ]
