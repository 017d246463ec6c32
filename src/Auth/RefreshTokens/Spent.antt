-- ===== src/Auth/RefreshTokens/Spent.antt =====
-- What the transactions on refresh tokens leave of a token that is not live.
use backend_core_kit.Prelude.{
  ℕ, ◌==◌, ◌≡◌, ◌≢◌, arith, Bool, false, ◌&&◌, none, some, List, [], ◌∷◌, ◌++◌, is_null, any,
  update_where, any-update_where_keep, any-append_one, Option-cases, inl, inr,
}
use backend_core_kit.Db.{Db, DbError, Result, ok, err, RefreshToken}
use backend_core_kit.Db.Queries.{Queries, Action, IsSql, memory-eq, rollback, commit}
use backend_core_kit.Auth.RefreshTokens.{
  create_refresh_token, exchange, revoke_session_and_tokens, token_revoked, SessionSeenMetadata,
}
use backend_core_kit.Auth.RefreshTokens.SingleUse.{is_live}

-- No row under this id is live.
abbrev pub IsSpent : ℕ → Db → Type 0
IsSpent tid db = any (is_live tid) db.refresh_tokens ≡ false

pub revoked-IsSpent :
    (tid now : ℕ) (p : RefreshToken → Bool) (xs : List RefreshToken)
    → any (is_live tid) xs ≡ false
    → any (is_live tid) (update_where p (token_revoked now) xs) ≡ false
revoked-IsSpent tid now p xs =
    any-update_where_keep (is_live tid) p (token_revoked now) (is_live tid) xs (λ x g. ground arith)

module _ (tid : ℕ) where
  rollback-IsSpent :
      {A : Type 0} (db : Db) (r : Result DbError A × Db)
      → IsSpent tid db
      → IsSpent tid r.1
      → IsSpent tid (rollback db r).1
  rollback-IsSpent db (ok a, after) h g = g
  rollback-IsSpent db (err e, after) h g = h

  pub commit-IsSpent :
      {A : Type 0} (body : Action A) (db : Db)
      → IsSpent tid db
      → IsSpent tid (body db).1
      → IsSpent tid (commit body db).1
  commit-IsSpent body db = rollback-IsSpent db (body db)

  pub transaction-IsSpent :
      (q : Queries)
      → IsSql q
      → {A : Type 0} (body : Action A) (n : ℕ) (db : Db) → IsSpent tid db
      → IsSpent tid (body db).1
      → IsSpent tid (q.transaction A body n db).1
  transaction-IsSpent q sql {A} body n db h g =
      rw (sql.transaction_lem A body n db) (elim (Option-cases (q.fault n db)) [
        | inl fine ↦ rw fine (commit-IsSpent body db h g)
        | inr (e, fails) ↦ rw fails h
      ])

  pub create_refresh_token-IsSpent :
      (q : Queries)
      → IsSql q
      → (sid hash exp : ℕ) (db : Db) → q.generate_uuid db ≢ tid
      → IsSpent tid db
      → IsSpent tid (create_refresh_token q sid hash exp db).1
  unfolding create_refresh_token
  create_refresh_token-IsSpent q sql sid hash exp db = rw (← memory-eq q sql) (λ fresh h. ground (
    arith,
    any-append_one (is_live tid) db.refresh_tokens (record {
      id = q.generate_uuid db;
      token_hash = hash;
      expires_at = exp;
      revoked_at = none;
      session_id = sid;
      replaced_by_id = none;
    }),
  ))

  exchange-IsSpent :
      (q : Queries)
      → IsSql q
      → (t : RefreshToken) (new_hash now : ℕ) (seen : SessionSeenMetadata) (db : Db)
      → q.generate_uuid db ≢ tid
      → IsSpent tid db
      → IsSpent tid (exchange q t new_hash now seen db).1
  unfolding exchange create_refresh_token
  exchange-IsSpent q sql t new_hash now seen db = rw (← memory-eq q sql) (λ fresh h.
      let new : RefreshToken = record {
        id = q.generate_uuid db;
        token_hash = new_hash;
        expires_at = t.expires_at;
        revoked_at = none;
        session_id = t.session_id;
        replaced_by_id = none;
      } in
      let p =
        λ (r : RefreshToken). r.id == t.id && is_null r.revoked_at && is_null r.replaced_by_id in
      let f = λ (r : RefreshToken). record r {
        revoked_at = some now;
        replaced_by_id = some (q.generate_uuid db);
      } in
      ground (
        arith,
        any-append_one (is_live tid) db.refresh_tokens new,
        any-update_where_keep (is_live tid) p f (is_live tid) (db.refresh_tokens ++ new ∷ [])
            (λ x g. ground arith),
      ))

  pub exchange_tx-IsSpent :
      (q : Queries)
      → IsSql q
      → (t : RefreshToken) (new_hash now : ℕ) (seen : SessionSeenMetadata) (db : Db)
      → q.generate_uuid db ≢ tid
      → IsSpent tid db
      → IsSpent tid (q.transaction (Unit {0}) (exchange q t new_hash now seen) 1 db).1
  exchange_tx-IsSpent q sql t new_hash now seen db fresh h =
      transaction-IsSpent q sql (exchange q t new_hash now seen) 1 db h
        (exchange-IsSpent q sql t new_hash now seen db fresh h)

  pub revoke_session_and_tokens-IsSpent :
      (q : Queries)
      → IsSql q
      → (sid now : ℕ) (db : Db) → IsSpent tid db
      → IsSpent tid (revoke_session_and_tokens q sid now db).1
  unfolding revoke_session_and_tokens
  revoke_session_and_tokens-IsSpent q sql sid now db h = transaction-IsSpent q sql _ 1 db h (
      rw
        (sql.update_many_lem RefreshToken (λ t. t.session_id == sid && is_null t.revoked_at)
          (token_revoked now) db.refresh_tokens)
        (revoked-IsSpent tid now _ db.refresh_tokens h))
