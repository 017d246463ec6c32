-- ===== src/Db/Retry.antt =====
-- libs/platform/db/tx-retry.ts: the loop of withTransactionRetry. While it waits between two attempts,
-- and while an attempt fails, other requests commit; how long it waits is left out.
pub mod Attempts
pub mod Tests
use backend_core_kit.Prelude.{
  ℕ, zero, suc, ◌+◌, ◌<◌, ◌≡◌, refl, arith, Bool, true, false, ◌&&◌, ltb, none, some, if◌then◌else◌,
  Bool-cases, Option-cases, inl, inr,
}
use backend_core_kit.Db.Rows.{
  Db, DbError, write_conflict, retries_exhausted, unique_violation, push_token_field, Result, ok,
  err,
}
use backend_core_kit.Db.Queries.{
  Queries, Action, IsSql, commit, rollback, rollback-ok, rollback-err,
}

-- A write conflict stands for the Prisma, PostgreSQL and driver errors that the source lists.
abbrev pub is_retryable_transaction_error : DbError → Bool
is_retryable_transaction_error write_conflict = true
is_retryable_transaction_error _ = false

-- isUniqueConstraintError(err, 'pushToken'), with its other reading of the error's target.
abbrev pub is_push_token_violation : DbError → Bool
is_push_token_violation (unique_violation push_token_field) = true
is_push_token_violation _ = false

-- What the loop does with the outcome of an attempt; `more` is the rest of the loop.
abbrev pub next_attempt :
    {A : Type 0}
    → ℕ
    → ℕ
    → (DbError → Bool)
    → Action A
    → Result DbError A × Db
    → Result DbError A × Db
next_attempt max_attempts n should_retry more (ok a, db) = (ok a, db)
next_attempt max_attempts n should_retry more (err e, db) =
    if ltb n max_attempts && should_retry e then more db else (err e, db)

-- `passing n` is what other requests commit between the attempts n and n + 1.
module _ (q : Queries) (passing : ℕ → Db → Db) {A : Type 0} (max_attempts : ℕ)
    (should_retry : DbError → Bool) (body : Action A) where
  -- `rounds` is how many attempts are left, `n` the number of the next one.
  unfoldable pub retry_loop : ℕ → ℕ → Action A
  retry_loop zero n db = (err retries_exhausted, db)
  retry_loop (suc rounds) n db =
      next_attempt max_attempts n should_retry (λ left. retry_loop rounds (n + 1) (passing n left))
        (q.transaction A body n db)

  unfoldable pub with_transaction_retry : Action A
  unfolding retry_loop
  with_transaction_retry = retry_loop max_attempts 1

-- Nothing is committed between two attempts.
abbrev pub alone : ℕ → Db → Db
alone n db = db

-- withSerializableRetry and the calls with no options: three attempts.
abbrev pub with_retry : Queries → {A : Type 0} → Action A → Action A
with_retry q body = with_transaction_retry q alone 3 is_retryable_transaction_error body

-- The database that attempt n + k starts on, if attempt n starts on `db` and the attempts from n on
-- have changed nothing.
abbrev pub seen : (ℕ → Db → Db) → ℕ → Db → ℕ → Db
seen passing n db zero = db
seen passing n db (suc k) = seen passing (n + 1) (passing n db) k

module _ {ℓ} {A : Type 0} (P : Result DbError A × Db → Type ℓ) (max_attempts : ℕ)
    (should_retry : DbError → Bool) (db : Db) (failed : (e : DbError) → P (err e, db)) where
  next_attempt_cases :
      (n : ℕ) (more : Action A) (r : Result DbError A × Db)
      → P (rollback db r)
      → P (more db)
      → P (next_attempt max_attempts n should_retry more (rollback db r))
  next_attempt_cases n more (ok a, after) done rest = done
  next_attempt_cases n more (err e, after) done rest =
      elim (Bool-cases (ltb n max_attempts && should_retry e)) [
        | inl again ↦ rw again rest
        | inr stop ↦ rw stop done
      ]

  fault_cases :
      (n : ℕ) (more : Action A) (e : DbError)
      → P (more db)
      → P (next_attempt max_attempts n should_retry more (err e, db))
  fault_cases n more e rest = next_attempt_cases n more (err e, db) (failed e) rest

  loop_cases :
      (q : Queries)
      → IsSql q
      → (body : Action A) → P (commit body db)
      → (rounds n : ℕ) → P (retry_loop q alone max_attempts should_retry body rounds n db)
  unfolding retry_loop
  loop_cases q sql body done zero n = failed retries_exhausted
  loop_cases q sql body done (suc rounds) n =
      let rest = loop_cases q sql body done rounds (n + 1) in
      let more = retry_loop q alone max_attempts should_retry body rounds (n + 1) in
      rw (sql.transaction_lem A body n db) (elim (Option-cases (q.fault n db)) [
        | inl none_now ↦ rw none_now (next_attempt_cases n more (body db) done rest)
        | inr (e, fails) ↦ rw fails (fault_cases n more e rest)
      ])

  -- A transaction that is tried again either commits once or changes nothing and throws.
  pub with_transaction_retry_cases :
      (q : Queries)
      → IsSql q
      → (body : Action A) → P (commit body db)
      → P (with_transaction_retry q alone max_attempts should_retry body db)
  unfolding with_transaction_retry
  with_transaction_retry_cases q sql body done = loop_cases q sql body done max_attempts 1

module _ {A : Type 0} (q : Queries) (sql : IsSql q) (max_attempts : ℕ)
    (should_retry : DbError → Bool) (body : Action A) (db : Db) where
  pub with_transaction_retry-ok :
      (a : A)
      → (with_transaction_retry q alone max_attempts should_retry body db).0 ≡ ok a
      → body db ≡ (ok a, (with_transaction_retry q alone max_attempts should_retry body db).1)
  with_transaction_retry-ok a =
      with_transaction_retry_cases (λ r. r.0 ≡ ok a → body db ≡ (ok a, r.1)) max_attempts
        should_retry db (λ e h. cc h) q sql body (rollback-ok db (body db) a)

module _ {A : Type 0} (q : Queries) (sql : IsSql q) (passing : ℕ → Db → Db) (max_attempts : ℕ)
    (should_retry : DbError → Bool) (body : Action A) where
  -- From attempt n on, every attempt before the last of `k` more fails for a passing reason, and that
  -- one does not, each on the database that other requests have left.
  abbrev pub Recovers : ℕ → Db → ℕ → Type 0
  Recovers n db zero = q.fault n db ≡ none
  Recovers n db (suc k) =
      ((e : DbError) × (q.fault n db ≡ some e) × (should_retry e ≡ true))
      × Recovers (n + 1) (passing n db) k

  loop-Recovers :
      (a : A) (after : Db) (k rounds n : ℕ) (db : Db)
      → body (seen passing n db k) ≡ (ok a, after)
      → k < rounds
      → n + rounds ≡ max_attempts + 1
      → Recovers n db k
      → retry_loop q passing max_attempts should_retry body rounds n db ≡ (ok a, after)
  unfolding retry_loop
  loop-Recovers a after k zero n db runs h m r = absurd (omega arith)
  loop-Recovers a after zero (suc rounds) n db runs h m r =
      rw (sql.transaction_lem A body n db) (rw r (rw runs refl))
  loop-Recovers a after (suc k) (suc rounds) n db runs h m ((e, fails, retried), r) =
      let again =
        loop-Recovers a after k rounds (n + 1) (passing n db) runs (omega arith) (omega arith) r in
      rw (sql.transaction_lem A body n db) (rw fails (ground (arith, again)))

  -- If one of the allowed attempts meets no fault and those before it only ones that are to be
  -- retried, whatever other requests commit between the attempts, a body that succeeds on what they
  -- have left by then is carried out on it, once.
  pub with_transaction_retry-Recovers :
      (a : A) (after : Db) (k : ℕ) (db : Db)
      → body (seen passing 1 db k) ≡ (ok a, after)
      → k < max_attempts
      → Recovers 1 db k
      → with_transaction_retry q passing max_attempts should_retry body db ≡ (ok a, after)
  unfolding with_transaction_retry
  with_transaction_retry-Recovers a after k db runs h r =
      loop-Recovers a after k max_attempts 1 db runs h (omega arith) r
