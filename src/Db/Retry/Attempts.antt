-- ===== src/Db/Retry/Attempts.antt =====
-- Which attempts a retried transaction makes, and on what: a description without the loop.
use backend_core_kit.Prelude.{
  ℕ, zero, suc, ◌+◌, ◌<◌, ◌≡◌, ◌⊎◌, refl, sym, ◌∙◌, ap, subst, arith, Bool, true, false, ◌&&◌, ltb,
  Option, none, some, Bool-cases, inl, inr,
}
use backend_core_kit.Db.Rows.{Db, DbError, Result, ok, err}
use backend_core_kit.Db.Queries.{Queries, Action, IsSql, attempt, rollback}
use backend_core_kit.Db.Retry.{seen, next_attempt, retry_loop, with_transaction_retry}

-- Whether the outcome of an attempt is an error to try again on.
abbrev pub is_retried : {A : Type 0} → (DbError → Bool) → Result DbError A × Db → Bool
is_retried should_retry (ok a, db) = false
is_retried should_retry (err e, db) = should_retry e

module _ {A : Type 0} (q : Queries) (passing : ℕ → Db → Db) (max_attempts : ℕ)
    (should_retry : DbError → Bool) (body : Action A) where
  -- Attempt n + k, on the database that other requests have left.
  abbrev pub outcome : ℕ → Db → ℕ → Result DbError A × Db
  outcome n db k = let left = seen passing n db k in attempt (q.fault (n + k) left) body left

  -- From attempt n on, the answer `r` is the outcome of the first attempt that is not to be tried
  -- again, or of the last one that is allowed.
  pub record IsFirstSettled (n : ℕ) (db : Db) (k : ℕ) (r : Result DbError A × Db) : Type 0 where
    pub allowed : n + k < max_attempts + 1
    pub earlier : (j : ℕ) → j < k → is_retried should_retry (outcome n db j) ≡ true
    pub answer : r ≡ outcome n db k
    pub settled : (n + k ≡ max_attempts) ⊎ (is_retried should_retry (outcome n db k) ≡ false)

  outcome_first : (n : ℕ) (db : Db) → outcome n db 0 ≡ attempt (q.fault n db) body db
  outcome_first n db =
      let same : n + 0 ≡ n = omega arith in ap (λ m. attempt (q.fault m db) body db) same

  outcome_next : (n : ℕ) (db : Db) (k : ℕ) → outcome n db (suc k) ≡ outcome (n + 1) (passing n db) k
  outcome_next n db k =
      let left = seen passing (n + 1) (passing n db) k in
      let same : n + suc k ≡ (n + 1) + k = omega arith in
      ap (λ m. attempt (q.fault m left) body left) same

  -- An attempt has an answer, or it throws and has changed nothing.
  attempt_cases :
      (fault : Option DbError) (db : Db)
      → ((a : A) × (after : Db) × (attempt fault body db ≡ (ok a, after)))
        ⊎ ((e : DbError) × (attempt fault body db ≡ (err e, db)))
  attempt_cases (some e) db = inr (e, refl)
  attempt_cases none db = by_outcome (body db)
    where
      by_outcome :
          (r : Result DbError A × Db)
          → ((a : A) × (after : Db) × (rollback db r ≡ (ok a, after)))
            ⊎ ((e : DbError) × (rollback db r ≡ (err e, db)))
      by_outcome (ok a, after) = inl (a, after, refl)
      by_outcome (err e, after) = inr (e, refl)

  stops_here :
      (n : ℕ) (db : Db)
      → n < max_attempts + 1
      → (n ≡ max_attempts) ⊎ (is_retried should_retry (attempt (q.fault n db) body db) ≡ false)
      → IsFirstSettled n db 0 (attempt (q.fault n db) body db)
  stops_here n db h last = record {
    allowed = omega arith;
    earlier = λ j less. absurd (omega arith);
    answer = sym (outcome_first n db);
    settled = elim last [
      | inl at_last ↦ inl (omega arith)
      | inr final ↦ inr (rw (outcome_first n db) final)
    ];
  }

  goes_on :
      (n k : ℕ) (db : Db) (r : Result DbError A × Db)
      → is_retried should_retry (attempt (q.fault n db) body db) ≡ true
      → IsFirstSettled (n + 1) (passing n db) k r
      → IsFirstSettled n db (suc k) r
  goes_on n k db r again rest = record {
    allowed = let h = rest.allowed in omega arith;
    earlier = earlier;
    answer = rest.answer ∙ sym (outcome_next n db k);
    settled = elim rest.settled [
      | inl at_last ↦ inl (omega arith)
      | inr final ↦ inr (rw (outcome_next n db k) final)
    ];
  }
    where
      earlier : (j : ℕ) → j < suc k → is_retried should_retry (outcome n db j) ≡ true
      earlier zero less = rw (outcome_first n db) again
      earlier (suc j) less = rw (outcome_next n db j) (rest.earlier j (omega arith))

  loop-IsFirstSettled :
      IsSql q
      → (rounds n : ℕ) (db : Db) → 0 < rounds
      → n + rounds ≡ max_attempts + 1
      → (k : ℕ) × IsFirstSettled n db k
          (retry_loop q passing max_attempts should_retry body rounds n db)
  unfolding retry_loop
  loop-IsFirstSettled sql zero n db some_left m = absurd (omega arith)
  loop-IsFirstSettled sql (suc rounds) n db some_left m =
      let here = stops_here n db (omega arith) in
      let o = attempt (q.fault n db) body db in
      let more : Action A = λ left.
        retry_loop q passing max_attempts should_retry body rounds (n + 1) (passing n left) in
      let next = next_attempt max_attempts n should_retry more o in
      rw (sql.transaction_lem A body n db) (elim (attempt_cases (q.fault n db) db) [
        | inl (a, after, done) ↦
            let same : o ≡ next = rw done refl in
            (0, subst (IsFirstSettled n db 0) same (here (inr (rw done refl))))
        | inr (e, failed) ↦ elim (Bool-cases (ltb n max_attempts && should_retry e)) [
          | inl again ↦
              let (k, rest) =
                loop-IsFirstSettled sql rounds (n + 1) (passing n db) (ground arith)
                  (omega arith) in
              let retried : should_retry e ≡ true = ground arith in
              let same : more db ≡ next = rw (failed, again) refl in
              (
                suc k,
                subst (IsFirstSettled n db (suc k)) same
                    (goes_on n k db (more db) (rw failed retried) rest),
              )
          | inr stop ↦
              let same : o ≡ next = rw (failed, stop) refl in
              let last : (n ≡ max_attempts) ⊎ (should_retry e ≡ false) =
                elim (Bool-cases (ltb n max_attempts)) [
                  | inl before ↦ inr (ground arith)
                  | inr at_last ↦ inl (ground arith)
                ] in
              (0, subst (IsFirstSettled n db 0) same (here (rw failed last)))
        ]
      ])

-- A retried transaction that may make at least one attempt answers as the first attempt does that is
-- not to be tried again, or as the last that is allowed: the earlier ones have thrown an error to try
-- again on and changed nothing, and each attempt ran on the database that other requests had left by
-- then.
pub with_transaction_retry-IsFirstSettled :
    {A : Type 0} (q : Queries)
    → IsSql q
    → (passing : ℕ → Db → Db) (max_attempts : ℕ) (should_retry : DbError → Bool) (body : Action A)
      (db : Db)
    → 0 < max_attempts
    → (k : ℕ) × IsFirstSettled q passing max_attempts should_retry body 1 db k
        (with_transaction_retry q passing max_attempts should_retry body db)
unfolding with_transaction_retry
with_transaction_retry-IsFirstSettled q sql passing max_attempts should_retry body db some_allowed =
    loop-IsFirstSettled q passing max_attempts should_retry body sql max_attempts 1 db some_allowed
      (omega arith)
