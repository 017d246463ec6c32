-- ===== src/Db/Queries.antt =====
-- The database client, which is Prisma over PostgreSQL and not code of the repository: its queries
-- are a parameter, and `IsSql` states the documented behaviour that the code relies on. A query's
-- `where` is a test on rows and its `data` a function on rows. `memory` is a client that meets it.
use backend_core_kit.Prelude.{
  ℕ, ◌≡◌, refl, sym, Bool, false, not, List, [], ◌∷◌, ◌++◌, Option, none, some, find?, any, filter,
  count, update_where, if◌then◌else◌, arith, Option-cases, inl, inr,
}
use backend_core_kit.Db.Rows.{Db, DbError, Result, ok, err}

-- A computation that may throw and that changes the database.
abbrev pub Action : Type 0 → Type 0
Action A = Db → Result DbError A × Db

pub record Queries : Type 1 where
  -- findUnique: the row under a unique key, or null.
  pub find_unique : (Row : Type 0) → (Row → Bool) → List Row → Option Row
  -- findFirst: a row that passes, or null.
  pub find_first : (Row : Type 0) → (Row → Bool) → List Row → Option Row
  -- findMany, also SELECT … FOR UPDATE: the rows that pass.
  pub find_many : (Row : Type 0) → (Row → Bool) → List Row → List Row
  -- updateMany: the new table and how many rows it changed.
  pub update_many : (Row : Type 0) → (Row → Bool) → (Row → Row) → List Row → List Row × ℕ
  -- update under a unique key: fails (none) if there is no such row.
  pub update : (Row : Type 0) → (Row → Bool) → (Row → Row) → List Row → Option (List Row)
  -- create: fails (none) if the row collides with a stored one under a unique constraint.
  pub create : (Row : Type 0) → (Row → Row → Bool) → Row → List Row → Option (List Row)
  -- upsert under a unique key.
  pub upsert : (Row : Type 0) → (Row → Bool) → Row → (Row → Row) → List Row → List Row
  -- deleteMany: the rows that are left.
  pub delete_many : (Row : Type 0) → (Row → Bool) → List Row → List Row
  -- gen_random_uuid().
  pub generate_uuid : Db → ℕ
  -- What makes attempt n of a transaction fail: a serialization conflict, a lost connection.
  pub fault : ℕ → Db → Option DbError
  -- Whether a transaction can go on after a statement of it has failed. PostgreSQL's can not.
  pub continues : Bool
  -- $transaction: attempt n of a transaction.
  pub transaction : (A : Type 0) → Action A → ℕ → Action A

-- A transaction commits what its body did, unless the body throws: then nothing is changed.
abbrev pub rollback : {A : Type 0} → Db → Result DbError A × Db → Result DbError A × Db
rollback before (ok a, after) = (ok a, after)
rollback before (err e, after) = (err e, before)

abbrev pub commit : {A : Type 0} → Action A → Action A
commit body db = rollback db (body db)

abbrev pub attempt : {A : Type 0} → Option DbError → Action A → Action A
attempt none body db = commit body db
attempt (some e) body db = (err e, db)

-- The documented behaviour of the client.
pub record IsSql (q : Queries) : Type 1 where
  pub find_unique_lem :
      (Row : Type 0) (p : Row → Bool) (rows : List Row) → q.find_unique Row p rows ≡ find? p rows
  pub find_first_lem :
      (Row : Type 0) (p : Row → Bool) (rows : List Row) → q.find_first Row p rows ≡ find? p rows
  pub find_many_lem :
      (Row : Type 0) (p : Row → Bool) (rows : List Row) → q.find_many Row p rows ≡ filter p rows
  pub update_many_lem :
      (Row : Type 0) (p : Row → Bool) (f : Row → Row) (rows : List Row)
      → q.update_many Row p f rows ≡ (update_where p f rows, count p rows)
  pub update_lem :
      (Row : Type 0) (p : Row → Bool) (f : Row → Row) (rows : List Row)
      → q.update Row p f rows ≡ (if any p rows then some (update_where p f rows) else none)
  pub create_lem :
      (Row : Type 0) (collides : Row → Row → Bool) (r : Row) (rows : List Row)
      → q.create Row collides r rows
        ≡ (if any (collides r) rows then none else some (rows ++ r ∷ []))
  pub upsert_lem :
      (Row : Type 0) (p : Row → Bool) (r : Row) (f : Row → Row) (rows : List Row)
      → q.upsert Row p r f rows ≡ (if any p rows then update_where p f rows else rows ++ r ∷ [])
  pub delete_many_lem :
      (Row : Type 0) (p : Row → Bool) (rows : List Row)
      → q.delete_many Row p rows ≡ filter (λ r. not (p r)) rows
  pub transaction_lem :
      (A : Type 0) (body : Action A) (n : ℕ) (db : Db)
      → q.transaction A body n db ≡ attempt (q.fault n db) body db

-- A client that keeps its tables in memory, for any generator of ids and any faults.
abbrev pub memory_with : Bool → (Db → ℕ) → (ℕ → Db → Option DbError) → Queries
memory_with continues uuid faults = record {
  find_unique = λ Row p rows. find? p rows;
  find_first = λ Row p rows. find? p rows;
  find_many = λ Row p rows. filter p rows;
  update_many = λ Row p f rows. (update_where p f rows, count p rows);
  update = λ Row p f rows. if any p rows then some (update_where p f rows) else none;
  create = λ Row collides r rows. if any (collides r) rows then none else some (rows ++ r ∷ []);
  upsert = λ Row p r f rows. if any p rows then update_where p f rows else rows ++ r ∷ [];
  generate_uuid = uuid;
  delete_many = λ Row p rows. filter (λ r. not (p r)) rows;
  fault = faults;
  continues = continues;
  transaction = λ A body n db. attempt (faults n db) body db;
}

abbrev pub memory : (Db → ℕ) → (ℕ → Db → Option DbError) → Queries
memory = memory_with false

pub memory-IsSql : (uuid : Db → ℕ) (faults : ℕ → Db → Option DbError) → IsSql (memory uuid faults)
memory-IsSql uuid faults = record {
  find_unique_lem = λ Row p rows. refl;
  find_first_lem = λ Row p rows. refl;
  find_many_lem = λ Row p rows. refl;
  update_many_lem = λ Row p f rows. refl;
  update_lem = λ Row p f rows. refl;
  create_lem = λ Row collides r rows. refl;
  upsert_lem = λ Row p r f rows. refl;
  delete_many_lem = λ Row p rows. refl;
  transaction_lem = λ A body n db. refl;
}

pub memory-eq : (q : Queries) → IsSql q → memory_with q.continues q.generate_uuid q.fault ≡ q
memory-eq q h = λ i. record {
  find_unique = λ Row p rows. sym (h.find_unique_lem Row p rows) i;
  find_first = λ Row p rows. sym (h.find_first_lem Row p rows) i;
  find_many = λ Row p rows. sym (h.find_many_lem Row p rows) i;
  update_many = λ Row p f rows. sym (h.update_many_lem Row p f rows) i;
  update = λ Row p f rows. sym (h.update_lem Row p f rows) i;
  create = λ Row collides r rows. sym (h.create_lem Row collides r rows) i;
  upsert = λ Row p r f rows. sym (h.upsert_lem Row p r f rows) i;
  generate_uuid = q.generate_uuid;
  delete_many = λ Row p rows. sym (h.delete_many_lem Row p rows) i;
  fault = q.fault;
  continues = q.continues;
  transaction = λ A body n db. sym (h.transaction_lem A body n db) i;
}

pub rollback-ok :
    {A : Type 0} (before : Db) (r : Result DbError A × Db) (a : A)
    → (rollback before r).0 ≡ ok a
    → r ≡ (ok a, (rollback before r).1)
rollback-ok before (ok b, after) a h = ground arith
rollback-ok before (err e, after) a h = cc

pub rollback-err :
    {A : Type 0} (before : Db) (r : Result DbError A × Db) (e : DbError)
    → (rollback before r).0 ≡ err e
    → (rollback before r).1 ≡ before
rollback-err before (ok b, after) e h = cc
rollback-err before (err e', after) e h = refl

module _ (q : Queries) (sql : IsSql q) {A : Type 0} (body : Action A) (n : ℕ) (db : Db) where
  -- A transaction that returns has run its body to the end.
  pub transaction-ok :
      (a : A)
      → (q.transaction A body n db).0 ≡ ok a
      → body db ≡ (ok a, (q.transaction A body n db).1)
  transaction-ok a = rw (sql.transaction_lem A body n db) (λ h. elim (Option-cases (q.fault n db)) [
    | inl fine ↦ rw fine (rollback-ok db (body db) a (rw fine at h))
    | inr (e, fails) ↦ let h' = (rw fails at h) in cc h'
  ])

  -- A transaction that throws leaves the database as it was.
  pub transaction-err :
      (e : DbError) → (q.transaction A body n db).0 ≡ err e → (q.transaction A body n db).1 ≡ db
  transaction-err e = rw (sql.transaction_lem A body n db) (λ h.
      elim (Option-cases (q.fault n db)) [
        | inl fine ↦ rw fine (rollback-err db (body db) e (rw fine at h))
        | inr (f, fails) ↦ rw fails refl
      ])
