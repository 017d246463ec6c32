-- ===== src/Redis.antt =====
-- Redis, which is not code of the repository: a store of values under keys with the commands that
-- the code sends, and the documented effect of each on what GET answers. Expiry is the store's own
-- doing: a component that depends on it takes the stores between two commands as arguments.
pub mod Samples
use backend_core_kit.Prelude.{
  ℕ, suc, or_else, ◌≡◌, Bool, true, false, Option, none, some, if◌then◌else◌,
}

pub record Redis (Key Value : Type 0) (same : Key → Key → Bool) : Type 1 where
  pub Store : Type 0
  pub get : Store → Key → Option Value
  -- SET key value EX ttl
  pub set : Store → Key → Value → ℕ → Store
  -- SET key value EX ttl NX: whether it answered OK, and the store.
  pub set_nx : Store → Key → Value → ℕ → Bool × Store
  pub del : Store → Key → Store
  pub get-set :
      (s : Store) (k j : Key) (v : Value) (ttl : ℕ)
      → get (set s k v ttl) j ≡ (if same k j then some v else get s j)
  pub get-del : (s : Store) (k j : Key) → get (del s k) j ≡ (if same k j then none else get s j)
  -- NX: the value is set only if there is none.
  pub set_nx_free :
      (s : Store) (k j : Key) (v : Value) (ttl : ℕ)
      → get s k ≡ none
      → ((set_nx s k v ttl).0 ≡ true)
        × (get (set_nx s k v ttl).1 j ≡ (if same k j then some v else get s j))
  pub set_nx_taken :
      (s : Store) (k : Key) (v old : Value) (ttl : ℕ)
      → get s k ≡ some old
      → ((set_nx s k v ttl).0 ≡ false) × ((set_nx s k v ttl).1 ≡ s)

-- The commands on counters, where every value is a number.
pub record Counters (Key : Type 0) (same : Key → Key → Bool) : Type 1 where
  pub redis : Redis Key ℕ same
  pub open redis use *
  -- INCR: the new value, and the store.
  pub incr : Store → Key → ℕ × Store
  pub expire : Store → Key → ℕ → Store
  -- TTL in seconds; Redis answers below 0 for a key without one, here 0.
  pub ttl : Store → Key → ℕ
  pub incr_value : (s : Store) (k : Key) → (incr s k).0 ≡ suc (or_else (get s k) 0)
  pub get-incr :
      (s : Store) (k j : Key)
      → get (incr s k).1 j ≡ (if same k j then some (suc (or_else (get s k) 0)) else get s j)
  pub get-expire : (s : Store) (k j : Key) (seconds : ℕ) → get (expire s k seconds) j ≡ get s j
