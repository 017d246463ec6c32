-- ===== src/Redis/Samples.antt =====
-- A store that is a function from keys to values and in which nothing expires, for the tests.
use backend_core_kit.Prelude.{
  ℕ, suc, refl, Bool, true, false, Option, none, some, or_else, if◌then◌else◌,
}
use backend_core_kit.Redis.{Redis, Counters}

module _ {Key : Type 0} (same : Key → Key → Bool) where
  abbrev write : {Value : Type 0} → (Key → Option Value) → Key → Option Value → Key → Option Value
  write s k v j = if same k j then v else s j

  abbrev write_free :
      {Value : Type 0}
      → (Key → Option Value)
      → Key
      → Value
      → Option Value
      → Bool × (Key → Option Value)
  write_free s k v none = (true, write s k (some v))
  write_free s k v (some old) = (false, s)

  abbrev pub memory_redis : (Value : Type 0) → Redis Key Value same
  memory_redis Value = record {
    Store = Key → Option Value;
    get = λ s k. s k;
    set = λ s k v ttl. write s k (some v);
    set_nx = λ s k v ttl. write_free s k v (s k);
    del = λ s k. write s k none;
    get-set = λ s k j v ttl. refl;
    get-del = λ s k j. refl;
    set_nx_free = λ s k j v ttl free. rw free (refl, refl);
    set_nx_taken = λ s k v old ttl taken. rw taken (refl, refl);
  }

  abbrev pub memory_counters : Counters Key same
  memory_counters = record {
    redis = memory_redis ℕ;
    incr = λ s k. (suc (or_else (s k) 0), write s k (some (suc (or_else (s k) 0))));
    expire = λ s k seconds. s;
    ttl = λ s k. 0;
    incr_value = λ s k. refl;
    get-incr = λ s k j. refl;
    get-expire = λ s k j seconds. refl;
  }
