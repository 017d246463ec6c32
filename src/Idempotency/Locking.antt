-- ===== src/Idempotency/Locking.antt =====
-- The lock that a request takes under its key, and how it is given back.
use backend_core_kit.Prelude.{
  ℕ, ◌≡◌, ◌⊎◌, refl, arith, Bool, true, false, ltb, Option, none, some, Option-cases, Bool-cases,
  inl, inr, ==_refl, text_eq,
}
use backend_core_kit.Db.{Result, ok}
use backend_core_kit.Redis.{Redis}
use backend_core_kit.Idempotency.{
  IdempotencyKey, same_key, StoredText, StoredRecord, parse_record, digest, in_progress, completed,
  in_progress_problem, KeyHeader, BeginInput, BeginResult, acquired, Problem, lock_of, lock_ttl_of,
  judge, acquire_again, judge_text, after_first_set, with_header, begin,
}

pub same_key_refl : (k : IdempotencyKey) → same_key k k ≡ true
same_key_refl k = ground (arith, ==_refl k.user_id, ==_refl k.scope, ==_refl k.header)

-- The key that the service derives from a request.
abbrev pub key_of : BeginInput → KeyHeader → ℕ → IdempotencyKey
key_of input header user = record {
  user_id = user;
  scope = input.scope_hash;
  header = header.value;
}

-- A request that comes as far as the store.
pub record IsEligible (input : BeginInput) (header : KeyHeader) (user : ℕ) : Type 0 where
  pub writes : input.is_write ≡ true
  pub has_header : input.header ≡ some header
  pub short : ltb 128 header.len ≡ false
  pub has_user : input.user_id ≡ some user

module _ (redis : Redis IdempotencyKey StoredText same_key) where
  open redis use {Store, get, set, set_nx, del, get-set, get-del, set_nx_free, set_nx_taken}

  pub begin-eligible :
      (passing : Store → Store) (input : BeginInput) (header : KeyHeader) (user : ℕ) (s : Store)
      → IsEligible input header user
      → let key = key_of input header user in
        begin redis passing true input s
        ≡ after_first_set redis passing input key (set_nx s key (lock_of input) (lock_ttl_of input))
  unfolding begin with_header
  begin-eligible passing input header user s e = ground arith

  set_nx-IsLocked :
      (key : IdempotencyKey) (input : BeginInput) (s : Store)
      → (set_nx s key (lock_of input) (lock_ttl_of input)).0 ≡ true
      → (get s key ≡ none)
        × (get (set_nx s key (lock_of input) (lock_ttl_of input)).1 key ≡ some (lock_of input))
  set_nx-IsLocked key input s h = elim (Option-cases (get s key)) [
    | inl free ↦ (
      free,
      ground (
        arith,
        set_nx_free s key key (lock_of input) (lock_ttl_of input) free,
        same_key_refl key,
      ),
    )
    | inr (old, taken) ↦
        absurd (ground (arith, set_nx_taken s key (lock_of input) old (lock_ttl_of input) taken))
  ]

  -- The answers of `begin` that hand the key to the request.
  abbrev pub Acquires : Result Problem BeginResult → Type 0
  Acquires (ok (acquired key hash ttl lock wait)) = Unit
  Acquires _ = ⊥

  judge-refuses :
      (input : BeginInput) (key : IdempotencyKey) (r : StoredRecord)
      → ¬ Acquires (judge input key r)
  unfolding judge
  judge-refuses input key (in_progress hash at) a =
      elim (Bool-cases (text_eq hash (digest input.request_hash))) [
        | inl same ↦ absurd (rw same at a)
        | inr other ↦ absurd (rw other at a)
      ]
  judge-refuses input key (completed c) a =
      elim (Bool-cases (text_eq c.request_hash (digest input.request_hash))) [
        | inl same ↦ absurd (rw same at a)
        | inr other ↦ absurd (rw other at a)
      ]

  first_set-Acquires :
      (passing : Store → Store) (input : BeginInput) (key : IdempotencyKey) (s : Store)
      → Acquires
          (after_first_set redis passing input key
            (set_nx s key (lock_of input) (lock_ttl_of input))).0
      → ((get s key ≡ none)
          ⊎ (get (passing (set_nx s key (lock_of input) (lock_ttl_of input)).1) key ≡ none))
        × (get
              (after_first_set redis passing input key
                (set_nx s key (lock_of input) (lock_ttl_of input))).1
              key
            ≡ some (lock_of input))
  unfolding after_first_set judge_text acquire_again judge
  first_set-Acquires passing input key s =
      go (set_nx s key (lock_of input) (lock_ttl_of input)) (set_nx-IsLocked key input s)
    where
      again :
          (t : Store) (r : Bool × Store)
          → (r.0 ≡ true → (get t key ≡ none) × (get r.1 key ≡ some (lock_of input)))
          → Acquires (acquire_again redis input key r).0
          → (get t key ≡ none)
            × (get (acquire_again redis input key r).1 key ≡ some (lock_of input))
      again t (true, u) h a = h refl
      again t (false, u) h a = absurd a

      judged :
          (r : Option StoredRecord) (t : Store)
          → ¬ Acquires
              (elim r as (λ x. Result Problem BeginResult × Store) [
                | none ↦ (in_progress_problem, t)
                | some record' ↦ (judge input key record', t)
              ]).0
      judged none t a = a
      judged (some r) t a = judge-refuses input key r a

      text :
          (t : Store) (v : Option StoredText)
          → get t key ≡ v
          → Acquires (judge_text redis input key v t).0
          → (get t key ≡ none) × (get (judge_text redis input key v t).1 key ≡ some (lock_of input))
      text t none e a =
          again t (set_nx t key (lock_of input) (lock_ttl_of input)) (set_nx-IsLocked key input t) a
      text t (some v) e a = absurd (judged (parse_record v) t a)

      go :
          (r : Bool × Store)
          → (r.0 ≡ true → (get s key ≡ none) × (get r.1 key ≡ some (lock_of input)))
          → Acquires (after_first_set redis passing input key r).0
          → ((get s key ≡ none) ⊎ (get (passing r.1) key ≡ none))
            × (get (after_first_set redis passing input key r).1 key ≡ some (lock_of input))
      go (true, t) h a = (inl (h refl).0, (h refl).1)
      go (false, t) h a =
          let (free, locked) = text (passing t) (get (passing t) key) refl a in (inr free, locked)

-- An eligible request that is handed its key found it free, at SET NX or at GET, before which anything
-- may have happened to the store; afterwards the store holds this request's lock.
pub begin-Acquires :
    (redis : Redis IdempotencyKey StoredText same_key) (passing : redis.Store → redis.Store)
    (input : BeginInput) (header : KeyHeader) (user : ℕ) (s : redis.Store)
    → IsEligible input header user
    → Acquires redis (begin redis passing true input s).0
    → let key = key_of input header user in
      ((redis.get s key ≡ none)
        ⊎ (redis.get (passing (redis.set_nx s key (lock_of input) (lock_ttl_of input)).1) key
            ≡ none))
      × (redis.get (begin redis passing true input s).1 key ≡ some (lock_of input))
begin-Acquires redis passing input header user s e =
    rw (begin-eligible redis passing input header user s e)
      (first_set-Acquires redis passing input (key_of input header user) s)

-- While a key is taken and nothing expires, no request is handed it.
pub begin-taken :
    (redis : Redis IdempotencyKey StoredText same_key) (input : BeginInput) (header : KeyHeader)
    (user : ℕ) (s : redis.Store) (old : StoredText)
    → IsEligible input header user
    → redis.get s (key_of input header user) ≡ some old
    → ¬ Acquires redis (begin redis (λ t. t) true input s).0
begin-taken redis input header user s old e taken a =
    let key = key_of input header user in
    let unchanged = redis.set_nx_taken s key (lock_of input) old (lock_ttl_of input) taken in
    elim ((begin-Acquires redis (λ t. t) input header user s e a).0) [
      | inl free ↦ ground arith
      | inr free ↦ ground arith
    ]

-- Of two eligible requests under one key, where the second comes while the store still is as the
-- first, which was handed the key, has left it, the second is not handed it.
pub begin_twice :
    (redis : Redis IdempotencyKey StoredText same_key) (passing : redis.Store → redis.Store)
    (first second : BeginInput) (header header' : KeyHeader) (user user' : ℕ) (s : redis.Store)
    → IsEligible first header user
    → IsEligible second header' user'
    → key_of second header' user' ≡ key_of first header user
    → Acquires redis (begin redis passing true first s).0
    → ¬ Acquires redis (begin redis (λ t. t) true second (begin redis passing true first s).1).0
begin_twice redis passing first second header header' user user' s e e' same a =
    begin-taken redis second header' user' _ (lock_of first) e'
      (rw same (begin-Acquires redis passing first header user s e a).1)
