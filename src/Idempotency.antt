-- ===== src/Idempotency.antt =====
-- libs/platform/http/idempotency/idempotency.service.ts, with the records of idempotency.core.ts. The
-- request's canonical text is left out: a request comes with its hash.
mod Records
pub mod Tests
pub mod Locking
pub mod Replay
use backend_core_kit.Prelude.{
  ℕ, zero, suc, ◌*◌, ◌==◌, leb, ltb, Bool, true, false, not, ◌&&◌, Option, none, some, List, [],
  ◌∷◌, or_else, if◌then◌else◌, Text, text_eq,
}
use backend_core_kit.Db.{Result, ok, err}
use backend_core_kit.Redis.{Redis}
unfoldable pub use backend_core_kit.Idempotency.Records.*

-- `idempotency:v1:${userId}:${scopeHash}:${header}`; neither an id nor a hash holds a colon.
pub record IdempotencyKey : Type 0 where
  pub user_id : ℕ
  pub scope : ℕ
  pub header : ℕ

abbrev pub same_key : IdempotencyKey → IdempotencyKey → Bool
same_key a b = a.user_id == b.user_id && a.scope == b.scope && a.header == b.header

pub data ErrorCode : Type 0 where
  internal validation_failed idempotency_in_progress conflict : ErrorCode

-- A ProblemException by its status and code.
pub record Problem : Type 0 where
  pub status : ℕ
  pub code : ErrorCode

pub record KeyHeader : Type 0 where
  pub value : ℕ
  pub len : ℕ

-- What the service reads from the request and from the options of the endpoint.
pub record BeginInput : Type 0 where
  pub is_write : Bool
  pub header : Option KeyHeader
  pub user_id : Option ℕ
  pub required : Option Bool
  pub scope_hash : ℕ
  pub request_hash : ℕ
  pub ttl_seconds : Option ℕ
  pub wait_ms : Option ℕ
  pub lock_ttl_seconds : Option ℕ
  pub now : ℕ

pub data BeginResult : Type 0 where
  skip : BeginResult
  acquired : IdempotencyKey → ℕ → ℕ → ℕ → ℕ → BeginResult
  replay : IdempotencyKey → CompletedRecord → BeginResult
  waiting : IdempotencyKey → ℕ → ℕ → BeginResult

abbrev pub problem : {A : Type 0} → ℕ → ErrorCode → Result Problem A
problem status code = err (record { status = status; code = code })

abbrev pub in_progress_problem : Result Problem BeginResult
in_progress_problem = problem 409 idempotency_in_progress

abbrev pub max_replay_record_chars : ℕ
max_replay_record_chars = 65536

abbrev pub wait_of : BeginInput → ℕ
wait_of input = or_else input.wait_ms 2000

abbrev pub lock_ttl_of : BeginInput → ℕ
lock_ttl_of input = or_else input.lock_ttl_seconds 30

abbrev pub lock_of : BeginInput → StoredText
lock_of input = stringify_record (create_in_progress_record input.request_hash input.now)

abbrev pub acquired_by : BeginInput → IdempotencyKey → BeginResult
acquired_by input key =
    acquired key input.request_hash (or_else input.ttl_seconds (60 * 60 * 24)) (lock_ttl_of input)
      (wait_of input)

-- What a record that is there already means for the request.
pub judge : BeginInput → IdempotencyKey → StoredRecord → Result Problem BeginResult
judge input key r =
    if not (text_eq (hash_of r) (digest input.request_hash))
    then problem 409 conflict
    else (elim r [
      | completed c ↦ ok (replay key c)
      | in_progress hash started_at ↦ ok (waiting key input.request_hash (wait_of input))
    ])

module _ (redis : Redis IdempotencyKey StoredText same_key) where
  open redis use {Store, get, set, set_nx, del}

  -- The second attempt to acquire, after the key has vanished.
  pub acquire_again :
      BeginInput → IdempotencyKey → Bool × Store → Result Problem BeginResult × Store
  acquire_again input key (true, s) = (ok (acquired_by input key), s)
  acquire_again input key (false, s) = (in_progress_problem, s)

  pub judge_text :
      BeginInput → IdempotencyKey → Option StoredText → Store → Result Problem BeginResult × Store
  judge_text input key none s =
      acquire_again input key (set_nx s key (lock_of input) (lock_ttl_of input))
  judge_text input key (some text) s = elim (parse_record text) [
    | none ↦ (in_progress_problem, s)
    | some r ↦ (judge input key r, s)
  ]

  -- `passing` is what happens to the store between SET NX and GET.
  pub after_first_set :
      (Store → Store)
      → BeginInput
      → IdempotencyKey
      → Bool × Store
      → Result Problem BeginResult × Store
  after_first_set passing input key (true, s) = (ok (acquired_by input key), s)
  after_first_set passing input key (false, s) =
      judge_text input key (get (passing s) key) (passing s)

  pub with_header :
      (Store → Store) → BeginInput → KeyHeader → Bool → Store → Result Problem BeginResult × Store
  with_header passing input header enabled s =
      if not enabled
      then (problem 500 internal, s)
      else if ltb 128 header.len
      then (problem 400 validation_failed, s)
      else (elim input.user_id [
        | none ↦ (problem 500 internal, s)
        | some user ↦
            let key : IdempotencyKey = record {
              user_id = user;
              scope = input.scope_hash;
              header = header.value;
            } in
            after_first_set passing input key (set_nx s key (lock_of input) (lock_ttl_of input))
      ])

  unfoldable pub begin :
      (Store → Store) → Bool → BeginInput → Store → Result Problem BeginResult × Store
  begin passing enabled input s =
      if not input.is_write then (problem 500 internal, s) else (elim input.header [
        | none ↦
            (if or_else input.required false then problem 400 validation_failed else ok skip, s)
        | some header ↦ with_header passing input header enabled s
      ])

  -- Whether a record is the lock of a request with this hash.
  abbrev pub is_lock_of : ℕ → Option StoredRecord → Bool
  is_lock_of request_hash (some (in_progress hash started_at)) = text_eq hash (digest request_hash)
  is_lock_of request_hash _ = false

  abbrev pub is_own_lock : Option StoredText → ℕ → Bool
  is_own_lock none request_hash = false
  is_own_lock (some text) request_hash = is_lock_of request_hash (parse_record text)

  unfoldable pub release : Bool → IdempotencyKey → ℕ → Store → Store
  release enabled key request_hash s =
      if not enabled then s else if is_own_lock (get s key) request_hash then del s key else s

  -- `size` is the length of a text.
  unfoldable pub complete :
      (StoredText → ℕ)
      → Bool
      → IdempotencyKey
      → ℕ
      → ℕ
      → Option ℕ
      → List (ℕ × Text)
      → ℕ
      → ℕ
      → Store
      → Store
  complete size enabled key request_hash status body headers ttl_seconds now s =
      if not enabled
      then s
      else if leb 400 status
      then release enabled key request_hash s
      else (let serialized =
            stringify_record
              (completed (create_completed_record request_hash status body headers now)) in
          if ltb max_replay_record_chars (size serialized)
          then release enabled key request_hash s
          else set s key serialized ttl_seconds)

  -- One round of the polling loop on what GET answers: to go on (none), or the loop's answer.
  abbrev pub poll_record :
      ℕ → Option StoredRecord → Option (Result Problem (Option CompletedRecord))
  poll_record request_hash none = some (ok none)
  poll_record request_hash (some r) =
      if not (text_eq (hash_of r) (digest request_hash))
      then some (problem 409 conflict)
      else (elim r [ completed c ↦ some (ok (some c)) | in_progress hash started_at ↦ none ])

  pub poll : ℕ → Option StoredText → Option (Result Problem (Option CompletedRecord))
  poll request_hash none = some (ok none)
  poll request_hash (some text) = poll_record request_hash (parse_record text)

  -- waitForCompletion over the stores that its rounds see until the deadline.
  unfoldable pub wait_for_completion :
      Bool → IdempotencyKey → ℕ → List Store → Result Problem (Option CompletedRecord)
  wait_for_completion false key request_hash stores = ok none
  wait_for_completion true key request_hash [] = ok none
  wait_for_completion true key request_hash (s ∷ stores) =
      let rest = wait_for_completion true key request_hash stores in
      elim (poll request_hash (get s key)) [ none ↦ rest | some answer ↦ answer ]
