-- ===== src/Idempotency/Replay.antt =====
-- What a later request under the same key is told.
use backend_core_kit.Prelude.{
  ℕ, ◌==◌, ◌≡◌, arith, true, false, leb, ltb, Option, none, some, List, ==_refl, not, ◌&&◌, is_some,
  Bool-cases, inl, inr, refl, Text, if◌then◌else◌,
}
use backend_core_kit.Db.{ok}
use backend_core_kit.Redis.{Redis}
use backend_core_kit.Idempotency.{
  IdempotencyKey, same_key, StoredText, StoredRecord, completed, CompletedRecord, digest, natural,
  clean_headers, parse_record, stringify_record, text_eq-digest, parse_record-in_progress,
  parse_record-completed, KeyHeader, BeginInput, replay, conflict, problem, lock_of, lock_ttl_of,
  judge, judge_text, after_first_set, is_own_lock, begin, release, complete,
  create_completed_record, max_replay_record_chars,
}
use backend_core_kit.Idempotency.Locking.{
  key_of, IsEligible, begin-eligible, same_key_refl, Acquires, begin-Acquires,
}

module _ (redis : Redis IdempotencyKey StoredText same_key) where
  open redis use {Store, get, set_nx, get-set, get-del, set_nx_taken}

  begin_on_record :
      (input : BeginInput) (header : KeyHeader) (user : ℕ) (s : Store) (text : StoredText)
      (r : StoredRecord)
      → IsEligible input header user
      → get s (key_of input header user) ≡ some text
      → parse_record text ≡ some r
      → begin redis (λ t. t) true input s ≡ (judge input (key_of input header user) r, s)
  unfolding after_first_set judge_text
  begin_on_record input header user s text r e there parsed =
      let key = key_of input header user in
      ground (
        arith,
        begin-eligible redis (λ t. t) input header user s e,
        set_nx_taken s key (lock_of input) text (lock_ttl_of input) there,
      )

-- What a later request is answered by a replay of a response: its status, its body unless the status is
-- 204, and its headers, trimmed and without blank ones.
abbrev pub replayed_record : ℕ → ℕ → Option ℕ → List (ℕ × Text) → ℕ → CompletedRecord
replayed_record hash status body headers now = record {
  request_hash = digest hash;
  status = natural status;
  has_body = is_some body && not (status == 204);
  body = if status == 204 then none else body;
  headers = clean_headers headers;
  completed_at = natural now;
}

parse_record-replayed_record :
    (hash status : ℕ) (body : Option ℕ) (headers : List (ℕ × Text)) (now : ℕ)
    → parse_record
        (stringify_record (completed (create_completed_record hash status body headers now)))
      ≡ some (completed (replayed_record hash status body headers now))
unfolding create_completed_record
parse_record-replayed_record hash status none headers now =
    rw (parse_record-completed hash status none headers now)
      (elim (Bool-cases (status == 204)) [ inl h ↦ rw h refl | inr h ↦ rw h refl ])
parse_record-replayed_record hash status (some body) headers now =
    rw (parse_record-completed hash status (some body) headers now)
      (elim (Bool-cases (status == 204)) [ inl h ↦ rw h refl | inr h ↦ rw h refl ])

-- After a response below 400 whose record fits, an eligible request under the same key, on the store
-- as it was left, reads back from the stored text, if its hash is the same, a record of the response's
-- status, of its body unless the status is 204, and of its headers, each trimmed and those that are
-- blank left out; if the hash is another, it is refused with a conflict.
pub begin-complete :
    (redis : Redis IdempotencyKey StoredText same_key) (size : StoredText → ℕ) (input : BeginInput)
    (header : KeyHeader) (user hash status : ℕ) (body : Option ℕ) (headers : List (ℕ × Text))
    (ttl now : ℕ) (s : redis.Store)
    → IsEligible input header user
    → leb 400 status ≡ false
    → ltb max_replay_record_chars
        (size (stringify_record (completed (create_completed_record hash status body headers now))))
      ≡ false
    → let key = key_of input header user in
      (begin redis
        (λ t. t)
        true
        input
        (complete redis size true key hash status body headers ttl now s)).0
      ≡ (if hash == input.request_hash
          then ok (replay key (replayed_record hash status body headers now))
          else problem 409 conflict)
unfolding complete judge
begin-complete redis size input header user hash status body headers ttl now s e fine fits =
    let key = key_of input header user in
    let text =
      stringify_record (completed (create_completed_record hash status body headers now)) in
    let r = replayed_record hash status body headers now in
    let after = redis.set s key text ttl in
    let left : complete redis size true key hash status body headers ttl now s ≡ after =
      rw (fine, fits) refl in
    let there : redis.get after key ≡ some text =
      rw (redis.get-set s key key text ttl, same_key_refl key) refl in
    let answer =
      begin_on_record redis input header user after text (completed r) e there
        (parse_record-replayed_record hash status body headers now) in
    rw (left, answer, text_eq-digest hash input.request_hash)
      (elim (Bool-cases (hash == input.request_hash)) [ inl h ↦ rw h refl | inr h ↦ rw h refl ])

-- When an eligible request was handed its key and its response is 400 or above, completing it on the
-- store as `begin` left it makes the key free again.
pub complete-failed :
    (redis : Redis IdempotencyKey StoredText same_key) (size : StoredText → ℕ)
    (passing : redis.Store → redis.Store) (input : BeginInput) (header : KeyHeader)
    (user status : ℕ) (body : Option ℕ) (headers : List (ℕ × Text)) (ttl now : ℕ) (s : redis.Store)
    → IsEligible input header user
    → Acquires redis (begin redis passing true input s).0
    → leb 400 status ≡ true
    → let key = key_of input header user in
      redis.get
        (complete redis size true key input.request_hash status body headers ttl now
          (begin redis passing true input s).1)
        key
      ≡ none
unfolding complete release
complete-failed redis size passing input header user status body headers ttl now s e a failed =
    let key = key_of input header user in
    let t = (begin redis passing true input s).1 in
    let h = input.request_hash in
    let locked = (begin-Acquires redis passing input header user s e a).1 in
    let own : is_own_lock redis (redis.get t key) h ≡ true =
      rw (locked, parse_record-in_progress h input.now, text_eq-digest h h) (==_refl h) in
    rw (failed, own, redis.get-del t key key, same_key_refl key) refl
