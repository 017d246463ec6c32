-- ===== src/Idempotency/Tests.antt =====
-- Requests under one key, on a store in memory.
use backend_core_kit.Prelude.{◌≡◌, ◌⊎◌, refl, true, Option, none, some, List, [], ◌∷◌, Text, ℕ}
use backend_core_kit.Db.{ok}
use backend_core_kit.Redis.{Redis}
use backend_core_kit.Redis.Samples.{memory_redis}
use backend_core_kit.Idempotency.{
  IdempotencyKey, same_key, StoredText, digest, natural, clean_headers, BeginInput, KeyHeader,
  replay, begin, complete, lock_of, lock_ttl_of, with_header, after_first_set,
}
use backend_core_kit.Idempotency.Locking.{key_of, IsEligible, Acquires, begin-Acquires, begin_twice}
use backend_core_kit.Idempotency.Replay.{begin-complete, complete-failed}

abbrev redis : Redis IdempotencyKey StoredText same_key
redis = memory_redis same_key StoredText

abbrev empty : IdempotencyKey → Option StoredText
empty k = none

abbrev header : KeyHeader
header = record { value = 3; len = 36 }

abbrev payment : BeginInput
payment = record {
  is_write = true;
  header = some header;
  user_id = some 1;
  required = none;
  scope_hash = 4;
  request_hash = 5;
  ttl_seconds = none;
  wait_ms = none;
  lock_ttl_seconds = none;
  now = 6;
}

abbrev other_payment : BeginInput
other_payment = record payment { request_hash = 9 }

-- `" a"` under a name, and a blank value under another.
abbrev sent_headers : List (ℕ × Text)
sent_headers = (1, 32 ∷ 97 ∷ []) ∷ (2, 32 ∷ []) ∷ []

payment-IsEligible : IsEligible payment header 1
payment-IsEligible = record { writes = refl; has_header = refl; short = refl; has_user = refl }

other_payment-IsEligible : IsEligible other_payment header 1
other_payment-IsEligible = record {
  writes = refl;
  has_header = refl;
  short = refl;
  has_user = refl;
}

payment-Acquires : Acquires redis (begin redis (λ t. t) true payment empty).0
unfolding begin with_header after_first_set
payment-Acquires = tt

begin_twice_example :
    ¬ Acquires redis
      (begin redis (λ t. t) true other_payment (begin redis (λ t. t) true payment empty).1).0
begin_twice_example =
    begin_twice redis (λ t. t) payment other_payment header header 1 1 empty payment-IsEligible
      other_payment-IsEligible refl payment-Acquires

begin-Acquires_example :
    let key = key_of payment header 1 in
    ((redis.get empty key ≡ none)
      ⊎ (redis.get (redis.set_nx empty key (lock_of payment) (lock_ttl_of payment)).1 key ≡ none))
    × (redis.get (begin redis (λ t. t) true payment empty).1 key ≡ some (lock_of payment))
begin-Acquires_example =
    begin-Acquires redis (λ t. t) payment header 1 empty payment-IsEligible payment-Acquires

begin-complete_example :
    (begin redis
      (λ t. t)
      true
      payment
      (complete redis
        (λ r. 10)
        true
        (key_of payment header 1)
        5
        201
        (some 7)
        sent_headers
        60
        8
        empty)).0
    ≡ ok (
        replay (key_of payment header 1) (record {
          request_hash = digest 5;
          status = natural 201;
          has_body = true;
          body = some 7;
          headers = (1, 97 ∷ []) ∷ [];
          completed_at = natural 8;
        }))
unfolding clean_headers
begin-complete_example =
    begin-complete redis (λ r. 10) payment header 1 5 201 (some 7) sent_headers 60 8 empty
      payment-IsEligible refl refl

complete-failed_example :
    redis.get
      (complete redis
        (λ r. 10)
        true
        (key_of payment header 1)
        5
        500
        none
        []
        60
        8
        (begin redis (λ t. t) true payment empty).1)
      (key_of payment header 1)
    ≡ none
complete-failed_example =
    complete-failed redis (λ r. 10) (λ t. t) payment header 1 500 none [] 60 8 empty
      payment-IsEligible payment-Acquires refl
