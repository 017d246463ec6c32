-- ===== src/Db/Retry/Tests.antt =====
-- A transaction whose first attempt meets a write conflict, while another request signs everyone out.
use backend_core_kit.Prelude.{ℕ, ◌≡◌, ◌==◌, refl, arith, Option, none, some, [], if◌then◌else◌}
use backend_core_kit.Db.Rows.{Db, DbError, write_conflict, ok}
use backend_core_kit.Db.Queries.{Queries, Action, memory, memory-IsSql}
use backend_core_kit.Db.Samples.{sample}
use backend_core_kit.Db.Retry.{
  with_transaction_retry, retry_loop, is_retryable_transaction_error,
  with_transaction_retry-Recovers,
}
use backend_core_kit.Db.Retry.Attempts.{IsFirstSettled, with_transaction_retry-IsFirstSettled}

abbrev conflict_first : ℕ → Db → Option DbError
conflict_first n db = if n == 1 then some write_conflict else none

abbrev client : Queries
client = memory (λ db. 99) conflict_first

abbrev sign_out : ℕ → Db → Db
sign_out n db = record db { sessions = [] }

abbrev forget_passwords : Action ℕ
forget_passwords db = (ok 2, record db { credentials = [] })

abbrev after : Db
after = record sample { sessions = []; credentials = [] }

second_attempt :
    with_transaction_retry client sign_out 3 is_retryable_transaction_error forget_passwords sample
    ≡ (ok 2, after)
unfolding with_transaction_retry retry_loop
second_attempt = refl

with_transaction_retry-Recovers_example :
    with_transaction_retry client sign_out 3 is_retryable_transaction_error forget_passwords sample
    ≡ (ok 2, after)
with_transaction_retry-Recovers_example =
    with_transaction_retry-Recovers client (memory-IsSql (λ db. 99) conflict_first) sign_out 3
      is_retryable_transaction_error forget_passwords 2 after 1 sample refl (omega arith)
      ((write_conflict, refl, refl), refl)

with_transaction_retry-IsFirstSettled_example :
    (k : ℕ) × IsFirstSettled client sign_out 3 is_retryable_transaction_error forget_passwords 1
      sample k
      (with_transaction_retry client sign_out 3 is_retryable_transaction_error forget_passwords
        sample)
with_transaction_retry-IsFirstSettled_example =
    with_transaction_retry-IsFirstSettled client (memory-IsSql (λ db. 99) conflict_first) sign_out 3
      is_retryable_transaction_error forget_passwords sample (omega arith)
