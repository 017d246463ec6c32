-- ===== src/Accounts/Deletion/Tests.antt =====
-- A request for deletion on a small database, and its cancelling.
use backend_core_kit.Prelude.{◌≡◌, refl, arith, none, some, find?}
use backend_core_kit.Db.{Db, ok, User}
use backend_core_kit.Db.Queries.{memory-IsSql}
use backend_core_kit.Db.Retry.{with_transaction_retry, retry_loop}
use backend_core_kit.Db.Samples.{client, sample, member}
use backend_core_kit.Accounts.Deletion.{
  DeletionInput, accepted, withdrawn, scheduled, request_account_deletion, request_tx,
  request_found, write_request, cancel_account_deletion, cancel_tx, cancel_found,
}
use backend_core_kit.Accounts.Deletion.Request.{
  is_user, IsAccepted, request_account_deletion-IsAccepted, cancel-request,
}

abbrev leave : DeletionInput
leave = record { user_id = 1; session_id = 7; trace_id = 70 }

abbrev quiet : Db → Db
quiet db = db

abbrev leaving : User
leaving = scheduled leave 5 35 member

abbrev asked : Db
asked = (request_account_deletion client quiet leave 5 35 sample).1

sample_accepted :
    (request_account_deletion client quiet leave 5 35 sample).0 ≡ ok (accepted leaving)
unfolding request_account_deletion with_transaction_retry retry_loop request_tx request_found
    write_request
sample_accepted = refl

sample_cancelled : (cancel_account_deletion client leave asked).0 ≡ ok (withdrawn member)
unfolding request_account_deletion with_transaction_retry retry_loop request_tx request_found
    write_request cancel_account_deletion cancel_tx cancel_found
sample_cancelled = refl

request_account_deletion-IsAccepted_example :
    (u : User) × (find? (is_user 1) sample.users ≡ some u) × IsAccepted leave 35 u sample asked
request_account_deletion-IsAccepted_example =
    request_account_deletion-IsAccepted client (memory-IsSql (λ db. 99) (λ n db. none)) quiet leave
      5 35 leaving sample sample_accepted

cancel-request_example : (cancel_account_deletion client leave asked).1.users ≡ sample.users
cancel-request_example =
    cancel-request client (memory-IsSql (λ db. 99) (λ n db. none)) leave leave 5 35 member leaving
      member sample refl (omega arith) refl refl sample_accepted sample_cancelled
