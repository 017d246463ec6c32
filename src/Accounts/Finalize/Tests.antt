-- ===== src/Accounts/Finalize/Tests.antt =====
-- A deletion that is due, on a small database.
use backend_core_kit.Prelude.{ℕ, ◌==◌, ◌≡◌, ◌+◌, refl, true, none, some, [], ◌∷◌, find?, arith}
use backend_core_kit.Db.{Db, User, ok}
use backend_core_kit.Db.Queries.{memory-IsSql}
use backend_core_kit.Db.Retry.{with_transaction_retry, retry_loop}
use backend_core_kit.Db.Samples.{client, sample, member, first_admin, second_admin}
use backend_core_kit.Accounts.Admin.{lock_active_admin_invariant}
use backend_core_kit.Accounts.Admin.LastAdmin.{has_admin}
use backend_core_kit.Accounts.Finalize.{
  FinalizeJob, erased, erase_rows, erase, finalize_due, finalize_found, finalize_tx,
  run_finalize_account_deletion_tx,
}
use backend_core_kit.Accounts.Finalize.Erased.{
  IsFinalized, run_finalize_account_deletion_tx-IsFinalized,
}
use backend_core_kit.Accounts.Finalize.LastAdmin.{run_finalize_account_deletion_tx-has_admin}

abbrev scrub : ℕ → ℕ
scrub id = 1000 + id

abbrev leaving : Db
leaving = record sample {
  users =
      member
      ∷ (record first_admin {
        deletion_requested_at = some 1;
        deletion_scheduled_for = some 4;
        deletion_requested_session_id = some 7;
      })
      ∷ second_admin
      ∷ [];
}

abbrev job : FinalizeJob
job = record { user_id = 2; job_trace_id = 900 }

admin_leaves :
    (run_finalize_account_deletion_tx client scrub (λ db. db) job 5 leaving).0 ≡ ok erased
unfolding run_finalize_account_deletion_tx with_transaction_retry retry_loop finalize_tx
    finalize_found finalize_due lock_active_admin_invariant erase erase_rows
admin_leaves = refl

run_finalize_account_deletion_tx-IsFinalized_example :
    (u : User) × (find? (λ r. r.id == 2) leaving.users ≡ some u)
    × IsFinalized 2 1002 5 u leaving
        (run_finalize_account_deletion_tx client scrub (λ db. db) job 5 leaving).1
run_finalize_account_deletion_tx-IsFinalized_example =
    run_finalize_account_deletion_tx-IsFinalized client (memory-IsSql (λ db. 99) (λ n db. none))
      scrub (λ db. db) job 5 leaving admin_leaves

run_finalize_account_deletion_tx-has_admin_example :
    has_admin (run_finalize_account_deletion_tx client scrub (λ db. db) job 5 leaving).1 ≡ true
run_finalize_account_deletion_tx-has_admin_example =
    run_finalize_account_deletion_tx-has_admin client (memory-IsSql (λ db. 99) (λ n db. none)) scrub
      (λ db. db) job 5 erased leaving (ground arith) refl refl refl admin_leaves
