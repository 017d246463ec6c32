-- ===== src/Accounts/Finalize/LastAdmin.antt =====
-- A finalized deletion leaves an active administrator.
use backend_core_kit.Prelude.{
  ltb, ℕ, ◌==◌, ◌≡◌, ◌≤◌, sym, ◌∙◌, subst, Bool, true, ◌&&◌, leb, not, ◌||◌, Option, is_some, any,
  update_where, filter, length, some, find?, ==_iff, find?-passes, count, Bool-cases, Option-cases,
  inl, inr,
}
use backend_core_kit.Db.{Db, User, Result, DbError, ok, err, deleted, status_eq}
use backend_core_kit.Db.Queries.{Queries, IsSql, memory_with, memory-eq}
use backend_core_kit.Db.Retry.{with_transaction_retry-ok, is_retryable_transaction_error}
use backend_core_kit.Accounts.Admin.{is_active_admin, lock_active_admin_invariant}
use backend_core_kit.Accounts.Admin.LastAdmin.{has_admin, is_target, guarded, unguarded}
use backend_core_kit.Accounts.Finalize.{
  FinalizeJob, FinalizeResult, scrubbed, block, erase_rows, erase, finalize_due, finalize_found,
  finalize_tx, run_finalize_account_deletion_tx,
}

-- An answer comes with a database that has an active administrator.
Keeps : Result DbError FinalizeResult × Db → Type 0
Keeps (ok answer, db) = has_admin db ≡ true
Keeps (err e, db) = Unit

block-Keeps :
    (q : Queries) (scrubbed_email : ℕ → ℕ) (job : FinalizeJob) (u : User) (db : Db)
    → has_admin db ≡ true
    → Keeps (block q scrubbed_email job u db)
unfolding block Keeps
block-Keeps q scrubbed_email job u db h = elim (Option-cases u.deletion_requested_session_id) [
  | inl nobody ↦ rw nobody tt
  | inr (sid, somebody) ↦ rw somebody h
]

memory-Keeps :
    (continues : Bool) (uuid : Db → ℕ) (faults : ℕ → Db → Option DbError) (scrubbed_email : ℕ → ℕ)
    (job : FinalizeJob) (now : ℕ) (u : User) (sid : ℕ) (db : Db)
    → any is_active_admin
        (update_where (is_target u.id) (scrubbed (scrubbed_email u.id) now) db.users)
      ≡ true
    → Keeps (erase_rows (memory_with continues uuid faults) scrubbed_email job now u sid db)
unfolding erase_rows Keeps
memory-Keeps continues uuid faults scrubbed_email job now u sid db h =
    let email = scrubbed_email u.id in
    elim (Bool-cases (any (λ o. not (o.id == u.id) && o.email == email) db.users)) [
      | inl taken ↦ rw taken tt
      | inr free ↦ elim (Bool-cases (any (λ o. o.id == u.id) db.users)) [
        | inl there ↦ rw (free, there) h
        | inr missing ↦ rw (free, missing) tt
      ]
    ]

erase-Keeps :
    (q : Queries)
    → IsSql q
    → (scrubbed_email : ℕ → ℕ) (job : FinalizeJob) (now : ℕ) (u : User) (db : Db)
    → any is_active_admin
        (update_where (is_target u.id) (scrubbed (scrubbed_email u.id) now) db.users)
      ≡ true
    → Keeps (erase q scrubbed_email job now u db)
unfolding erase erase_rows Keeps
erase-Keeps q sql scrubbed_email job now u db h =
    elim (Option-cases u.deletion_requested_session_id) [
      | inl nobody ↦ rw nobody tt
      | inr (sid, somebody) ↦ rw somebody (
          subst (λ m. Keeps (erase_rows m scrubbed_email job now u sid db)) (memory-eq q sql)
            (memory-Keeps q.continues q.generate_uuid q.fault scrubbed_email job now u sid db h))
    ]

finalize_due-Keeps :
    (q : Queries)
    → IsSql q
    → (scrubbed_email : ℕ → ℕ) (others : Db → Db) (job : FinalizeJob) (now : ℕ) (u : User) (db : Db)
    → count (is_target u.id) (others db).users ≤ 1
    → find? (is_target u.id) (others db).users ≡ some u
    → has_admin (others db) ≡ true
    → Keeps (finalize_due q scrubbed_email others job now u db)
unfolding finalize_due lock_active_admin_invariant
finalize_due-Keeps q sql scrubbed_email others job now u db key found then_some =
    let f = scrubbed (scrubbed_email u.id) now in
    let xs = (others db).users in
    let erased = erase-Keeps q sql scrubbed_email job now u (others db) in
    elim (Bool-cases (is_active_admin u)) [
      | inr plain ↦ rw plain (erased (unguarded u.id f xs key u found plain then_some))
      | inl an_admin ↦
          rw (an_admin, sql.find_many_lem User is_active_admin xs)
            (elim (Bool-cases (leb (length (filter is_active_admin xs)) 1)) [
              | inl alone ↦ rw alone (block-Keeps q scrubbed_email job u (others db) then_some)
              | inr more ↦ rw more (erased (guarded u.id f xs key more))
            ])
    ]

finalize_found-Keeps :
    (q : Queries)
    → IsSql q
    → (scrubbed_email : ℕ → ℕ) (others : Db → Db) (job : FinalizeJob) (now : ℕ) (u : User) (db : Db)
    → count (is_target u.id) (others db).users ≤ 1
    → find? (is_target u.id) (others db).users ≡ some u
    → has_admin db ≡ true
    → has_admin (others db) ≡ true
    → Keeps (finalize_found q scrubbed_email others job now u db)
unfolding finalize_found Keeps
finalize_found-Keeps q sql scrubbed_email others job now u db key found now_some then_some =
    let rest = finalize_due-Keeps q sql scrubbed_email others job now u db key found then_some in
    elim (Bool-cases (status_eq u.status deleted || is_some u.deleted_at)) [
      | inl gone ↦ rw gone now_some
      | inr present ↦ rw present (elim (Option-cases u.deletion_scheduled_for) [
        | inl never ↦ rw never now_some
        | inr (due, scheduled) ↦ rw scheduled (elim (Bool-cases (ltb now due)) [
          | inl early ↦ rw early now_some
          | inr in_time ↦ rw in_time rest
        ])
      ])
    ]

finalize_tx-Keeps :
    (q : Queries)
    → IsSql q
    → (scrubbed_email : ℕ → ℕ) (others : Db → Db) (job : FinalizeJob) (now : ℕ) (db : Db)
    → count (is_target job.user_id) (others db).users ≤ 1
    → find? (is_target job.user_id) (others db).users ≡ find? (is_target job.user_id) db.users
    → has_admin db ≡ true
    → has_admin (others db) ≡ true
    → Keeps (finalize_tx q scrubbed_email others job now db)
unfolding finalize_tx Keeps
finalize_tx-Keeps q sql scrubbed_email others job now db key kept now_some then_some =
    let mine = is_target job.user_id in
    rw (sql.find_unique_lem User mine db.users) (elim (Option-cases (find? mine db.users)) [
      | inl missing ↦ rw missing now_some
      | inr (u, found) ↦
          let own : u.id ≡ job.user_id =
            (==_iff u.id job.user_id).0 (find?-passes mine db.users u found) in
          rw found (
            finalize_found-Keeps q sql scrubbed_email others job now u db
              (subst (λ n. count (is_target n) (others db).users ≤ 1) (sym own) key)
              (subst (λ n. find? (is_target n) (others db).users ≡ some u) (sym own) (kept ∙ found))
              now_some then_some)
    ])

-- Finalizing a deletion, when it answers, leaves an active administrator, if there was one before
-- and after what other transactions committed between the first read and the lock or the update, and
-- if these did not change the user's row, which is unique by its id.
pub run_finalize_account_deletion_tx-has_admin :
    (q : Queries)
    → IsSql q
    → (scrubbed_email : ℕ → ℕ) (others : Db → Db) (job : FinalizeJob) (now : ℕ) (r : FinalizeResult)
      (db : Db)
    → count (is_target job.user_id) (others db).users ≤ 1
    → find? (is_target job.user_id) (others db).users ≡ find? (is_target job.user_id) db.users
    → has_admin db ≡ true
    → has_admin (others db) ≡ true
    → (run_finalize_account_deletion_tx q scrubbed_email others job now db).0 ≡ ok r
    → has_admin (run_finalize_account_deletion_tx q scrubbed_email others job now db).1 ≡ true
unfolding run_finalize_account_deletion_tx Keeps
run_finalize_account_deletion_tx-has_admin q sql scrubbed_email others job now r db key kept
      now_some then_some h =
    let ran =
      with_transaction_retry-ok q sql 3 is_retryable_transaction_error
        (finalize_tx q scrubbed_email others job now) db r h in
    subst Keeps ran
      (finalize_tx-Keeps q sql scrubbed_email others job now db key kept now_some then_some)
