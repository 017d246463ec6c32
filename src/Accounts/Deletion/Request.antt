-- ===== src/Accounts/Deletion/Request.antt =====
-- What a request for deletion and its cancellation do.
use backend_core_kit.Prelude.{
  ℕ, ◌==◌, ◌≡◌, ◌≢◌, ◌⊎◌, ◌≤◌, ◌<◌, refl, sym, ◌∙◌, ap, subst, arith, Bool, true, false, not, ◌&&◌,
  some, none, find?, any, count, update_where, List, [], ◌∷◌, ◌++◌, is_null, column_is,
  length-filter, find?-unique, any-update_where_of_any, Option-cases, inl, inr,
}
use backend_core_kit.Db.{Db, User, deleted, requested, ok}
use backend_core_kit.Db.Queries.{Queries, IsSql, memory-eq}
use backend_core_kit.Db.Retry.{with_transaction_retry-ok, is_retryable_transaction_error}
use backend_core_kit.Accounts.Admin.{is_active_admin, lock_active_admin_invariant}
use backend_core_kit.Accounts.Deletion.{
  DeletionInput, accepted, withdrawn, scheduled, unscheduled, audit_of, request_account_deletion,
  request_tx, request_found, write_request, cancel_account_deletion, cancel_tx, cancel_found,
}

abbrev pub is_user : ℕ → User → Bool
is_user n u = u.id == n

-- What holds of the stored user and of the database when a request has been accepted.
pub record IsAccepted (input : DeletionInput) (due : ℕ) (u : User) (seen after : Db) : Type 0 where
  pub present : u.status ≢ deleted
  pub not_scheduled : u.deletion_scheduled_for ≡ none
  pub not_last : (is_active_admin u ≡ false) ⊎ (1 < count is_active_admin seen.users)
  pub due_stored :
      any (λ x. is_user input.user_id x && column_is x.deletion_scheduled_for due) after.users
      ≡ true
  pub audited : after.deletion_audits ≡ seen.deletion_audits ++ audit_of input requested ∷ []

request_found-IsAccepted :
    (q : Queries)
    → IsSql q
    → (others : Db → Db) (input : DeletionInput) (now due : ℕ) (u v : User) (db : Db)
    → (request_found q others input now due u db).0 ≡ ok (accepted v)
    → IsAccepted input due u (others db) (request_found q others input now due u db).1
unfolding request_found write_request lock_active_admin_invariant
request_found-IsAccepted q sql others input now due u v db = rw (← memory-eq q sql) (λ h.
    let xs = (others db).users in
    let mine = is_user input.user_id in
    record {
      present = ground arith;
      not_scheduled = ground arith;
      not_last = ground (arith, length-filter is_active_admin xs);
      due_stored = ground (
        arith,
        any-update_where_of_any (λ x. mine x && column_is x.deletion_scheduled_for due) mine
            (scheduled input now due) mine xs (λ x m. ground arith),
      );
      audited = ground arith;
    })

-- When a request for deletion is accepted, the user that was read is not deleted and had no deletion
-- scheduled, and is no active administrator or one of several at the time of the lock; afterwards a
-- row under the user's id has the due date, and the audits have one row more.
pub request_account_deletion-IsAccepted :
    (q : Queries)
    → IsSql q
    → (others : Db → Db) (input : DeletionInput) (now due : ℕ) (v : User) (db : Db)
    → (request_account_deletion q others input now due db).0 ≡ ok (accepted v)
    → (u : User) × (find? (is_user input.user_id) db.users ≡ some u)
      × IsAccepted input due u (others db) (request_account_deletion q others input now due db).1
unfolding request_account_deletion request_tx
request_account_deletion-IsAccepted q sql others input now due v db h =
    let ran =
      with_transaction_retry-ok q sql 3 is_retryable_transaction_error
        (request_tx q others input now due) db (accepted v) h in
    let read = sql.find_unique_lem User (is_user input.user_id) db.users in
    elim (Option-cases (q.find_unique User (is_user input.user_id) db.users)) [
      | inl missing ↦ absurd (ground arith)
      | inr (u, found) ↦
          let same : request_found q others input now due u db
              ≡ (ok (accepted v), (request_account_deletion q others input now due db).1) =
            ground arith in
          (
            u,
            sym read ∙ found,
            subst (λ r. IsAccepted input due u (others db) r.1) same
                (request_found-IsAccepted q sql others input now due u v db (ap (λ r. r.0) same)),
          )
    ]

-- No trace of a request.
abbrev pub is_clear : User → Bool
is_clear u =
    is_null u.deletion_requested_at
    && is_null u.deletion_scheduled_for
    && is_null u.deletion_requested_session_id
    && is_null u.deletion_requested_trace_id

unscheduled-scheduled :
    (p : User → Bool) (input : DeletionInput) (now due : ℕ) (xs : List User)
    → ((x : User) → p (scheduled input now due x) ≡ p x)
    → any (λ x. p x && not (is_clear x)) xs ≡ false
    → update_where p unscheduled (update_where p (scheduled input now due) xs) ≡ xs
unscheduled-scheduled p input now due [] same h = refl
unscheduled-scheduled p input now due (x ∷ xs) same h =
    ground (arith, same x, unscheduled-scheduled p input now due xs same)

request_found-users :
    (q : Queries)
    → IsSql q
    → (input : DeletionInput) (now due : ℕ) (u v : User) (db : Db)
    → (request_found q (λ d. d) input now due u db).0 ≡ ok (accepted v)
    → (request_found q (λ d. d) input now due u db).1.users
      ≡ update_where (is_user input.user_id) (scheduled input now due) db.users
unfolding request_found write_request lock_active_admin_invariant
request_found-users q sql input now due u v db = rw (← memory-eq q sql) (λ h. ground arith)

cancel_found-users :
    (q : Queries)
    → IsSql q
    → (input : DeletionInput) (u v : User) (db : Db)
    → (cancel_found q input u db).0 ≡ ok (withdrawn v)
    → (cancel_found q input u db).1.users
      ≡ update_where (is_user input.user_id) unscheduled db.users
unfolding cancel_found
cancel_found-users q sql input u v db = rw (← memory-eq q sql) (λ h. ground arith)

request-users :
    (q : Queries)
    → IsSql q
    → (input : DeletionInput) (now due : ℕ) (v : User) (db : Db)
    → (request_account_deletion q (λ d. d) input now due db).0 ≡ ok (accepted v)
    → (request_account_deletion q (λ d. d) input now due db).1.users
      ≡ update_where (is_user input.user_id) (scheduled input now due) db.users
unfolding request_account_deletion request_tx
request-users q sql input now due v db h =
    let ran =
      with_transaction_retry-ok q sql 3 is_retryable_transaction_error
        (request_tx q (λ d. d) input now due) db (accepted v) h in
    elim (Option-cases (q.find_unique User (is_user input.user_id) db.users)) [
      | inl missing ↦ absurd (ground arith)
      | inr (u, found) ↦ ground (arith, request_found-users q sql input now due u v db)
    ]

cancel-users :
    (q : Queries)
    → IsSql q
    → (input : DeletionInput) (v : User) (db : Db)
    → (cancel_account_deletion q input db).0 ≡ ok (withdrawn v)
    → (cancel_account_deletion q input db).1.users
      ≡ update_where (is_user input.user_id) unscheduled db.users
unfolding cancel_account_deletion cancel_tx
cancel-users q sql input v db h =
    let ran =
      with_transaction_retry-ok q sql 3 is_retryable_transaction_error (cancel_tx q input) db
        (withdrawn v) h in
    elim (Option-cases (q.find_unique User (is_user input.user_id) db.users)) [
      | inl missing ↦ absurd (ground arith)
      | inr (u, found) ↦ ground (arith, cancel_found-users q sql input u v db)
    ]

-- When a request for deletion is accepted and then cancelled, with nothing else running, the users
-- are as before, if the user's row, unique by its id, had no trace of an earlier request.
pub cancel-request :
    (q : Queries)
    → IsSql q
    → (input later : DeletionInput) (now due : ℕ) (u v w : User) (db : Db)
    → later.user_id ≡ input.user_id
    → count (is_user input.user_id) db.users ≤ 1
    → find? (is_user input.user_id) db.users ≡ some u
    → is_clear u ≡ true
    → (request_account_deletion q (λ d. d) input now due db).0 ≡ ok (accepted v)
    → (cancel_account_deletion q later (request_account_deletion q (λ d. d) input now due db).1).0
      ≡ ok (withdrawn w)
    → (cancel_account_deletion q later
        (request_account_deletion q (λ d. d) input now due db).1).1.users
      ≡ db.users
cancel-request q sql input later now due u v w db same key found clear asked cancelled =
    let mid = (request_account_deletion q (λ d. d) input now due db).1 in
    let back =
      unscheduled-scheduled (is_user input.user_id) input now due db.users (λ x. refl)
        (find?-unique (is_user input.user_id) db.users u is_clear found key clear) in
    cancel-users q sql later w mid cancelled
    ∙ ap (λ n. update_where (is_user n) unscheduled mid.users) same
    ∙ ap (update_where (is_user input.user_id) unscheduled)
        (request-users q sql input now due v db asked)
    ∙ back
