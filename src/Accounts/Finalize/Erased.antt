-- ===== src/Accounts/Finalize/Erased.antt =====
-- A finalized deletion: what is left of the account, and that nothing else is touched.
use backend_core_kit.Prelude.{
  ℕ, ◌==◌, ◌≡◌, ◌≢◌, ◌≤◌, refl, sym, ◌∙◌, ap, subst, arith, Option, Bool-cases, Bool, true, false,
  not, ◌&&◌, some, none, find?, find?-passes, ==_iff, any, filter, update_where, Option-cases, inl,
  inr,
}
use backend_core_kit.Db.{Db, DbError, User, deleted, ok}
use backend_core_kit.Db.Queries.{Queries, IsSql, memory_with, memory-eq}
use backend_core_kit.Db.Retry.{with_transaction_retry-ok, is_retryable_transaction_error}
use backend_core_kit.Accounts.Admin.{lock_active_admin_invariant}
use backend_core_kit.Auth.Credentials.{session_of_user}
use backend_core_kit.Accounts.Finalize.{
  FinalizeJob, erased, scrubbed, nameless, block, erase_rows, erase, finalize_due, finalize_found,
  finalize_tx, run_finalize_account_deletion_tx,
}

-- The tables after the deletion of a user's account, from the tables when it was carried out: the
-- user's row is scrubbed, the profile has no names, what hangs on the user is gone, and what is
-- other users' is as it was.
pub record IsErased (uid email now : ℕ) (before after : Db) : Type 0 where
  pub row : after.users ≡ update_where (λ u. u.id == uid) (scrubbed email now) before.users
  pub present : any (λ u. u.id == uid) before.users ≡ true
  pub nobody_else : any (λ u. not (u.id == uid) && u.email == email) before.users ≡ false
  pub names : after.profiles ≡ update_where (λ p. p.user_id == uid) nameless before.profiles
  pub password : after.credentials ≡ filter (λ c. not (c.user_id == uid)) before.credentials
  pub linked_identities : after.identities ≡ filter (λ i. not (i.user_id == uid)) before.identities
  pub verifications :
      after.verification_tokens ≡ filter (λ t. not (t.user_id == uid)) before.verification_tokens
  pub resets : after.reset_tokens ≡ filter (λ t. not (t.user_id == uid)) before.reset_tokens
  pub sessions : after.sessions ≡ filter (λ s. not (s.user_id == uid)) before.sessions
  pub tokens :
      after.refresh_tokens
      ≡ filter (λ t. not (session_of_user before.sessions uid t)) before.refresh_tokens
  pub files : after.files ≡ before.files

memory-IsErased :
    (continues : Bool) (uuid : Db → ℕ) (faults : ℕ → Db → Option DbError) (scrubbed_email : ℕ → ℕ)
    (job : FinalizeJob) (now : ℕ) (u : User) (sid : ℕ) (db : Db)
    → let r = erase_rows (memory_with continues uuid faults) scrubbed_email job now u sid db in
      r.0 ≡ ok erased → IsErased u.id (scrubbed_email u.id) now db r.1
unfolding erase_rows
memory-IsErased continues uuid faults scrubbed_email job now u sid db =
    let email = scrubbed_email u.id in
    elim (Bool-cases (any (λ o. not (o.id == u.id) && o.email == email) db.users)) [
      | inl taken ↦ rw taken (λ h. cc h)
      | inr free ↦ elim (Bool-cases (any (λ o. o.id == u.id) db.users)) [
        | inr missing ↦ rw (free, missing) (λ h. cc h)
        | inl there ↦
            rw (free, there)
              (λ h. record {
                row = refl;
                present = there;
                nobody_else = free;
                names = refl;
                password = refl;
                linked_identities = refl;
                verifications = refl;
                resets = refl;
                sessions = refl;
                tokens = refl;
                files = refl;
              })
      ]
    ]

erase_rows-IsErased :
    (q : Queries)
    → IsSql q
    → (scrubbed_email : ℕ → ℕ) (job : FinalizeJob) (now : ℕ) (u : User) (sid : ℕ) (db : Db)
    → (erase_rows q scrubbed_email job now u sid db).0 ≡ ok erased
    → IsErased u.id (scrubbed_email u.id) now db (erase_rows q scrubbed_email job now u sid db).1
erase_rows-IsErased q sql scrubbed_email job now u sid db =
    subst
      (λ m.
        (erase_rows m scrubbed_email job now u sid db).0 ≡ ok erased
        → IsErased u.id (scrubbed_email u.id) now db
            (erase_rows m scrubbed_email job now u sid db).1)
      (memory-eq q sql)
      (memory-IsErased q.continues q.generate_uuid q.fault scrubbed_email job now u sid db)

-- What the deletion found: an account that is not deleted and whose time has come, read before
-- others committed, and what it did to the tables that they left.
pub record IsFinalized (uid email now : ℕ) (u : User) (seen after : Db) : Type 0 where
  pub present : u.status ≢ deleted
  pub never_deleted : u.deleted_at ≡ none
  pub due : (d : ℕ) × (u.deletion_scheduled_for ≡ some d) × (d ≤ now)
  pub is_erased : IsErased uid email now seen after

finalize_found-runs :
    (q : Queries) (scrubbed_email : ℕ → ℕ) (others : Db → Db) (job : FinalizeJob) (now : ℕ)
    (u : User) (db : Db)
    → (finalize_found q scrubbed_email others job now u db).0 ≡ ok erased
    → (u.status ≢ deleted)
      × (u.deleted_at ≡ none)
      × ((d : ℕ) × (u.deletion_scheduled_for ≡ some d) × (d ≤ now))
      × ((sid : ℕ) × (finalize_found q scrubbed_email others job now u db
            ≡ erase_rows q scrubbed_email job now u sid (others db)))
unfolding finalize_found finalize_due lock_active_admin_invariant block erase
finalize_found-runs q scrubbed_email others job now u db h =
    elim (Option-cases u.deletion_scheduled_for) [
      | inl unscheduled ↦ absurd (ground arith)
      | inr (d, scheduled) ↦ elim (Option-cases u.deletion_requested_session_id) [
        | inl nobody ↦ absurd (ground arith)
        | inr (sid, somebody) ↦
            (ground arith, ground arith, (d, scheduled, ground arith), (sid, ground arith))
      ]
    ]

finalize_found-IsFinalized :
    (q : Queries)
    → IsSql q
    → (scrubbed_email : ℕ → ℕ) (others : Db → Db) (job : FinalizeJob) (now : ℕ) (u : User) (db : Db)
    → (finalize_found q scrubbed_email others job now u db).0 ≡ ok erased
    → IsFinalized u.id
        (scrubbed_email u.id)
        now
        u
        (others db)
        (finalize_found q scrubbed_email others job now u db).1
finalize_found-IsFinalized q sql scrubbed_email others job now u db h =
    let (present, never_deleted, due, (sid, same)) =
      finalize_found-runs q scrubbed_email others job now u db h in
    record {
      present = present;
      never_deleted = never_deleted;
      due = due;
      is_erased =
          subst (λ r. IsErased u.id (scrubbed_email u.id) now (others db) r.1) (sym same)
            (erase_rows-IsErased q sql scrubbed_email job now u sid (others db)
              (ap (λ r. r.0) (sym same) ∙ h));
    }

finalize_tx-IsFinalized :
    (q : Queries)
    → IsSql q
    → (scrubbed_email : ℕ → ℕ) (others : Db → Db) (job : FinalizeJob) (now : ℕ) (db : Db)
    → (finalize_tx q scrubbed_email others job now db).0 ≡ ok erased
    → (u : User) × (find? (λ r. r.id == job.user_id) db.users ≡ some u)
      × IsFinalized job.user_id
          (scrubbed_email job.user_id)
          now
          u
          (others db)
          (finalize_tx q scrubbed_email others job now db).1
unfolding finalize_tx
finalize_tx-IsFinalized q sql scrubbed_email others job now db =
    let mine = λ (r : User). r.id == job.user_id in
    rw (sql.find_unique_lem User mine db.users) (elim (Option-cases (find? mine db.users)) [
      | inl missing ↦ rw missing (λ h. cc h)
      | inr (u, found) ↦ rw found (λ h.
          let own : u.id ≡ job.user_id =
            (==_iff u.id job.user_id).0 (find?-passes mine db.users u found) in
          (
            u,
            refl,
            subst
                (λ n.
                  IsFinalized n (scrubbed_email n) now u (others db)
                    (finalize_found q scrubbed_email others job now u db).1)
                own (finalize_found-IsFinalized q sql scrubbed_email others job now u db h),
          ))
    ])

-- An account is erased only if the row that was read first is not deleted and its time has come; the
-- user's row, which is there then, is scrubbed to an e-mail that nobody else has, the names of the
-- profile are gone, the password, the identities, the tokens and the sessions of the user are
-- deleted, and so are the refresh tokens of these sessions. The rows of other users, and the stored
-- files, are as other transactions left them, whatever these committed after the first read.
pub run_finalize_account_deletion_tx-IsFinalized :
    (q : Queries)
    → IsSql q
    → (scrubbed_email : ℕ → ℕ) (others : Db → Db) (job : FinalizeJob) (now : ℕ) (db : Db)
    → (run_finalize_account_deletion_tx q scrubbed_email others job now db).0 ≡ ok erased
    → (u : User) × (find? (λ r. r.id == job.user_id) db.users ≡ some u)
      × IsFinalized job.user_id
          (scrubbed_email job.user_id)
          now
          u
          (others db)
          (run_finalize_account_deletion_tx q scrubbed_email others job now db).1
unfolding run_finalize_account_deletion_tx
run_finalize_account_deletion_tx-IsFinalized q sql scrubbed_email others job now db h =
    let ran =
      with_transaction_retry-ok q sql 3 is_retryable_transaction_error
        (finalize_tx q scrubbed_email others job now) db erased h in
    let (u, found, done) =
      finalize_tx-IsFinalized q sql scrubbed_email others job now db (ap (λ r. r.0) ran) in
    (
      u,
      found,
      subst (λ after. IsFinalized job.user_id (scrubbed_email job.user_id) now u (others db) after)
          (ap (λ r. r.1) ran) done,
    )
