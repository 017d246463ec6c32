-- ===== src/Accounts/Finalize.antt =====
-- apps/worker/src/jobs/users-account-deletion.handlers.ts, runFinalizeAccountDeletionTx: the deletion
-- of an account when it is due.
pub mod Tests
pub mod Erased
pub mod LastAdmin
use backend_core_kit.Prelude.{
  ℕ, ◌==◌, ltb, leb, Bool, true, false, ◌&&◌, ◌||◌, Option, none, some, is_null, is_some, or_else,
  if◌then◌else◌,
}
use backend_core_kit.Db.{
  Db, session_missing, User, user, deleted, status_eq, UserProfile, DeletionAudit, DeletionAction,
  finalized, finalize_blocked_last_admin,
}
use backend_core_kit.Db.Queries.{Queries, Action}
use backend_core_kit.Db.Retry.{with_retry}
use backend_core_kit.Db.Client.{
  ◌>>=◌, ◌>>◌, pure, throw, meanwhile, find_user, update_user_email, update_profiles,
  delete_credentials, delete_identities, delete_verification_tokens, delete_reset_tokens,
  delete_sessions,
}
use backend_core_kit.Accounts.Admin.{is_active_admin, lock_active_admin_invariant, add_status_audit}
use backend_core_kit.Accounts.Deletion.{add_deletion_audit}

pub record FinalizeJob : Type 0 where
  pub user_id : ℕ
  -- The trace id for a request that has none: `job:` and the job's id, or `unknown`.
  pub job_trace_id : ℕ

pub data FinalizeResult : Type 0 where
  no_user already_deleted not_scheduled blocked_last_admin erased : FinalizeResult
  not_due : ℕ → FinalizeResult

abbrev pub trace_of : FinalizeJob → User → ℕ
trace_of job u = or_else u.deletion_requested_trace_id job.job_trace_id

-- The user's row after the deletion.
abbrev pub scrubbed : ℕ → ℕ → User → User
scrubbed email now u = record u {
  email = email;
  email_verified_at = none;
  role = user;
  status = deleted;
  deleted_at = some now;
  deletion_requested_at = none;
  deletion_scheduled_for = none;
  deletion_requested_session_id = none;
  deletion_requested_trace_id = none;
  suspended_at = none;
  suspended_reason = none;
}

abbrev pub nameless : UserProfile → UserProfile
nameless p = record p { display_name = none; given_name = none; family_name = none }

abbrev pub finalize_audit : FinalizeJob → User → ℕ → DeletionAction → DeletionAudit
finalize_audit job u session_id action = record {
  actor_user_id = u.id;
  actor_session_id = session_id;
  target_user_id = u.id;
  action = action;
  trace_id = trace_of job u;
}

-- `scrubbed_email` is the text `deleted+${user.id}@example.invalid`.
module _ (q : Queries) (scrubbed_email : ℕ → ℕ) where
  unfoldable pub block : FinalizeJob → User → Action FinalizeResult
  block job u = elim u.deletion_requested_session_id [
    | none ↦ throw session_missing
    | some session_id ↦ (do
      add_deletion_audit (finalize_audit job u session_id finalize_blocked_last_admin)
      pure blocked_last_admin)
  ]

  unfoldable pub erase_rows : FinalizeJob → ℕ → User → ℕ → Action FinalizeResult
  erase_rows job now u session_id = do
    update_user_email q (λ r. r.id == u.id) (scrubbed (scrubbed_email u.id) now)
        (scrubbed_email u.id)
    update_profiles q (λ p. p.user_id == u.id) nameless
    delete_credentials q (λ c. c.user_id == u.id)
    delete_identities q (λ i. i.user_id == u.id)
    delete_verification_tokens q (λ t. t.user_id == u.id)
    delete_reset_tokens q (λ t. t.user_id == u.id)
    delete_sessions q (λ s. s.user_id == u.id)
    add_status_audit (record {
      actor_user_id = u.id;
      actor_session_id = session_id;
      target_user_id = u.id;
      old_status = u.status;
      new_status = deleted;
      reason = none;
      trace_id = trace_of job u;
    })
    add_deletion_audit (finalize_audit job u session_id finalized)
    pure erased

  unfoldable pub erase : FinalizeJob → ℕ → User → Action FinalizeResult
  erase job now u = elim u.deletion_requested_session_id [
    | none ↦ throw session_missing
    | some session_id ↦ erase_rows job now u session_id
  ]

  -- `others` is what other transactions commit between the first read and the lock or the update.
  unfoldable pub finalize_due : (Db → Db) → FinalizeJob → ℕ → User → Action FinalizeResult
  finalize_due others job now u =
      if is_active_admin u
      then (do
        meanwhile others
        admins ← lock_active_admin_invariant q
        if leb admins 1 then block job u else erase job now u)
      else (do meanwhile others; erase job now u)

  unfoldable pub finalize_found : (Db → Db) → FinalizeJob → ℕ → User → Action FinalizeResult
  finalize_found others job now u =
      if status_eq u.status deleted || is_some u.deleted_at
      then pure already_deleted
      else elim u.deletion_scheduled_for [
        | none ↦ pure not_scheduled
        | some due ↦ if ltb now due then pure (not_due due) else finalize_due others job now u
      ]

  unfoldable pub finalize_tx : (Db → Db) → FinalizeJob → ℕ → Action FinalizeResult
  finalize_tx others job now = do
    found ← find_user q (λ u. u.id == job.user_id)
    elim found [ none ↦ pure no_user | some u ↦ finalize_found others job now u ]

  unfoldable pub run_finalize_account_deletion_tx :
      (Db → Db) → FinalizeJob → ℕ → Action FinalizeResult
  run_finalize_account_deletion_tx others job now = with_retry q (finalize_tx others job now)
