-- ===== src/Accounts/Deletion.antt =====
-- Deletion of the own account: requestAccountDeletion and cancelAccountDeletion of
-- libs/features/users/infra/persistence/prisma-users.repository.ts.
pub mod Tests
pub mod Request
use backend_core_kit.Prelude.{
  ℕ, ◌==◌, ◌+◌, ◌*◌, leb, Bool, true, false, ◌&&◌, Option, none, some, List, [], ◌∷◌, ◌++◌, is_null,
  is_some, or_else, if◌then◌else◌,
}
use backend_core_kit.Db.{
  Db, User, DeletionAudit, DeletionAction, requested, canceled, deleted, status_eq, Result, ok, err,
}
use backend_core_kit.Db.Queries.{Queries, Action}
use backend_core_kit.Db.Retry.{with_retry}
use backend_core_kit.Db.Client.{◌>>=◌, ◌>>◌, pure, meanwhile, find_user, update_users}
use backend_core_kit.Accounts.Admin.{is_active_admin, lock_active_admin_invariant}

pub record DeletionInput : Type 0 where
  pub user_id : ℕ
  pub session_id : ℕ
  pub trace_id : ℕ

pub data RequestResult : Type 0 where
  not_found last_admin : RequestResult
  already_requested accepted : User → RequestResult

pub data CancelResult : Type 0 where
  no_user : CancelResult
  not_requested withdrawn : User → CancelResult

abbrev pub add_deletion_audit : DeletionAudit → Action (Unit {0})
add_deletion_audit a db = (ok tt, record db { deletion_audits = db.deletion_audits ++ a ∷ [] })

abbrev pub audit_of : DeletionInput → DeletionAction → DeletionAudit
audit_of input action = record {
  actor_user_id = input.user_id;
  actor_session_id = input.session_id;
  target_user_id = input.user_id;
  action = action;
  trace_id = input.trace_id;
}

abbrev pub scheduled : DeletionInput → ℕ → ℕ → User → User
scheduled input now due u = record u {
  deletion_requested_at = some now;
  deletion_scheduled_for = some due;
  deletion_requested_session_id = some input.session_id;
  deletion_requested_trace_id = some input.trace_id;
}

abbrev pub unscheduled : User → User
unscheduled u = record u {
  deletion_requested_at = none;
  deletion_scheduled_for = none;
  deletion_requested_session_id = none;
  deletion_requested_trace_id = none;
}

module _ (q : Queries) where
  pub write_request : DeletionInput → ℕ → ℕ → User → Action RequestResult
  write_request input now due u =
      if is_some u.deletion_scheduled_for then pure (already_requested u) else (do
        update_users q (λ r. r.id == input.user_id) (scheduled input now due)
        updated ← find_user q (λ r. r.id == input.user_id)
        add_deletion_audit (audit_of input requested)
        pure (accepted (or_else updated u)))

  -- `others` is what other transactions commit between the first read and the lock or the update.
  pub request_found : (Db → Db) → DeletionInput → ℕ → ℕ → User → Action RequestResult
  request_found others input now due u =
      if status_eq u.status deleted
      then pure not_found
      else if is_active_admin u && is_null u.deletion_scheduled_for
      then (do
        meanwhile others
        admins ← lock_active_admin_invariant q
        if leb admins 1 then pure last_admin else write_request input now due u)
      else (do meanwhile others; write_request input now due u)

  pub request_tx : (Db → Db) → DeletionInput → ℕ → ℕ → Action RequestResult
  request_tx others input now due = do
    found ← find_user q (λ u. u.id == input.user_id)
    elim found [ none ↦ pure not_found | some u ↦ request_found others input now due u ]

  unfoldable pub request_account_deletion : (Db → Db) → DeletionInput → ℕ → ℕ → Action RequestResult
  request_account_deletion others input now due = with_retry q (request_tx others input now due)

  pub cancel_found : DeletionInput → User → Action CancelResult
  cancel_found input u =
      if status_eq u.status deleted
      then pure no_user
      else if is_null u.deletion_scheduled_for
      then pure (not_requested u)
      else (do
        update_users q (λ r. r.id == input.user_id) unscheduled
        updated ← find_user q (λ r. r.id == input.user_id)
        add_deletion_audit (audit_of input canceled)
        pure (withdrawn (or_else updated u)))

  pub cancel_tx : DeletionInput → Action CancelResult
  cancel_tx input = do
    found ← find_user q (λ u. u.id == input.user_id)
    elim found [ none ↦ pure no_user | some u ↦ cancel_found input u ]

  unfoldable pub cancel_account_deletion : DeletionInput → Action CancelResult
  cancel_account_deletion input = with_retry q (cancel_tx input)
