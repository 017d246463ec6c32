-- ===== src/Accounts/Admin.antt =====
-- libs/features/admin/infra/persistence/prisma-admin-users.repository.ts, setUserRole and
-- setUserStatus, with libs/platform/db/row-locks.ts.
pub mod Tests
pub mod LastAdmin
pub mod Spent
use backend_core_kit.Prelude.{
  ℕ, ◌==◌, leb, Bool, true, false, not, ◌&&◌, ◌||◌, Option, none, some, List, [], ◌∷◌, ◌++◌, length,
  any, is_null, or_else, if◌then◌else◌,
}
use backend_core_kit.Db.{
  Db, User, UserRole, user, admin, UserStatus, active, suspended, deleted, role_eq, status_eq,
  Session, RefreshToken, RoleChangeAudit, StatusChangeAudit, Result, ok, err,
}
use backend_core_kit.Db.Queries.{Queries, Action}
use backend_core_kit.Db.Retry.{with_retry}
use backend_core_kit.Db.Client.{
  ◌>>=◌, ◌>>◌, pure, meanwhile, find_user, update_users, update_sessions, update_tokens,
}
use backend_core_kit.Auth.Credentials.{session_of_user}
use backend_core_kit.Auth.RefreshTokens.{token_revoked}

pub record SetUserRoleInput : Type 0 where
  pub actor_user_id : ℕ
  pub actor_session_id : ℕ
  pub target_user_id : ℕ
  pub role : UserRole
  pub trace_id : ℕ

-- The statuses that an administrator can set.
pub data NextStatus : Type 0 where
  to_active to_suspended : NextStatus

pub record SetUserStatusInput : Type 0 where
  pub actor_user_id : ℕ
  pub actor_session_id : ℕ
  pub target_user_id : ℕ
  pub status : NextStatus
  -- Not given, or null, or a text.
  pub reason : Option (Option ℕ)
  pub trace_id : ℕ
  pub now : ℕ

pub data SetUserResult : Type 0 where
  not_found last_admin : SetUserResult
  done : User → SetUserResult

abbrev pub is_active_admin : User → Bool
is_active_admin u = role_eq u.role admin && status_eq u.status active

abbrev pub next_status : NextStatus → UserStatus
next_status to_active = active
next_status to_suspended = suspended

-- The update of a status: a reason that is not given leaves the old one.
abbrev pub with_status : SetUserStatusInput → NextStatus → User → User
with_status input to_suspended u = record u {
  status = suspended;
  suspended_at = some input.now;
  suspended_reason = or_else input.reason u.suspended_reason;
}
with_status input to_active u = record u {
  status = active;
  suspended_at = none;
  suspended_reason = none;
}

abbrev audited_reason : NextStatus → Option (Option ℕ) → Option ℕ
audited_reason to_suspended reason = or_else reason none
audited_reason to_active reason = none

abbrev pub add_role_audit : RoleChangeAudit → Action (Unit {0})
add_role_audit a db = (ok tt, record db { role_audits = db.role_audits ++ a ∷ [] })

abbrev pub add_status_audit : StatusChangeAudit → Action (Unit {0})
add_status_audit a db = (ok tt, record db { status_audits = db.status_audits ++ a ∷ [] })

module _ (q : Queries) where
  -- SELECT id FROM "User" WHERE role = 'ADMIN' AND status = 'ACTIVE' FOR UPDATE, counted.
  unfoldable pub lock_active_admin_invariant : Action ℕ
  lock_active_admin_invariant db = (ok (length (q.find_many User is_active_admin db.users)), db)

  -- The update answers the row that it wrote, which is read here by its id.
  pub write_role : SetUserRoleInput → User → Action SetUserResult
  write_role input found = do
    update_users q (λ u. u.id == input.target_user_id) (λ u. record u { role = input.role })
    add_role_audit (record {
      actor_user_id = input.actor_user_id;
      actor_session_id = input.actor_session_id;
      target_user_id = input.target_user_id;
      old_role = found.role;
      new_role = input.role;
      trace_id = input.trace_id;
    })
    updated ← find_user q (λ u. u.id == input.target_user_id)
    pure (done (or_else updated found))

  -- `others` is what other transactions commit between the first read and the lock or the update:
  -- the isolation is READ COMMITTED. An attempt that fails is rolled back together with them, so
  -- the theorems speak of attempts that commit.
  pub change_role : (Db → Db) → SetUserRoleInput → User → Action SetUserResult
  change_role others input found =
      if status_eq found.status deleted
      then pure not_found
      else if role_eq found.role input.role
      then pure (done found)
      else if is_active_admin found && not (role_eq input.role admin)
      then (do
        meanwhile others
        admins ← lock_active_admin_invariant
        if leb admins 1 then pure last_admin else write_role input found)
      else (do meanwhile others; write_role input found)

  pub set_user_role_tx : (Db → Db) → SetUserRoleInput → Action SetUserResult
  set_user_role_tx others input = do
    found ← find_user q (λ u. u.id == input.target_user_id)
    elim found [ none ↦ pure not_found | some u ↦ change_role others input u ]

  unfoldable pub set_user_role : (Db → Db) → SetUserRoleInput → Action SetUserResult
  set_user_role others input = with_retry q (set_user_role_tx others input)

  pub revoke_suspended : ℕ → ℕ → NextStatus → Action (Unit {0})
  revoke_suspended user_id now to_active = pure tt
  revoke_suspended user_id now to_suspended = do
    update_sessions q (λ s. s.user_id == user_id && is_null s.revoked_at)
        (λ s. record s { revoked_at = some now; active_key = none })
    (λ db.
        update_tokens q (λ t. is_null t.revoked_at && session_of_user db.sessions user_id t)
          (token_revoked now) db)
    pure tt

  pub write_status : SetUserStatusInput → User → Action SetUserResult
  write_status input found = do
    update_users q (λ u. u.id == input.target_user_id) (with_status input input.status)
    add_status_audit (record {
      actor_user_id = input.actor_user_id;
      actor_session_id = input.actor_session_id;
      target_user_id = input.target_user_id;
      old_status = found.status;
      new_status = next_status input.status;
      reason = audited_reason input.status input.reason;
      trace_id = input.trace_id;
    })
    revoke_suspended input.target_user_id input.now input.status
    updated ← find_user q (λ u. u.id == input.target_user_id)
    pure (done (or_else updated found))

  pub change_status : (Db → Db) → SetUserStatusInput → User → Action SetUserResult
  change_status others input found =
      if status_eq found.status deleted
      then pure not_found
      else if status_eq found.status (next_status input.status)
      then pure (done found)
      else if is_active_admin found && status_eq (next_status input.status) suspended
      then (do
        meanwhile others
        admins ← lock_active_admin_invariant
        if leb admins 1 then pure last_admin else write_status input found)
      else (do meanwhile others; write_status input found)

  pub set_user_status_tx : (Db → Db) → SetUserStatusInput → Action SetUserResult
  set_user_status_tx others input = do
    found ← find_user q (λ u. u.id == input.target_user_id)
    elim found [ none ↦ pure not_found | some u ↦ change_status others input u ]

  unfoldable pub set_user_status : (Db → Db) → SetUserStatusInput → Action SetUserResult
  set_user_status others input = with_retry q (set_user_status_tx others input)
