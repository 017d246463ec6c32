-- ===== src/Accounts/Admin/Tests.antt =====
-- Changes of roles and statuses on a small database, and the race.
use backend_core_kit.Prelude.{◌≡◌, refl, arith, true, false, none, some, [], ◌∷◌}
use backend_core_kit.Db.{Db, ok, User, user, suspended}
use backend_core_kit.Db.Queries.{memory-IsSql}
use backend_core_kit.Db.Retry.{with_transaction_retry, retry_loop}
use backend_core_kit.Db.Samples.{client, sample, first_admin, second_admin}
use backend_core_kit.Accounts.Admin.{
  SetUserRoleInput, SetUserStatusInput, done, to_suspended, set_user_role, set_user_role_tx,
  change_role, write_role, lock_active_admin_invariant, set_user_status, set_user_status_tx,
  change_status, write_status, revoke_suspended,
}
use backend_core_kit.Accounts.Admin.LastAdmin.{
  has_admin, set_user_role-has_admin, set_user_status-has_admin, set_user_role-race,
}

abbrev demote : SetUserRoleInput
demote = record {
  actor_user_id = 3;
  actor_session_id = 9;
  target_user_id = 2;
  role = user;
  trace_id = 70;
}

abbrev suspend : SetUserStatusInput
suspend = record {
  actor_user_id = 3;
  actor_session_id = 9;
  target_user_id = 2;
  status = to_suspended;
  reason = none;
  trace_id = 70;
  now = 5;
}

abbrev quiet : Db → Db
quiet db = db

abbrev demoted : User
demoted = record first_admin { role = user }

abbrev put_on_hold : User
put_on_hold = record first_admin { status = suspended; suspended_at = some 5 }

role_change_commits : (set_user_role client quiet demote sample).0 ≡ ok (done demoted)
unfolding set_user_role with_transaction_retry retry_loop set_user_role_tx change_role write_role
    lock_active_admin_invariant
role_change_commits = refl

sample_suspended : (set_user_status client quiet suspend sample).0 ≡ ok (done put_on_hold)
unfolding set_user_status with_transaction_retry retry_loop set_user_status_tx change_status
    write_status lock_active_admin_invariant revoke_suspended
sample_suspended = refl

set_user_role-has_admin_example : has_admin (set_user_role client quiet demote sample).1 ≡ true
set_user_role-has_admin_example =
    set_user_role-has_admin client (memory-IsSql (λ db. 99) (λ n db. none)) quiet demote
      (done demoted) sample (omega arith) refl refl refl role_change_commits

set_user_status-has_admin_example : has_admin (set_user_status client quiet suspend sample).1 ≡ true
set_user_status-has_admin_example =
    set_user_status-has_admin client (memory-IsSql (λ db. 99) (λ n db. none)) quiet suspend
      (done put_on_hold) sample (omega arith) refl refl refl sample_suspended

-- One administrator is suspended, the other is active.
abbrev one_suspended : Db
one_suspended = record sample {
  users = record first_admin { status = suspended } ∷ second_admin ∷ [];
}

-- The suspended one is reactivated, and then the other one's role is taken away.
abbrev swap : Db → Db
swap db = record db { users = first_admin ∷ record second_admin { role = user } ∷ [] }

race_demoted : (set_user_role client swap demote one_suspended).0 ≡ ok (done demoted)
unfolding set_user_role with_transaction_retry retry_loop set_user_role_tx change_role write_role
race_demoted = refl

set_user_role-race_example : has_admin (set_user_role client swap demote one_suspended).1 ≡ false
set_user_role-race_example =
    set_user_role-race client (memory-IsSql (λ db. 99) (λ n db. none)) swap demote
      (record first_admin { status = suspended }) (done demoted) one_suspended refl refl refl refl
      refl race_demoted
