-- ===== src/Accounts/Admin/LastAdmin.antt =====
-- There is always an active administrator left.
use backend_core_kit.Prelude.{
  ℕ, ◌==◌, ◌≡◌, ◌≤◌, ◌<◌, arith, Bool, true, false, not, ◌&&◌, leb, some, find?, any, count, filter,
  length, update_where, List, length-filter, count-update_where, any-update_where_other,
  any_of_count, find?-unique, any-update_where_of_any, Option-cases, inl, inr, sym, ◌∙◌,
  any-update_where_keep,
}
use backend_core_kit.Db.{Db, User, user, admin, suspended, ok}
use backend_core_kit.Db.Queries.{Queries, IsSql, memory-eq}
use backend_core_kit.Db.Retry.{with_transaction_retry-ok, is_retryable_transaction_error}
use backend_core_kit.Accounts.Admin.{
  is_active_admin, SetUserRoleInput, SetUserStatusInput, SetUserResult, set_user_role,
  set_user_role_tx, change_role, write_role, lock_active_admin_invariant, set_user_status,
  set_user_status_tx, change_status, write_status, revoke_suspended, with_status,
}

abbrev pub has_admin : Db → Bool
has_admin db = any is_active_admin db.users

abbrev pub is_target : ℕ → User → Bool
is_target t u = u.id == t

module _ (t : ℕ) (f : User → User) (xs : List User) (key : count (is_target t) xs ≤ 1) where
  -- With two active administrators one can be changed.
  pub guarded :
      leb (length (filter is_active_admin xs)) 1 ≡ false
      → any is_active_admin (update_where (is_target t) f xs) ≡ true
  guarded h =
      let more : 1 < count is_active_admin xs = ground (arith, length-filter is_active_admin xs) in
      any_of_count is_active_admin (update_where (is_target t) f xs)
        (omega (arith, count-update_where is_active_admin (is_target t) f xs))

  -- Somebody who is no active administrator can be changed.
  pub unguarded :
      (u : User)
      → find? (is_target t) xs ≡ some u
      → is_active_admin u ≡ false
      → any is_active_admin xs ≡ true
      → any is_active_admin (update_where (is_target t) f xs) ≡ true
  unguarded u found plain e =
      any-update_where_other is_active_admin (is_target t) f xs e
        (find?-unique (is_target t) xs u (λ x. not (is_active_admin x)) found key (ground arith))

change_role-has_admin :
    (q : Queries)
    → IsSql q
    → (others : Db → Db) (input : SetUserRoleInput) (u : User) (r : SetUserResult) (db : Db)
    → count (is_target input.target_user_id) (others db).users ≤ 1
    → find? (is_target input.target_user_id) (others db).users ≡ some u
    → has_admin db ≡ true
    → has_admin (others db) ≡ true
    → (change_role q others input u db).0 ≡ ok r
    → has_admin (change_role q others input u db).1 ≡ true
unfolding change_role write_role lock_active_admin_invariant
change_role-has_admin q sql others input u r db =
    rw (← memory-eq q sql) (λ key found now_some then_some h.
      let t = input.target_user_id in
      let f = λ (x : User). record x { role = input.role } in
      let xs = (others db).users in
      ground (
        arith,
        guarded t f xs key,
        unguarded t f xs key u found,
        any-update_where_of_any is_active_admin (is_target t) f is_active_admin xs,
      ))

change_status-has_admin :
    (q : Queries)
    → IsSql q
    → (others : Db → Db) (input : SetUserStatusInput) (u : User) (r : SetUserResult) (db : Db)
    → count (is_target input.target_user_id) (others db).users ≤ 1
    → find? (is_target input.target_user_id) (others db).users ≡ some u
    → has_admin db ≡ true
    → has_admin (others db) ≡ true
    → (change_status q others input u db).0 ≡ ok r
    → has_admin (change_status q others input u db).1 ≡ true
unfolding change_status write_status lock_active_admin_invariant revoke_suspended
change_status-has_admin q sql others input u r db =
    rw (← memory-eq q sql) (λ key found now_some then_some h.
      let t = input.target_user_id in
      let f = with_status input input.status in
      let xs = (others db).users in
      ground (
        arith,
        guarded t f xs key,
        unguarded t f xs key u found,
        any-update_where_of_any is_active_admin (is_target t) f is_active_admin xs,
      ))

set_user_role_tx-has_admin :
    (q : Queries)
    → IsSql q
    → (others : Db → Db) (input : SetUserRoleInput) (r : SetUserResult) (db : Db)
    → count (is_target input.target_user_id) (others db).users ≤ 1
    → find? (is_target input.target_user_id) (others db).users
      ≡ find? (is_target input.target_user_id) db.users
    → has_admin db ≡ true
    → has_admin (others db) ≡ true
    → (set_user_role_tx q others input db).0 ≡ ok r
    → has_admin (set_user_role_tx q others input db).1 ≡ true
unfolding set_user_role_tx
set_user_role_tx-has_admin q sql others input r db key kept now_some then_some h =
    let t = input.target_user_id in
    let read = sql.find_unique_lem User (is_target t) db.users in
    elim (Option-cases (q.find_unique User (is_target t) db.users)) [
      | inl missing ↦ ground arith
      | inr (u, found) ↦ ground (
        arith,
        change_role-has_admin q sql others input u r db key (kept ∙ sym read ∙ found) now_some
            then_some,
      )
    ]

-- Setting a role, when it succeeds, leaves an active administrator, if there was one before and
-- after what other transactions committed between the first read and the lock or the update, and if
-- these did not change the target's row, which is unique by its id.
pub set_user_role-has_admin :
    (q : Queries)
    → IsSql q
    → (others : Db → Db) (input : SetUserRoleInput) (r : SetUserResult) (db : Db)
    → count (is_target input.target_user_id) (others db).users ≤ 1
    → find? (is_target input.target_user_id) (others db).users
      ≡ find? (is_target input.target_user_id) db.users
    → has_admin db ≡ true
    → has_admin (others db) ≡ true
    → (set_user_role q others input db).0 ≡ ok r
    → has_admin (set_user_role q others input db).1 ≡ true
unfolding set_user_role
set_user_role-has_admin q sql others input r db key kept now_some then_some h = ground (
  arith,
  with_transaction_retry-ok q sql 3 is_retryable_transaction_error (set_user_role_tx q others input)
      db r h,
  set_user_role_tx-has_admin q sql others input r db key kept now_some then_some,
)

set_user_status_tx-has_admin :
    (q : Queries)
    → IsSql q
    → (others : Db → Db) (input : SetUserStatusInput) (r : SetUserResult) (db : Db)
    → count (is_target input.target_user_id) (others db).users ≤ 1
    → find? (is_target input.target_user_id) (others db).users
      ≡ find? (is_target input.target_user_id) db.users
    → has_admin db ≡ true
    → has_admin (others db) ≡ true
    → (set_user_status_tx q others input db).0 ≡ ok r
    → has_admin (set_user_status_tx q others input db).1 ≡ true
unfolding set_user_status_tx
set_user_status_tx-has_admin q sql others input r db key kept now_some then_some h =
    let t = input.target_user_id in
    let read = sql.find_unique_lem User (is_target t) db.users in
    elim (Option-cases (q.find_unique User (is_target t) db.users)) [
      | inl missing ↦ ground arith
      | inr (u, found) ↦ ground (
        arith,
        change_status-has_admin q sql others input u r db key (kept ∙ sym read ∙ found) now_some
            then_some,
      )
    ]

-- Suspending or reactivating a user, when it succeeds, leaves an active administrator, if there was
-- one before and after what other transactions committed between the first read and the lock or the
-- update, and if these did not change the target's row, which is unique by its id.
pub set_user_status-has_admin :
    (q : Queries)
    → IsSql q
    → (others : Db → Db) (input : SetUserStatusInput) (r : SetUserResult) (db : Db)
    → count (is_target input.target_user_id) (others db).users ≤ 1
    → find? (is_target input.target_user_id) (others db).users
      ≡ find? (is_target input.target_user_id) db.users
    → has_admin db ≡ true
    → has_admin (others db) ≡ true
    → (set_user_status q others input db).0 ≡ ok r
    → has_admin (set_user_status q others input db).1 ≡ true
unfolding set_user_status
set_user_status-has_admin q sql others input r db key kept now_some then_some h = ground (
  arith,
  with_transaction_retry-ok q sql 3 is_retryable_transaction_error
      (set_user_status_tx q others input) db r h,
  set_user_status_tx-has_admin q sql others input r db key kept now_some then_some,
)

-- The race: the role of a suspended administrator is taken away without the lock.
change_role-race :
    (q : Queries)
    → IsSql q
    → (others : Db → Db) (input : SetUserRoleInput) (u : User) (r : SetUserResult) (db : Db)
    → u.role ≡ admin
    → u.status ≡ suspended
    → input.role ≡ user
    → any (λ x. is_active_admin x && not (is_target input.target_user_id x)) (others db).users
      ≡ false
    → (change_role q others input u db).0 ≡ ok r
    → has_admin (change_role q others input u db).1 ≡ false
unfolding change_role write_role
change_role-race q sql others input u r db =
    rw (← memory-eq q sql) (λ was_admin was_suspended to_user alone h.
      let t = input.target_user_id in
      ground (
        arith,
        any-update_where_keep is_active_admin (is_target t) (λ x. record x { role = input.role })
            (λ x. is_active_admin x && not (is_target t x)) (others db).users (λ x g. ground arith)
            alone,
      ))

-- If the first read finds a suspended administrator, and when the update runs nobody else is an
-- active administrator, then taking the role away, when it succeeds, leaves no active administrator,
-- whether or not other transactions have reactivated the user in between.
pub set_user_role-race :
    (q : Queries)
    → IsSql q
    → (others : Db → Db) (input : SetUserRoleInput) (u : User) (r : SetUserResult) (db : Db)
    → find? (is_target input.target_user_id) db.users ≡ some u
    → u.role ≡ admin
    → u.status ≡ suspended
    → input.role ≡ user
    → any (λ x. is_active_admin x && not (is_target input.target_user_id x)) (others db).users
      ≡ false
    → (set_user_role q others input db).0 ≡ ok r
    → has_admin (set_user_role q others input db).1 ≡ false
unfolding set_user_role set_user_role_tx
set_user_role-race q sql others input u r db found was_admin was_suspended to_user alone h =
    ground (
      arith,
      sql.find_unique_lem User (is_target input.target_user_id) db.users,
      with_transaction_retry-ok q sql 3 is_retryable_transaction_error
          (set_user_role_tx q others input) db r h,
      change_role-race q sql others input u r db was_admin was_suspended to_user alone,
    )
