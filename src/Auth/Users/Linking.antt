-- ===== src/Auth/Users/Linking.antt =====
-- Linking an external identity: it is stored for the user, and for nobody else.
use backend_core_kit.Prelude.{
  ℕ, ◌==◌, ◌≡◌, refl, sym, arith, Bool, true, false, ◌&&◌, Option, none, some, any, count, find?,
  find?-any, find?-none, subst, find?-any_with, not, count-append_one, any_weaker, any-append_one,
  Option-cases, Bool-cases, inl, inr,
}
use backend_core_kit.Db.{
  Db, DbError, Result, ok, err, User, ExternalIdentity, same_subject, same_provider,
  identity_collides,
}
use backend_core_kit.Db.Queries.{Queries, Action, IsSql, memory-eq, attempt, rollback}
use backend_core_kit.Db.Client.{bind_result, pure, handle}
use backend_core_kit.Auth.Users.Registration.{provider_eq_refl}
use backend_core_kit.Auth.Users.{
  LinkInput, LinkResult, linked, already_linked, link_tx, link_user, link_found, link_new,
  insert_link, link_raced, is_unique_violation, user_not_found, identity_linked_to_other_user,
  provider_already_linked, link_inserted, verify_email_if_matching, link_external_identity_to_user,
}

-- The identity of the subject is the user's.
abbrev pub is_linked_to : LinkInput → ExternalIdentity → Bool
is_linked_to input i = same_subject input.provider input.subject i && i.user_id == input.user_id

-- What each answer says of the database.
unfoldable pub Says : LinkInput → LinkResult → Db → Type 0
Says input linked db =
    (any (is_linked_to input) db.identities ≡ true)
    × (count (same_subject input.provider input.subject) db.identities ≡ 1)
    × (count (same_provider input.user_id input.provider) db.identities ≡ 1)
Says input already_linked db = any (is_linked_to input) db.identities ≡ true
Says input user_not_found db = any (λ u. u.id == input.user_id) db.users ≡ false
Says input identity_linked_to_other_user db =
    any (λ i. same_subject input.provider input.subject i && not (i.user_id == input.user_id))
      db.identities
    ≡ true
Says input provider_already_linked db =
    any (same_provider input.user_id input.provider) db.identities ≡ true

-- What an answer says holds of the database that comes with it.
Holds : LinkInput → Result DbError LinkResult × Db → Type 0
Holds input (ok answer, db) = Says input answer db
Holds input (err e, db) = Unit

verify-same_identities :
    (q : Queries) (u : User) (email : Option ℕ) (now : ℕ) (db : Db)
    → (verify_email_if_matching q u email now db).1.identities ≡ db.identities
unfolding verify_email_if_matching
verify-same_identities q u none now db = refl
verify-same_identities q u (some e) now db = ground arith

verify-ok :
    (q : Queries) (u : User) (email : Option ℕ) (now : ℕ) (db : Db)
    → (verify_email_if_matching q u email now db).0 ≡ ok tt
unfolding verify_email_if_matching
verify-ok q u none now db = refl
verify-ok q u (some e) now db = ground arith

verify_then-Holds :
    (input : LinkInput) (r : Result DbError (Unit {0}) × Db) (answer : LinkResult)
    → (r.0 ≡ ok tt)
    → Says input answer r.1
    → Holds input (bind_result r (λ _. pure answer))
unfolding Holds
verify_then-Holds input (ok done, db) answer h s = s
verify_then-Holds input (err e, db) answer h s = tt

link_found-Holds :
    (q : Queries) (input : LinkInput) (u : User) (i : ExternalIdentity) (db : Db)
    → find? (same_subject input.provider input.subject) db.identities ≡ some i
    → Holds input (link_found q input u i db)
unfolding link_found Holds Says
link_found-Holds q input u i db found = elim (Bool-cases (i.user_id == input.user_id)) [
  | inl own ↦ rw own (
      verify_then-Holds input (verify_email_if_matching q u input.email input.now db) already_linked
        (verify-ok q u input.email input.now db)
        (rw (verify-same_identities q u input.email input.now db) (
          find?-any_with (same_subject input.provider input.subject) db.identities i
            (λ j. j.user_id == input.user_id) found own)))
  | inr other ↦ rw other (
      find?-any_with (same_subject input.provider input.subject) db.identities i
        (λ j. not (j.user_id == input.user_id)) found (ground arith))
]

insert_link-Holds :
    (q : Queries) → IsSql q → (input : LinkInput) (db : Db) → Holds input (insert_link q input db)
unfolding insert_link Holds Says identity_collides
insert_link-Holds q sql input db = rw (← memory-eq q sql) (
    let i : ExternalIdentity = record {
      id = q.generate_uuid db;
      provider = input.provider;
      subject = input.subject;
      email = input.email;
      user_id = input.user_id;
    } in
    let same = provider_eq_refl input.provider in
    elim (Bool-cases (any (identity_collides i) db.identities)) [
      | inl taken ↦ rw taken tt
      | inr free ↦ rw free (
        ground (arith, any-append_one (is_linked_to input) db.identities i, same),
        count-append_one _ db.identities i
            (any_weaker _ (identity_collides i) db.identities (λ o w. ground arith) free)
            (ground (arith, same)),
        count-append_one _ db.identities i
            (any_weaker _ (identity_collides i) db.identities (λ o w. ground arith) free)
            (ground (arith, same)),
      )
    ])

link_raced-Holds :
    (q : Queries)
    → IsSql q
    → (input : LinkInput) (u : User) (e : DbError) (db : Db)
    → Holds input (link_raced q input u e db)
unfolding link_raced Holds Says
link_raced-Holds q sql input u e db =
    let mine = same_subject input.provider input.subject in
    let by_provider = same_provider input.user_id input.provider in
    rw (sql.find_first_lem ExternalIdentity mine db.identities)
      (elim (Option-cases (find? mine db.identities)) [
        | inl missing ↦
            rw (missing, sql.find_first_lem ExternalIdentity by_provider db.identities)
              (elim (Option-cases (find? by_provider db.identities)) [
                | inl missing' ↦ rw missing' tt
                | inr (j, found) ↦ rw found (find?-any by_provider db.identities j found)
              ])
        | inr (i, found) ↦ rw found (link_found-Holds q input u i db found)
      ])

link_inserted-Holds :
    (q : Queries) (input : LinkInput) (u : User) (r : Result DbError LinkResult × Db)
    → Holds input r
    → Holds input (bind_result r (link_inserted q input u))
unfolding link_inserted Holds Says
link_inserted-Holds q input u (err e, db) h = tt
link_inserted-Holds q input u (ok linked, db) h =
    verify_then-Holds input (verify_email_if_matching q u input.email input.now db) linked
      (verify-ok q u input.email input.now db)
      (rw (verify-same_identities q u input.email input.now db) h)
link_inserted-Holds q input u (ok already_linked, db) h = h
link_inserted-Holds q input u (ok user_not_found, db) h = h
link_inserted-Holds q input u (ok identity_linked_to_other_user, db) h = h
link_inserted-Holds q input u (ok provider_already_linked, db) h = h

handle-Holds :
    (q : Queries) (input : LinkInput) (handler : DbError → Db → Result DbError LinkResult × Db)
    → ((e : DbError) (db : Db) → Holds input (handler e db))
    → (r : Result DbError LinkResult × Db) → Holds input r
    → Holds input (handle q is_unique_violation handler r)
unfolding Holds
handle-Holds q input handler fine (ok a, db) h = h
handle-Holds q input handler fine (err e, db) h = elim (Bool-cases (is_unique_violation e)) [
  | inl caught ↦ rw caught (elim (Bool-cases q.continues) [
    | inl goes_on ↦ rw goes_on (fine e db)
    | inr aborted ↦ rw aborted tt
  ])
  | inr passed ↦ rw passed tt
]

link_new-Holds :
    (q : Queries)
    → IsSql q
    → (input : LinkInput) (u : User) (db : Db) → Holds input (link_new q input u db)
unfolding link_new
link_new-Holds q sql input u db =
    link_inserted-Holds q input u
      (handle q is_unique_violation (link_raced q input u) (insert_link q input db))
      (handle-Holds q input (link_raced q input u) (link_raced-Holds q sql input u)
        (insert_link q input db) (insert_link-Holds q sql input db))

link_user-Holds :
    (q : Queries)
    → IsSql q
    → (others : Db → Db) (input : LinkInput) (u : User) (db : Db)
    → Holds input (link_user q others input u db)
unfolding link_user Holds Says
link_user-Holds q sql others input u db =
    let mine = same_subject input.provider input.subject in
    let by_provider = same_provider input.user_id input.provider in
    rw (sql.find_first_lem ExternalIdentity mine db.identities)
      (elim (Option-cases (find? mine db.identities)) [
        | inl missing ↦
            rw (missing, sql.find_first_lem ExternalIdentity by_provider db.identities)
              (elim (Option-cases (find? by_provider db.identities)) [
                | inl missing' ↦ rw missing' (link_new-Holds q sql input u (others db))
                | inr (j, found) ↦ rw found (find?-any by_provider db.identities j found)
              ])
        | inr (i, found) ↦ rw found (link_found-Holds q input u i db found)
      ])

link_tx-Holds :
    (q : Queries)
    → IsSql q
    → (others : Db → Db) (input : LinkInput) (db : Db) → Holds input (link_tx q others input db)
unfolding link_tx Holds Says
link_tx-Holds q sql others input db =
    let mine = λ (u : User). u.id == input.user_id in
    rw (sql.find_unique_lem User mine db.users) (elim (Option-cases (find? mine db.users)) [
      | inl missing ↦ rw missing (find?-none mine db.users missing)
      | inr (u, found) ↦ rw found (link_user-Holds q sql others input u db)
    ])

rollback-Holds :
    (input : LinkInput) (before : Db) (r : Result DbError LinkResult × Db)
    → Holds input r
    → Holds input (rollback before r)
unfolding Holds
rollback-Holds input before (ok a, db) h = h
rollback-Holds input before (err e, db) h = tt

attempt-Holds :
    (input : LinkInput) (fault : Option DbError) (body : Action LinkResult) (db : Db)
    → Holds input (body db)
    → Holds input (attempt fault body db)
unfolding Holds
attempt-Holds input (some e) body db h = tt
attempt-Holds input none body db h = rollback-Holds input db (body db) h

-- Whatever other requests commit while a user is linked to an external identity, the answer is true
-- of the database that the call leaves: `linked` means that the identity is the user's, is the only
-- one of its subject and is the only one of its provider that the user has; `already_linked` that it
-- is the user's; the refusals, that the subject is another user's, that the user has an identity of
-- the provider, or that there is no such user.
pub link_external_identity_to_user-Says :
    (q : Queries)
    → IsSql q
    → (others : Db → Db) (input : LinkInput) (answer : LinkResult) (db : Db)
    → (link_external_identity_to_user q others input db).0 ≡ ok answer
    → Says input answer (link_external_identity_to_user q others input db).1
unfolding link_external_identity_to_user Holds
link_external_identity_to_user-Says q sql others input answer db h =
    let r = link_external_identity_to_user q others input db in
    let held : Holds input r =
      subst (Holds input) (sym (sql.transaction_lem LinkResult (link_tx q others input) 1 db)) (
        attempt-Holds input (q.fault 1 db) (link_tx q others input) db
          (link_tx-Holds q sql others input db)) in
    subst (λ x. Holds input (x, r.1)) h held
