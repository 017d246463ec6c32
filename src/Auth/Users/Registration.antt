-- ===== src/Auth/Users/Registration.antt =====
-- Registration: a new user is found again, and no e-mail and no identity is taken twice.
use backend_core_kit.Prelude.{
  ℕ, ◌==◌, ◌≡◌, refl, ◌++◌, ◌∷◌, [], ap, sym, ◌∙◌, arith, true, none, some, any, find?-append_one,
  ==_refl, any_weaker, Bool-cases, inl, inr,
}
use backend_core_kit.Db.{
  Db, DbError, Result, ok, err, active, User, PasswordCredential, OidcProvider, google, provider_eq,
  ExternalIdentity, same_subject, profile_collides, user_collides, credential_collides,
  identity_collides,
}
use backend_core_kit.Db.Queries.{Queries, IsSql, memory-eq, transaction-ok}
use backend_core_kit.Auth.RefreshTokens.{AuthUserRecord}
use backend_core_kit.Auth.Users.{
  NewExternalUser, new_user, new_profile, no_names, password_conflict, identity_conflict, register,
  register_external, create_user_with_password, create_user_with_external_identity,
  find_user_for_login, find_user_by_external_identity,
}

pub provider_eq_refl : (p : OidcProvider) → provider_eq p p ≡ true
provider_eq_refl google = refl

password_conflict-ok :
    (r : Result DbError AuthUserRecord × Db) (a : AuthUserRecord)
    → (password_conflict r).0 ≡ ok a
    → r ≡ password_conflict r
password_conflict-ok (ok b, db) a h = refl
password_conflict-ok (err e, db) a h = ground arith

identity_conflict-ok :
    (r : Result DbError AuthUserRecord × Db) (a : AuthUserRecord)
    → (identity_conflict r).0 ≡ ok a
    → r ≡ identity_conflict r
identity_conflict-ok (ok b, db) a h = refl
identity_conflict-ok (err e, db) a h = ground arith

register-found :
    (q : Queries)
    → IsSql q
    → (email hash : ℕ) (a : AuthUserRecord) (db : Db) → (register q email hash db).0 ≡ ok a
    → (find_user_for_login q email (register q email hash db).1).0
      ≡ ok (some (record { user = a; password_hash = hash }))
unfolding register find_user_for_login user_collides credential_collides
register-found q sql email hash a db = rw (← memory-eq q sql) (
    let u = new_user (q.generate_uuid db) email none in
    let c : PasswordCredential = record { user_id = u.id; password_hash = hash } in
    let p = new_profile u.id no_names in
    elim (Bool-cases (any (user_collides u) db.users)) [
      | inl taken ↦ rw taken (λ h. cc h)
      | inr free ↦ elim (Bool-cases (any (credential_collides c) db.credentials)) [
        | inl taken ↦ rw (free, taken) (λ h. cc h)
        | inr free' ↦ elim (Bool-cases (any (profile_collides p) db.profiles)) [
          | inl taken ↦ rw (free, free', taken) (λ h. cc h)
          | inr free'' ↦
              rw
                (
                  free,
                  free',
                  free'',
                  find?-append_one (λ (o : User). o.email == email) db.users u
                      (any_weaker _ (user_collides u) db.users (λ o w. ground arith) free)
                      (==_refl email),
                  sql.find_unique_lem PasswordCredential (λ o. o.user_id == u.id)
                      (db.credentials ++ c ∷ []),
                  find?-append_one (λ (o : PasswordCredential). o.user_id == u.id) db.credentials c
                      (any_weaker _ (credential_collides c) db.credentials (λ o w. ground arith)
                        free')
                      (==_refl u.id),
                )
                (λ h. cc)
        ]
      ]
    ])

register-active :
    (q : Queries) (email hash : ℕ) (a : AuthUserRecord) (db : Db)
    → (register q email hash db).0 ≡ ok a
    → a.status ≡ active
unfolding register
register-active q email hash a db h = ground arith

-- A registered user is active.
pub create_user_with_password-active :
    (q : Queries)
    → IsSql q
    → (email hash : ℕ) (a : AuthUserRecord) (db : Db)
    → (create_user_with_password q email hash db).0 ≡ ok a
    → a.status ≡ active
unfolding create_user_with_password
create_user_with_password-active q sql email hash a db h =
    let r = q.transaction AuthUserRecord (register q email hash) 1 db in
    let same = password_conflict-ok r a h in
    let ran = transaction-ok q sql (register q email hash) 1 db a (ap (λ x. x.0) same ∙ h) in
    register-active q email hash a db (ap (λ x. x.0) ran)

-- A registration with a password that succeeds leaves the user to be found for login by the e-mail,
-- with the given hash.
pub create_user_with_password-found :
    (q : Queries)
    → IsSql q
    → (email hash : ℕ) (a : AuthUserRecord) (db : Db)
    → (create_user_with_password q email hash db).0 ≡ ok a
    → (find_user_for_login q email (create_user_with_password q email hash db).1).0
      ≡ ok (some (record { user = a; password_hash = hash }))
unfolding create_user_with_password
create_user_with_password-found q sql email hash a db h =
    let r = q.transaction AuthUserRecord (register q email hash) 1 db in
    let same = password_conflict-ok r a h in
    let ran = transaction-ok q sql (register q email hash) 1 db a (ap (λ x. x.0) same ∙ h) in
    let after : (create_user_with_password q email hash db).1 ≡ (register q email hash db).1 =
      ap (λ x. x.1) (sym same) ∙ ap (λ x. x.1) (sym ran) in
    rw after (register-found q sql email hash a db (ap (λ x. x.0) ran))

register_external-found :
    (q : Queries)
    → IsSql q
    → (input : NewExternalUser) (a : AuthUserRecord) (db : Db)
    → (register_external q input db).0 ≡ ok a
    → (find_user_by_external_identity q input.provider input.subject
        (register_external q input db).1).0
      ≡ ok (some a)
unfolding register_external find_user_by_external_identity user_collides identity_collides
register_external-found q sql input a db = rw (← memory-eq q sql) (
    let u = new_user (q.generate_uuid db) input.email (some input.email_verified_at) in
    let p = new_profile u.id input.names in
    let db' = record db { users = db.users ++ u ∷ []; profiles = db.profiles ++ p ∷ [] } in
    let i : ExternalIdentity = record {
      id = q.generate_uuid db';
      provider = input.provider;
      subject = input.subject;
      email = input.identity_email;
      user_id = u.id;
    } in
    elim (Bool-cases (any (user_collides u) db.users)) [
      | inl taken ↦ rw taken (λ h. cc h)
      | inr free ↦ elim (Bool-cases (any (profile_collides p) db.profiles)) [
        | inl taken ↦ rw (free, taken) (λ h. cc h)
        | inr free' ↦ elim (Bool-cases (any (identity_collides i) db.identities)) [
          | inl taken ↦ rw (free, free', taken) (λ h. cc h)
          | inr free'' ↦
              rw
                (
                  free,
                  free',
                  free'',
                  find?-append_one (same_subject input.provider input.subject) db.identities i
                      (any_weaker _ (identity_collides i) db.identities (λ o w. ground arith)
                        free'')
                      (ground (arith, provider_eq_refl input.provider)),
                  sql.find_unique_lem User (λ o. o.id == u.id) (db.users ++ u ∷ []),
                  find?-append_one (λ (o : User). o.id == u.id) db.users u
                      (any_weaker _ (user_collides u) db.users (λ o w. ground arith) free)
                      (==_refl u.id),
                )
                (λ h. cc)
        ]
      ]
    ])

-- A registration with an external identity that succeeds leaves the user to be found by that
-- identity.
pub create_user_with_external_identity-found :
    (q : Queries)
    → IsSql q
    → (input : NewExternalUser) (a : AuthUserRecord) (db : Db)
    → (create_user_with_external_identity q input db).0 ≡ ok a
    → (find_user_by_external_identity q input.provider input.subject
        (create_user_with_external_identity q input db).1).0
      ≡ ok (some a)
unfolding create_user_with_external_identity
create_user_with_external_identity-found q sql input a db h =
    let r = q.transaction AuthUserRecord (register_external q input) 1 db in
    let same = identity_conflict-ok r a h in
    let ran = transaction-ok q sql (register_external q input) 1 db a (ap (λ x. x.0) same ∙ h) in
    let after : (create_user_with_external_identity q input db).1
        ≡ (register_external q input db).1 =
      ap (λ x. x.1) (sym same) ∙ ap (λ x. x.1) (sym ran) in
    rw after (register_external-found q sql input a db (ap (λ x. x.0) ran))
