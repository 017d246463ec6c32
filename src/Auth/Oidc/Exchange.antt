-- ===== src/Auth/Oidc/Exchange.antt =====
-- Signing in with an external identity.
use backend_core_kit.Prelude.{
  ℕ, ◌==◌, ◌≡◌, ◌≢◌, refl, ap, subst, arith, Bool, true, false, Option, none, some, List,
  Option-cases, inl, inr,
}
use backend_core_kit.Db.{
  Db, DbError, email_already_exists_error, external_identity_already_exists_error, User,
  ExternalIdentity, deleted, suspended, Result, ok, err, same_subject, OidcProvider,
}
use backend_core_kit.Db.Queries.{Queries, IsSql}
use backend_core_kit.Auth.RefreshTokens.{AuthUserRecord}
use backend_core_kit.Auth.Users.{
  AuthMethod, find_user_by_external_identity, find_user_id_by_email,
  create_user_with_external_identity,
}
use backend_core_kit.Auth.Users.Registration.{create_user_with_external_identity-found}
use backend_core_kit.Auth.Service.{
  AppError, database, Service, Crypto, AuthConfig, AuthResult, bind_service,
  assert_user_is_not_suspended,
}
use backend_core_kit.Auth.Lifecycle.{issue_tokens_for_new_session}
use backend_core_kit.Auth.Lifecycle.Issue.{bind-ok}
use backend_core_kit.Auth.Oidc.{
  OidcVerifier, VerifiedOidcIdentity, verified_identity, OidcInput, new_external_user, raced_user,
  created_user, create_or_refuse, user_of_identity, methods_for, sign_in,
  verify_oidc_identity_or_throw, exchange_oidc,
}
use backend_core_kit.Auth.Oidc.Connect.{verify_oidc_identity_or_throw-ok}

-- The lookup never fails and changes nothing.
find_user_by_external_identity-reads :
    (q : Queries) (provider : OidcProvider) (subject : ℕ) (db : Db)
    → (found : Option AuthUserRecord) × (find_user_by_external_identity q provider subject db
        ≡ (ok found, db))
unfolding find_user_by_external_identity
find_user_by_external_identity-reads q provider subject db =
    elim (Option-cases
      (q.find_first ExternalIdentity (same_subject provider subject) db.identities)) [
        | inl nobody ↦ rw nobody (none, refl)
        | inr (i, found) ↦ rw found (_, refl)
      ]

-- The user under the identity of this provider and subject.
abbrev pub IsUserOf : Queries → VerifiedOidcIdentity → AuthUserRecord → Db → Type 0
IsUserOf q i u db = (find_user_by_external_identity q i.provider i.subject db).0 ≡ ok (some u)

-- The user that a lookup or a creation answers is the one under the identity.
abbrev Found :
    Queries → VerifiedOidcIdentity → Result AppError (AuthUserRecord × Bool) × Db → Type 0
Found q i (ok (u, created), db) = IsUserOf q i u db
Found q i (err e, db) = Unit

module _ (q : Queries) (sql : IsSql q) (crypto : Crypto) (config : AuthConfig)
    (verifier : OidcVerifier) where
  raced_user-Found :
      (i : VerifiedOidcIdentity) (db : Db) → Found q i (raced_user q crypto config verifier i db)
  unfolding raced_user
  raced_user-Found i db =
      let (found, reads) = find_user_by_external_identity-reads q i.provider i.subject db in
      rw reads (known found reads)
    where
      known :
          (found : Option AuthUserRecord)
          → find_user_by_external_identity q i.provider i.subject db ≡ (ok found, db)
          → Found q i (
              bind_service
                (ok found, db)
                (λ existing. elim existing [
                  | none ↦ (λ db'. (err (database external_identity_already_exists_error), db'))
                  | some u ↦ (λ db'. (ok (u, false), db'))
                ]))
      known none reads = tt
      known (some u) reads = ap (λ r. r.0) reads

  created_user-Found :
      (i : VerifiedOidcIdentity) (r : Result DbError AuthUserRecord × Db)
      → ((u : AuthUserRecord) → r.0 ≡ ok u → IsUserOf q i u r.1)
      → Found q i (created_user q crypto config verifier i r)
  unfolding created_user
  created_user-Found i (ok u, db) known = known u refl
  created_user-Found i (err email_already_exists_error, db) known = tt
  created_user-Found i (err external_identity_already_exists_error, db) known =
      raced_user-Found i db
  created_user-Found i (err e, db) known = tt

  create_or_refuse-Found :
      (i : VerifiedOidcIdentity) (now : ℕ) (db : Db)
      → Found q i (create_or_refuse q crypto config verifier i now db)
  unfolding create_or_refuse find_user_id_by_email
  create_or_refuse-Found i now db =
      elim (Option-cases (q.find_unique User (λ u. u.email == i.email) db.users)) [
        | inr (u, taken) ↦ rw taken tt
        | inl free ↦ rw free (
            created_user-Found i (create_user_with_external_identity q (new_external_user i now) db)
              (λ u h.
                create_user_with_external_identity-found q sql (new_external_user i now) u db h))
      ]

  user_of_identity-Found :
      (others : Db → Db) (i : VerifiedOidcIdentity) (now : ℕ) (db : Db)
      → Found q i (user_of_identity q crypto config verifier others i now db)
  unfolding user_of_identity
  user_of_identity-Found others i now db =
      let (found, reads) = find_user_by_external_identity-reads q i.provider i.subject db in
      rw reads (known found reads)
    where
      known :
          (found : Option AuthUserRecord)
          → find_user_by_external_identity q i.provider i.subject db ≡ (ok found, db)
          → Found q i (
              bind_service
                (ok found, db)
                (λ existing. elim existing [
                  | some u ↦ (λ db'. (ok (u, false), db'))
                  | none ↦ (λ db'. create_or_refuse q crypto config verifier i now (others db'))
                ]))
      known none reads = create_or_refuse-Found i now (others db)
      known (some u) reads = ap (λ r. r.0) reads

  issue-user :
      (token : ℕ) (a : AuthUserRecord) (methods : List AuthMethod) (input : OidcInput)
      (r : AuthResult) (db : Db)
      → (issue_tokens_for_new_session q crypto config token a methods input.session db).0 ≡ ok r
      → r.user.id ≡ a.id
  unfolding issue_tokens_for_new_session
  issue-user token a methods input r db h = ground arith

  issued-user :
      (token : ℕ) (input : OidcInput) (a : AuthUserRecord) (created : Bool) (r : AuthResult)
      (db : Db)
      → (bind_service
          (methods_for q crypto config verifier a created db)
          (λ methods. issue_tokens_for_new_session q crypto config token a methods input.session)).0
        ≡ ok r
      → r.user.id ≡ a.id
  issued-user token input a created r db h =
      let m = methods_for q crypto config verifier a created db in
      let issue = λ (methods : List AuthMethod).
        issue_tokens_for_new_session q crypto config token a methods input.session in
      let (methods, e, h', same) = bind-ok m issue r h in issue-user token a methods input r m.1 h'

  sign_in-ok :
      (token : ℕ) (input : OidcInput) (a : AuthUserRecord) (created : Bool) (r : AuthResult)
      (db : Db)
      → (sign_in q crypto config verifier token input a created db).0 ≡ ok r
      → (a.status ≢ deleted) × (a.status ≢ suspended) × (r.user.id ≡ a.id)
  unfolding sign_in assert_user_is_not_suspended
  sign_in-ok token input a created r db h = ground (arith, issued-user token input a created r db)

-- Who is signed in: the verifier vouches for the identity and its e-mail, and the user is the one
-- under that identity when it had been looked up or created.
pub record IsSignedIn (q : Queries) (verifier : OidcVerifier) (input : OidcInput) (r : AuthResult)
    (looked_up : VerifiedOidcIdentity → Db) : Type 0 where
  pub identity : VerifiedOidcIdentity
  pub vouched : verifier input.provider input.id_token ≡ verified_identity identity
  pub email_verified : identity.email_verified ≡ true
  pub member : AuthUserRecord
  pub is_user_of : IsUserOf q identity member (looked_up identity)
  pub not_deleted : member.status ≢ deleted
  pub not_suspended : member.status ≢ suspended
  pub answered : r.user.id ≡ member.id

-- A sign-in with an external identity is answered with tokens only if the verifier vouches for the
-- identity and its e-mail is verified; the answer is for the user stored under that identity once it
-- has been looked up or created, who is neither deleted nor suspended, whatever other requests have
-- committed between the lookup and the creation.
pub exchange_oidc-IsSignedIn :
    (q : Queries)
    → IsSql q
    → (crypto : Crypto) (config : AuthConfig) (verifier : OidcVerifier) (others : Db → Db)
      (token : ℕ) (input : OidcInput) (r : AuthResult) (db : Db)
    → (exchange_oidc q crypto config verifier others token input db).0 ≡ ok r
    → IsSignedIn q verifier input r
        (λ i. (user_of_identity q crypto config verifier others i input.session.now db).1)
unfolding exchange_oidc
exchange_oidc-IsSignedIn q sql crypto config verifier others token input r db h =
    let vouch = verify_oidc_identity_or_throw verifier input.provider input.id_token db in
    let enter : AuthUserRecord × Bool → Service AuthResult =
      λ found. sign_in q crypto config verifier token input found.0 found.1 in
    let find : VerifiedOidcIdentity → Service AuthResult = λ i db'.
      bind_service (user_of_identity q crypto config verifier others i input.session.now db')
        enter in
    let (i, e, h', same) = bind-ok vouch find r h in
    let (vouched, email_verified, kept) =
      verify_oidc_identity_or_throw-ok verifier input.provider input.id_token i db e in
    let looked_up = user_of_identity q crypto config verifier others i input.session.now db in
    let (found, e', h'', same') =
      bind-ok looked_up enter r (subst (λ d. (find i d).0 ≡ ok r) kept h') in
    let (not_deleted, not_suspended, answered) =
      sign_in-ok q sql crypto config verifier token input found.0 found.1 r looked_up.1 h'' in
    let is_found : Found q i looked_up =
      user_of_identity-Found q sql crypto config verifier others i input.session.now db in
    record {
      identity = i;
      vouched = vouched;
      email_verified = email_verified;
      member = found.0;
      is_user_of = subst (λ x. Found q i (x, looked_up.1)) e' is_found;
      not_deleted = not_deleted;
      not_suspended = not_suspended;
      answered = answered;
    }
