-- ===== src/Auth/Oidc/Connect.antt =====
-- Linking an external identity to the user who asks for it.
use backend_core_kit.Prelude.{ℕ, ◌≡◌, ◌≢◌, refl, sym, subst, arith, true, any}
use backend_core_kit.Db.{Db, deleted, ok, OidcProvider}
use backend_core_kit.Db.Queries.{Queries, IsSql}
use backend_core_kit.Auth.RefreshTokens.{AuthUserRecord}
use backend_core_kit.Auth.Users.{
  LinkInput, LinkResult, linked, already_linked, user_not_found, identity_linked_to_other_user,
  provider_already_linked, find_user_by_id, link_external_identity_to_user,
}
use backend_core_kit.Auth.Users.Linking.{is_linked_to, Says, link_external_identity_to_user-Says}
use backend_core_kit.Auth.Service.{Service, Crypto, AuthConfig, bind_service, lift}
use backend_core_kit.Auth.Lifecycle.Issue.{bind-ok, lift_result-ok}
use backend_core_kit.Auth.Oidc.{
  OidcVerifier, VerifiedOidcIdentity, VerifyResult, not_configured, invalid, verified_identity,
  ConnectInput, link_input, answer_link, verify_oidc_identity_or_throw,
  require_existing_non_deleted_user, connect_oidc,
}

-- An identity is taken only when the verifier vouches for it and for its e-mail.
pub verify_oidc_identity_or_throw-ok :
    (verifier : OidcVerifier) (provider : OidcProvider) (id_token : ℕ) (i : VerifiedOidcIdentity)
    (db : Db)
    → (verify_oidc_identity_or_throw verifier provider id_token db).0 ≡ ok i
    → (verifier provider id_token ≡ verified_identity i)
      × (i.email_verified ≡ true)
      × ((verify_oidc_identity_or_throw verifier provider id_token db).1 ≡ db)
unfolding verify_oidc_identity_or_throw
verify_oidc_identity_or_throw-ok verifier provider id_token i db h =
    accepted (verifier provider id_token) refl h
  where
    accepted :
        (answer : VerifyResult)
        → verifier provider id_token ≡ answer
        → (verify_oidc_identity_or_throw verifier provider id_token db).0 ≡ ok i
        → (verifier provider id_token ≡ verified_identity i)
          × (i.email_verified ≡ true)
          × ((verify_oidc_identity_or_throw verifier provider id_token db).1 ≡ db)
    accepted not_configured e h = absurd (ground arith)
    accepted invalid e h = absurd (ground arith)
    accepted (verified_identity j) e h = ground arith

require_user-ok :
    (q : Queries) (user_id : ℕ) (a : AuthUserRecord) (db : Db)
    → (require_existing_non_deleted_user q user_id db).0 ≡ ok a
    → (a.status ≢ deleted) × ((require_existing_non_deleted_user q user_id db).1 ≡ db)
unfolding require_existing_non_deleted_user find_user_by_id
require_user-ok q user_id a db h = ground arith

answer_link-ok :
    (input : LinkInput) (answer : LinkResult) (db : Db)
    → (answer_link answer db).0 ≡ ok tt
    → Says input answer db
    → (any (is_linked_to input) db.identities ≡ true) × ((answer_link answer db).1 ≡ db)
unfolding Says
answer_link-ok input linked db h s = (s.0, refl)
answer_link-ok input already_linked db h s = (s, refl)
answer_link-ok input user_not_found db h s = cc h
answer_link-ok input identity_linked_to_other_user db h s = cc h
answer_link-ok input provider_already_linked db h s = cc h

-- The outcome of a linking that succeeded: the verifier's identity is the user's.
abbrev pub IsConnected : OidcVerifier → ConnectInput → ℕ → Db → Type 0
IsConnected verifier input now after =
    (i : VerifiedOidcIdentity) × (verifier input.provider input.id_token ≡ verified_identity i)
    × (i.email_verified ≡ true)
    × (any (is_linked_to (link_input input i now)) after.identities ≡ true)

-- A linking succeeds only for an identity that the verifier vouches for, with a verified e-mail, and
-- then this identity is stored as the user's, whatever other requests have committed meanwhile.
pub connect_oidc-IsConnected :
    (q : Queries)
    → IsSql q
    → (crypto : Crypto) (config : AuthConfig) (verifier : OidcVerifier) (others : Db → Db)
      (input : ConnectInput) (now : ℕ) (db : Db)
    → (connect_oidc q crypto config verifier others input now db).0 ≡ ok tt
    → IsConnected verifier input now (connect_oidc q crypto config verifier others input now db).1
unfolding connect_oidc
connect_oidc-IsConnected q sql crypto config verifier others input now db h =
    let required = require_existing_non_deleted_user q input.user_id db in
    let link : VerifiedOidcIdentity → Service (Unit {0}) = λ i db'.
      bind_service (lift (link_external_identity_to_user q others (link_input input i now)) db')
        answer_link in
    let verify : Service (Unit {0}) = λ db'.
      bind_service (verify_oidc_identity_or_throw verifier input.provider input.id_token db')
        link in
    let (a, e, h', same) = bind-ok required (λ _. verify) tt h in
    let (i, e', h'', same') =
      bind-ok (verify_oidc_identity_or_throw verifier input.provider input.id_token required.1) link
        tt h' in
    let (vouched, email_verified, kept) =
      verify_oidc_identity_or_throw-ok verifier input.provider input.id_token i required.1 e' in
    let db1 = (verify_oidc_identity_or_throw verifier input.provider input.id_token required.1).1 in
    let call = link_external_identity_to_user q others (link_input input i now) in
    let (answer, e'', h''', same'') = bind-ok (lift call db1) answer_link tt h'' in
    let (said, lifted) = lift_result-ok (call db1) answer e'' in
    let says =
      link_external_identity_to_user-Says q sql others (link_input input i now) answer db1 said in
    let (is_linked, kept') =
      answer_link-ok (link_input input i now) answer (lift call db1).1 h'''
        (subst (Says (link_input input i now) answer) (sym lifted) says) in
    (i, vouched, email_verified, rw (same, same', same'', kept') is_linked)
