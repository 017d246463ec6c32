-- ===== src/Auth/Oidc.antt =====
-- libs/features/auth/app/auth-oidc-auth.service.ts: sign-in with an external identity, and linking
-- one to a user. An e-mail is given as normalizeEmail returns it.
pub mod Tests
pub mod Exchange
pub mod Connect
use backend_core_kit.Prelude.{
  ℕ, ◌==◌, Bool, true, false, not, Option, none, some, List, [], ◌∷◌, is_some, if◌then◌else◌,
}
use backend_core_kit.Db.{
  Db, DbError, email_already_exists_error, external_identity_already_exists_error, Result, ok, err,
  OidcProvider, deleted, status_eq,
}
use backend_core_kit.Db.Queries.{Queries}
use backend_core_kit.Auth.RefreshTokens.{AuthUserRecord}
use backend_core_kit.Auth.Users.{
  AuthMethod, google_method, ProfileNames, NewExternalUser, LinkInput, LinkResult, linked,
  already_linked, user_not_found, identity_linked_to_other_user, provider_already_linked,
  find_user_by_id, find_user_id_by_email, find_user_by_external_identity, get_auth_methods,
  create_user_with_external_identity, link_external_identity_to_user,
}
use backend_core_kit.Auth.Service.{
  ◌>>=◌, ◌>>◌, pure, throw, lift, meanwhile, Service, AppError, auth_error, database, AuthErrorCode,
  oidc_link_required, oidc_not_configured, oidc_token_invalid, oidc_email_not_verified,
  oidc_identity_already_linked, oidc_provider_already_linked, unauthorized,
  invalid_credentials_error, assert_user_is_not_suspended, Crypto, AuthConfig, AuthResult,
}
use backend_core_kit.Auth.Lifecycle.{NewSessionInput, issue_tokens_for_new_session}

pub record VerifiedOidcIdentity : Type 0 where
  pub provider : OidcProvider
  pub subject : ℕ
  pub email : ℕ
  pub email_verified : Bool
  pub names : ProfileNames

pub data VerifyResult : Type 0 where
  not_configured invalid : VerifyResult
  verified_identity : VerifiedOidcIdentity → VerifyResult

-- The verifier of ID tokens, of which the services rely on nothing but its answer.
abbrev pub OidcVerifier : Type 0
OidcVerifier = OidcProvider → ℕ → VerifyResult

pub record OidcInput : Type 0 where
  pub provider : OidcProvider
  pub id_token : ℕ
  pub session : NewSessionInput

pub record ConnectInput : Type 0 where
  pub user_id : ℕ
  pub provider : OidcProvider
  pub id_token : ℕ

abbrev accept_identity : VerifyResult → Service VerifiedOidcIdentity
accept_identity not_configured = throw (auth_error 500 oidc_not_configured)
accept_identity invalid = throw (auth_error 401 oidc_token_invalid)
accept_identity (verified_identity i) =
    if not i.email_verified then throw (auth_error 400 oidc_email_not_verified) else pure i

unfoldable pub verify_oidc_identity_or_throw :
    OidcVerifier → OidcProvider → ℕ → Service VerifiedOidcIdentity
verify_oidc_identity_or_throw verifier provider id_token =
    accept_identity (verifier provider id_token)

abbrev refuse_missing : Option AuthUserRecord → Service AuthUserRecord
refuse_missing none = throw (auth_error 401 unauthorized)
refuse_missing (some u) =
    if status_eq u.status deleted then throw (auth_error 401 unauthorized) else pure u

unfoldable pub require_existing_non_deleted_user : Queries → ℕ → Service AuthUserRecord
require_existing_non_deleted_user q user_id = do
  found ← lift (find_user_by_id q user_id)
  refuse_missing found

abbrev pub new_external_user : VerifiedOidcIdentity → ℕ → NewExternalUser
new_external_user i now = record {
  email = i.email;
  email_verified_at = now;
  names = i.names;
  provider = i.provider;
  subject = i.subject;
  identity_email = some i.email;
}

abbrev pub link_input : ConnectInput → VerifiedOidcIdentity → ℕ → LinkInput
link_input input i now = record {
  user_id = input.user_id;
  provider = i.provider;
  subject = i.subject;
  email = some i.email;
  now = now;
}

-- The answers of connectOidc.
abbrev pub answer_link : LinkResult → Service (Unit {0})
answer_link linked = pure tt
answer_link already_linked = pure tt
answer_link user_not_found = throw (auth_error 401 unauthorized)
answer_link identity_linked_to_other_user = throw (auth_error 409 oidc_identity_already_linked)
answer_link provider_already_linked = throw (auth_error 409 oidc_provider_already_linked)

module _ (q : Queries) (crypto : Crypto) (config : AuthConfig) (verifier : OidcVerifier) where
  -- Someone else has created the user in the meantime.
  unfoldable pub raced_user : VerifiedOidcIdentity → Service (AuthUserRecord × Bool)
  raced_user i = do
    existing ← lift (find_user_by_external_identity q i.provider i.subject)
    elim existing [
      | none ↦ throw (database external_identity_already_exists_error)
      | some u ↦ pure (u, false)
    ]

  -- The catch block around the creation.
  unfoldable pub created_user :
      VerifiedOidcIdentity
      → Result DbError AuthUserRecord × Db
      → Result AppError (AuthUserRecord × Bool) × Db
  created_user i (ok u, db) = (ok (u, true), db)
  created_user i (err email_already_exists_error, db) =
      (err (auth_error 409 oidc_link_required), db)
  created_user i (err external_identity_already_exists_error, db) = raced_user i db
  created_user i (err e, db) = (err (database e), db)

  unfoldable pub create_or_refuse : VerifiedOidcIdentity → ℕ → Service (AuthUserRecord × Bool)
  create_or_refuse i now = do
    existing ← lift (find_user_id_by_email q i.email)
    if is_some existing then throw (auth_error 409 oidc_link_required) else (λ db.
        created_user i (create_user_with_external_identity q (new_external_user i now) db))

  -- The user of the identity, and whether it was created just now; `others` is what other requests
  -- commit between the lookup and the creation.
  unfoldable pub user_of_identity :
      (Db → Db) → VerifiedOidcIdentity → ℕ → Service (AuthUserRecord × Bool)
  user_of_identity others i now = do
    found ← lift (find_user_by_external_identity q i.provider i.subject)
    elim found [ some u ↦ pure (u, false) | none ↦ (do meanwhile others; create_or_refuse i now) ]

  unfoldable pub methods_for : AuthUserRecord → Bool → Service (List AuthMethod)
  methods_for u created =
      if created then pure (google_method ∷ []) else lift (get_auth_methods q u.id)

  unfoldable pub sign_in : ℕ → OidcInput → AuthUserRecord → Bool → Service AuthResult
  sign_in token input u created =
      if status_eq u.status deleted then throw invalid_credentials_error else (do
        assert_user_is_not_suspended u
        methods ← methods_for u created
        issue_tokens_for_new_session q crypto config token u methods input.session)

  unfoldable pub exchange_oidc : (Db → Db) → ℕ → OidcInput → Service AuthResult
  exchange_oidc others token input = do
    identity ← verify_oidc_identity_or_throw verifier input.provider input.id_token
    found ← user_of_identity others identity input.session.now
    sign_in token input found.0 found.1

  unfoldable pub connect_oidc : (Db → Db) → ConnectInput → ℕ → Service (Unit {0})
  connect_oidc others input now = do
    require_existing_non_deleted_user q input.user_id
    identity ← verify_oidc_identity_or_throw verifier input.provider input.id_token
    result ← lift (link_external_identity_to_user q others (link_input input identity now))
    answer_link result
