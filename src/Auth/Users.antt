-- ===== src/Auth/Users.antt =====
-- libs/features/auth/infra/persistence/prisma-auth.repository.users.ts: the users of the auth module,
-- their registration, their external identities and the verification of their e-mails.
pub mod Tests
pub mod Registration
pub mod Linking
pub mod Verification
use backend_core_kit.Prelude.{
  ℕ, ◌==◌, leb, Bool, true, false, not, ◌&&◌, ◌||◌, Option, none, some, List, [], ◌∷◌, ◌++◌, any,
  is_null, is_some, if◌then◌else◌,
}
use backend_core_kit.Db.{
  Db, DbError, unique_violation, email_field, subject_field, email_already_exists_error,
  external_identity_already_exists_error, user_missing, Result, ok, err, User, user, active,
  PasswordCredential, EmailVerificationToken, OidcProvider, google, provider_eq, ExternalIdentity,
  UserProfile, same_subject, same_provider,
}
use backend_core_kit.Db.Queries.{Queries, Action}
use backend_core_kit.Db.Retry.{with_retry}
use backend_core_kit.Db.Client.{
  ◌>>=◌, ◌>>◌, pure, throw, meanwhile, handle, find_user, find_credential, find_identity,
  find_identities, find_verification_token, update_many_users, update_verification_tokens,
  insert_user, insert_credential, insert_profile, insert_identity, new_id, transaction,
}
use backend_core_kit.Auth.RefreshTokens.{AuthUserRecord, to_auth_user_record}

pub data AuthMethod : Type 0 where
  password_method google_method : AuthMethod

pub data LinkResult : Type 0 where
  linked already_linked user_not_found : LinkResult
  identity_linked_to_other_user provider_already_linked : LinkResult

pub data VerifyEmailResult : Type 0 where
  verified already_verified token_invalid token_expired : VerifyEmailResult

pub record LoginUser : Type 0 where
  pub user : AuthUserRecord
  pub password_hash : ℕ

-- The names of a profile, where an empty text counts as absent.
pub record ProfileNames : Type 0 where
  pub display_name : Option ℕ
  pub given_name : Option ℕ
  pub family_name : Option ℕ

pub record NewExternalUser : Type 0 where
  pub email : ℕ
  pub email_verified_at : ℕ
  pub names : ProfileNames
  pub provider : OidcProvider
  pub subject : ℕ
  pub identity_email : Option ℕ

pub record LinkInput : Type 0 where
  pub user_id : ℕ
  pub provider : OidcProvider
  pub subject : ℕ
  pub email : Option ℕ
  pub now : ℕ

abbrev pub is_unique_violation : DbError → Bool
is_unique_violation (unique_violation field) = true
is_unique_violation _ = false

-- A user with the columns' defaults.
abbrev pub new_user : ℕ → ℕ → Option ℕ → User
new_user id email email_verified_at = record {
  id = id;
  email = email;
  email_verified_at = email_verified_at;
  role = user;
  status = active;
  suspended_at = none;
  suspended_reason = none;
  deletion_requested_at = none;
  deletion_scheduled_for = none;
  deletion_requested_session_id = none;
  deletion_requested_trace_id = none;
  deleted_at = none;
}

abbrev pub new_profile : ℕ → ProfileNames → UserProfile
new_profile user_id names = record {
  user_id = user_id;
  profile_image_file_id = none;
  display_name = names.display_name;
  given_name = names.given_name;
  family_name = names.family_name;
}

abbrev pub no_names : ProfileNames
no_names = record { display_name = none; given_name = none; family_name = none }

abbrev pub auth_user : Option User → Option AuthUserRecord
auth_user none = none
auth_user (some u) = some (to_auth_user_record u)

-- The catch blocks of the two registrations.
abbrev pub password_conflict :
    Result DbError AuthUserRecord × Db → Result DbError AuthUserRecord × Db
password_conflict (err (unique_violation email_field), db) = (err email_already_exists_error, db)
password_conflict r = r

abbrev pub identity_conflict :
    Result DbError AuthUserRecord × Db → Result DbError AuthUserRecord × Db
identity_conflict (err (unique_violation email_field), db) = (err email_already_exists_error, db)
identity_conflict (err (unique_violation subject_field), db) =
    (err external_identity_already_exists_error, db)
identity_conflict r = r

abbrev pub methods_of : Option PasswordCredential → List ExternalIdentity → List AuthMethod
methods_of credential identities =
    (if is_some credential then password_method ∷ [] else [])
    ++ (if any (λ (i : ExternalIdentity). provider_eq i.provider google) identities
        then google_method ∷ []
        else [])

module _ (q : Queries) where
  unfoldable pub verify_email_if_matching : User → Option ℕ → ℕ → Action (Unit {0})
  verify_email_if_matching u none now = pure tt
  verify_email_if_matching u (some email) now =
      if is_some u.email_verified_at
      then pure tt
      else if not (email == u.email)
      then pure tt
      else (do
        update_many_users q (λ r. r.id == u.id && is_null r.email_verified_at)
            (λ r. record r { email_verified_at = some now })
        pure tt)

  -- The nested create: the user, then the rows that hang on it.
  unfoldable pub register : ℕ → ℕ → Action AuthUserRecord
  register email password_hash = do
    fresh ← new_id q
    let u = new_user fresh email none
    insert_user q u
    insert_credential q (record { user_id = fresh; password_hash = password_hash })
    insert_profile q (new_profile fresh no_names)
    pure (to_auth_user_record u)

  unfoldable pub create_user_with_password : ℕ → ℕ → Action AuthUserRecord
  create_user_with_password email password_hash db =
      password_conflict (transaction q (register email password_hash) db)

  unfoldable pub find_user_id_by_email : ℕ → Action (Option ℕ)
  find_user_id_by_email email = do
    found ← find_user q (λ u. u.email == email)
    pure (elim found [ none ↦ none | some u ↦ some u.id ])

  unfoldable pub find_user_by_id : ℕ → Action (Option AuthUserRecord)
  find_user_by_id user_id = do found ← find_user q (λ u. u.id == user_id); pure (auth_user found)

  unfoldable pub get_auth_methods : ℕ → Action (List AuthMethod)
  get_auth_methods user_id = do
    found ← find_user q (λ u. u.id == user_id)
    credential ← find_credential q (λ c. c.user_id == user_id)
    identities ← find_identities q (λ i. i.user_id == user_id)
    elim found [ none ↦ throw user_missing | some u ↦ pure (methods_of credential identities) ]

  unfoldable pub find_user_by_external_identity : OidcProvider → ℕ → Action (Option AuthUserRecord)
  find_user_by_external_identity provider subject = do
    found ← find_identity q (same_subject provider subject)
    elim found [
      | none ↦ pure none
      | some i ↦ (do owner ← find_user q (λ u. u.id == i.user_id); pure (auth_user owner))
    ]

  unfoldable pub register_external : NewExternalUser → Action AuthUserRecord
  register_external input = do
    fresh ← new_id q
    let u = new_user fresh input.email (some input.email_verified_at)
    insert_user q u
    insert_profile q (new_profile fresh input.names)
    identity_id ← new_id q
    insert_identity q (record {
      id = identity_id;
      provider = input.provider;
      subject = input.subject;
      email = input.identity_email;
      user_id = fresh;
    })
    pure (to_auth_user_record u)

  unfoldable pub create_user_with_external_identity : NewExternalUser → Action AuthUserRecord
  create_user_with_external_identity input db =
      identity_conflict (transaction q (register_external input) db)

  -- An identity under this subject is there: it is the user's, or another's.
  unfoldable pub link_found : LinkInput → User → ExternalIdentity → Action LinkResult
  link_found input u i =
      if not (i.user_id == input.user_id)
      then pure identity_linked_to_other_user
      else (do verify_email_if_matching u input.email input.now; pure already_linked)

  unfoldable pub insert_link : LinkInput → Action LinkResult
  insert_link input = do
    fresh ← new_id q
    insert_identity q (record {
      id = fresh;
      provider = input.provider;
      subject = input.subject;
      email = input.email;
      user_id = input.user_id;
    })
    pure linked

  -- The catch block: which of the two constraints did another request win?
  unfoldable pub link_raced : LinkInput → User → DbError → Action LinkResult
  link_raced input u e = do
    raced ← find_identity q (same_subject input.provider input.subject)
    elim raced [
      | some i ↦ link_found input u i
      | none ↦ (do
        raced_provider ← find_identity q (same_provider input.user_id input.provider)
        if is_some raced_provider then pure provider_already_linked else throw e)
    ]

  -- After the try: an identity that was created may verify the user's e-mail.
  unfoldable pub link_inserted : LinkInput → User → LinkResult → Action LinkResult
  link_inserted input u linked = do verify_email_if_matching u input.email input.now; pure linked
  link_inserted input u other = pure other

  unfoldable pub link_new : LinkInput → User → Action LinkResult
  link_new input u = do
    answer ← (λ db. handle q is_unique_violation (link_raced input u) (insert_link input db))
    link_inserted input u answer

  -- `others` is what other requests commit between the reads and the create.
  unfoldable pub link_user : (Db → Db) → LinkInput → User → Action LinkResult
  link_user others input u = do
    identity ← find_identity q (same_subject input.provider input.subject)
    elim identity [
      | some i ↦ link_found input u i
      | none ↦ (do
        existing ← find_identity q (same_provider input.user_id input.provider)
        if is_some existing
            then pure provider_already_linked
            else (do meanwhile others; link_new input u))
    ]

  unfoldable pub link_tx : (Db → Db) → LinkInput → Action LinkResult
  link_tx others input = do
    found ← find_user q (λ u. u.id == input.user_id)
    elim found [ none ↦ pure user_not_found | some u ↦ link_user others input u ]

  unfoldable pub link_external_identity_to_user : (Db → Db) → LinkInput → Action LinkResult
  link_external_identity_to_user others input = transaction q (link_tx others input)

  unfoldable pub find_user_for_login : ℕ → Action (Option LoginUser)
  find_user_for_login email = do
    found ← find_user q (λ u. u.email == email)
    elim found [
      | none ↦ pure none
      | some u ↦ (do
        credential ← find_credential q (λ c. c.user_id == u.id)
        pure (elim credential [
          | none ↦ none
          | some c ↦ some (record { user = to_auth_user_record u; password_hash = c.password_hash })
        ]))
    ]

  unfoldable pub mark_verification_token : EmailVerificationToken → ℕ → Action ℕ
  mark_verification_token token now =
      update_verification_tokens q (λ t. t.id == token.id && is_null t.used_at)
        (λ t. record t { used_at = some now })

  unfoldable pub use_verification_token : EmailVerificationToken → ℕ → Action VerifyEmailResult
  use_verification_token token now = do
    updated ←
        update_many_users q (λ u. u.id == token.user_id && is_null u.email_verified_at)
          (λ u. record u { email_verified_at = some now })
    mark_verification_token token now
    pure (if updated == 0 then already_verified else verified)

  unfoldable pub verify_found : EmailVerificationToken → User → ℕ → Action VerifyEmailResult
  verify_found token u now =
      if is_some u.email_verified_at
      then (do mark_verification_token token now; pure already_verified)
      else if is_some token.revoked_at || is_some token.used_at
      then pure token_invalid
      else if leb token.expires_at now
      then pure token_expired
      else use_verification_token token now

  -- The token is read with its user, to whom a foreign key leads.
  unfoldable pub verify_token : EmailVerificationToken → ℕ → Action VerifyEmailResult
  verify_token token now = do
    owner ← find_user q (λ u. u.id == token.user_id)
    elim owner [ none ↦ pure token_invalid | some u ↦ verify_found token u now ]

  unfoldable pub verify_tx : ℕ → ℕ → Action VerifyEmailResult
  verify_tx token_hash now = do
    found ← find_verification_token q (λ t. t.token_hash == token_hash)
    elim found [ none ↦ pure token_invalid | some token ↦ verify_token token now ]

  unfoldable pub verify_email_by_token_hash : ℕ → ℕ → Action VerifyEmailResult
  verify_email_by_token_hash token_hash now = with_retry q (verify_tx token_hash now)
