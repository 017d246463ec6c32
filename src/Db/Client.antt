-- ===== src/Db/Client.antt =====
-- The calls on one table that the repositories make (client.session.updateMany and the like), as
-- actions on the database, with the sequencing of actions.
use backend_core_kit.Prelude.{
  ℕ, ◌==◌, ◌&&◌, not, any, Bool, List, Option, none, some, if◌then◌else◌,
}
use backend_core_kit.Db.Rows.{
  Db, DbError, unique_violation, record_not_found, transaction_aborted, id_field, email_field,
  token_hash_field, active_key_field, subject_field, provider_field, object_key_field, Result, ok,
  err, User, PasswordCredential, Session, RefreshToken, PasswordResetToken, EmailVerificationToken,
  ExternalIdentity, UserProfile, StoredFile, session_collides, token_collides, user_collides,
  credential_collides, profile_collides, identity_collides, file_collides, same_subject,
}
use backend_core_kit.Db.Queries.{Queries, Action}

abbrev pub bind_result :
    {A B : Type 0} → Result DbError A × Db → (A → Action B) → Result DbError B × Db
bind_result (ok a, db) f = f a db
bind_result (err e, db) f = (err e, db)

infixl 5 ◌>>=◌ ◌>>◌
abbrev pub ◌>>=◌ : {A B : Type 0} → Action A → (A → Action B) → Action B
◌>>=◌ m f db = bind_result (m db) f

abbrev pub ◌>>◌ : {A B : Type 0} → Action A → Action B → Action B
◌>>◌ m k db = bind_result (m db) (λ _. k)

abbrev pub pure : {A : Type 0} → A → Action A
pure a db = (ok a, db)

abbrev pub throw : {A : Type 0} → DbError → Action A
throw e db = (err e, db)

abbrev pub unless : Bool → Action (Unit {0}) → Action (Unit {0})
unless test act = if test then pure tt else act

-- What other requests commit while this one waits.
abbrev pub meanwhile : (Db → Db) → Action (Unit {0})
meanwhile others db = (ok tt, others db)

abbrev stored :
    {Row : Type 0}
    → DbError
    → (List Row → Db)
    → Db
    → Option (List Row)
    → Result DbError (Unit {0}) × Db
stored e put db none = (err e, db)
stored e put db (some rows) = (ok tt, put rows)

module _ (q : Queries) where
  abbrev pub find_user : (User → Bool) → Action (Option User)
  find_user p db = (ok (q.find_unique User p db.users), db)

  abbrev pub find_session : (Session → Bool) → Action (Option Session)
  find_session p db = (ok (q.find_unique Session p db.sessions), db)

  abbrev pub find_sessions : (Session → Bool) → Action (List Session)
  find_sessions p db = (ok (q.find_many Session p db.sessions), db)

  abbrev pub find_token : (RefreshToken → Bool) → Action (Option RefreshToken)
  find_token p db = (ok (q.find_unique RefreshToken p db.refresh_tokens), db)

  abbrev pub find_credential : (PasswordCredential → Bool) → Action (Option PasswordCredential)
  find_credential p db = (ok (q.find_unique PasswordCredential p db.credentials), db)

  abbrev pub find_reset_token : (PasswordResetToken → Bool) → Action (Option PasswordResetToken)
  find_reset_token p db = (ok (q.find_unique PasswordResetToken p db.reset_tokens), db)

  abbrev pub update_users : (User → Bool) → (User → User) → Action (Unit {0})
  update_users p f db =
      stored record_not_found (λ rows. record db { users = rows }) db (q.update User p f db.users)

  -- An update of one user that sets the e-mail, which nobody else may have.
  abbrev pub update_user_email : (User → Bool) → (User → User) → ℕ → Action (Unit {0})
  update_user_email p f email db =
      if any (λ o. not (p o) && o.email == email) db.users
      then (err (unique_violation email_field), db)
      else update_users p f db

  abbrev pub update_session : (Session → Bool) → (Session → Session) → Action (Unit {0})
  update_session p f db =
      stored record_not_found (λ rows. record db { sessions = rows }) db
        (q.update Session p f db.sessions)

  abbrev pub update_sessions : (Session → Bool) → (Session → Session) → Action ℕ
  update_sessions p f db =
      let r = q.update_many Session p f db.sessions in (ok r.1, record db { sessions = r.0 })

  abbrev pub update_tokens : (RefreshToken → Bool) → (RefreshToken → RefreshToken) → Action ℕ
  update_tokens p f db =
      let r = q.update_many RefreshToken p f db.refresh_tokens in
      (ok r.1, record db { refresh_tokens = r.0 })

  abbrev pub update_reset_tokens :
      (PasswordResetToken → Bool) → (PasswordResetToken → PasswordResetToken) → Action ℕ
  update_reset_tokens p f db =
      let r = q.update_many PasswordResetToken p f db.reset_tokens in
      (ok r.1, record db { reset_tokens = r.0 })

  abbrev pub update_credential :
      (PasswordCredential → Bool) → (PasswordCredential → PasswordCredential) → Action (Unit {0})
  update_credential p f db =
      stored record_not_found (λ rows. record db { credentials = rows }) db
        (q.update PasswordCredential p f db.credentials)

  abbrev pub upsert_credential :
      (PasswordCredential → Bool)
      → PasswordCredential
      → (PasswordCredential → PasswordCredential)
      → Action (Unit {0})
  upsert_credential p new f db =
      (ok tt, record db { credentials = q.upsert PasswordCredential p new f db.credentials })

  abbrev pub insert_token : RefreshToken → Action (Unit {0})
  insert_token t db =
      stored (unique_violation token_hash_field) (λ rows. record db { refresh_tokens = rows }) db
        (q.create RefreshToken token_collides t db.refresh_tokens)

  abbrev pub insert_session : Session → Action (Unit {0})
  insert_session s db =
      stored (unique_violation active_key_field) (λ rows. record db { sessions = rows }) db
        (q.create Session session_collides s db.sessions)

  abbrev pub find_verification_token :
      (EmailVerificationToken → Bool) → Action (Option EmailVerificationToken)
  find_verification_token p db =
      (ok (q.find_unique EmailVerificationToken p db.verification_tokens), db)

  abbrev pub find_identity : (ExternalIdentity → Bool) → Action (Option ExternalIdentity)
  find_identity p db = (ok (q.find_first ExternalIdentity p db.identities), db)

  abbrev pub find_identities : (ExternalIdentity → Bool) → Action (List ExternalIdentity)
  find_identities p db = (ok (q.find_many ExternalIdentity p db.identities), db)

  abbrev pub find_profile : (UserProfile → Bool) → Action (Option UserProfile)
  find_profile p db = (ok (q.find_unique UserProfile p db.profiles), db)

  abbrev pub find_file : (StoredFile → Bool) → Action (Option StoredFile)
  find_file p db = (ok (q.find_first StoredFile p db.files), db)

  -- updateMany on the users.
  abbrev pub update_many_users : (User → Bool) → (User → User) → Action ℕ
  update_many_users p f db =
      let r = q.update_many User p f db.users in (ok r.1, record db { users = r.0 })

  abbrev pub update_verification_tokens :
      (EmailVerificationToken → Bool) → (EmailVerificationToken → EmailVerificationToken) → Action ℕ
  update_verification_tokens p f db =
      let r = q.update_many EmailVerificationToken p f db.verification_tokens in
      (ok r.1, record db { verification_tokens = r.0 })

  abbrev pub update_profiles : (UserProfile → Bool) → (UserProfile → UserProfile) → Action ℕ
  update_profiles p f db =
      let r = q.update_many UserProfile p f db.profiles in (ok r.1, record db { profiles = r.0 })

  abbrev pub upsert_profile :
      (UserProfile → Bool) → UserProfile → (UserProfile → UserProfile) → Action (Unit {0})
  upsert_profile p new f db =
      (ok tt, record db { profiles = q.upsert UserProfile p new f db.profiles })

  abbrev pub update_files : (StoredFile → Bool) → (StoredFile → StoredFile) → Action ℕ
  update_files p f db =
      let r = q.update_many StoredFile p f db.files in (ok r.1, record db { files = r.0 })

  abbrev pub insert_user : User → Action (Unit {0})
  insert_user u db =
      let field = if any (λ o. u.email == o.email) db.users then email_field else id_field in
      stored (unique_violation field) (λ rows. record db { users = rows }) db
        (q.create User user_collides u db.users)

  abbrev pub insert_credential : PasswordCredential → Action (Unit {0})
  insert_credential c db =
      stored (unique_violation id_field) (λ rows. record db { credentials = rows }) db
        (q.create PasswordCredential credential_collides c db.credentials)

  abbrev pub insert_profile : UserProfile → Action (Unit {0})
  insert_profile p db =
      stored (unique_violation id_field) (λ rows. record db { profiles = rows }) db
        (q.create UserProfile profile_collides p db.profiles)

  abbrev pub insert_identity : ExternalIdentity → Action (Unit {0})
  insert_identity i db =
      let field =
        if any (same_subject i.provider i.subject) db.identities
        then subject_field
        else provider_field in
      stored (unique_violation field) (λ rows. record db { identities = rows }) db
        (q.create ExternalIdentity identity_collides i db.identities)

  abbrev pub insert_file : StoredFile → Action (Unit {0})
  insert_file f db =
      stored (unique_violation object_key_field) (λ rows. record db { files = rows }) db
        (q.create StoredFile file_collides f db.files)

  abbrev pub delete_credentials : (PasswordCredential → Bool) → Action (Unit {0})
  delete_credentials p db =
      (ok tt, record db { credentials = q.delete_many PasswordCredential p db.credentials })

  abbrev pub delete_identities : (ExternalIdentity → Bool) → Action (Unit {0})
  delete_identities p db =
      (ok tt, record db { identities = q.delete_many ExternalIdentity p db.identities })

  abbrev pub delete_verification_tokens : (EmailVerificationToken → Bool) → Action (Unit {0})
  delete_verification_tokens p db = (
    ok tt,
    record db {
      verification_tokens = q.delete_many EmailVerificationToken p db.verification_tokens;
    },
  )

  abbrev pub delete_reset_tokens : (PasswordResetToken → Bool) → Action (Unit {0})
  delete_reset_tokens p db =
      (ok tt, record db { reset_tokens = q.delete_many PasswordResetToken p db.reset_tokens })

  -- The refresh tokens of a deleted session go with it (onDelete: Cascade).
  abbrev pub delete_sessions : (Session → Bool) → Action (Unit {0})
  delete_sessions p db = (
    ok tt,
    record db {
      sessions = q.delete_many Session p db.sessions;
      refresh_tokens =
          q.delete_many RefreshToken (λ t. any (λ s. s.id == t.session_id && p s) db.sessions)
            db.refresh_tokens;
    },
  )

  -- A catch block inside a transaction, which the database may not let go on.
  abbrev pub handle :
      {A : Type 0}
      → (DbError → Bool)
      → (DbError → Action A)
      → Result DbError A × Db
      → Result DbError A × Db
  handle catches handler (ok a, db) = (ok a, db)
  handle catches handler (err e, db) =
      if catches e
      then if q.continues then handler e db else (err transaction_aborted, db)
      else (err e, db)

  abbrev pub new_id : Action ℕ
  new_id db = (ok (q.generate_uuid db), db)

  -- prisma.transaction(fn), which makes one attempt.
  abbrev pub transaction : {A : Type 0} → Action A → Action A
  transaction {A} body = q.transaction A body 1
