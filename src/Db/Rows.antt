-- ===== src/Db/Rows.antt =====
-- The rows and tables of prisma/schema.prisma, the errors of a database call, and the unique
-- constraints as tests on a new row and a stored one.
use backend_core_kit.Prelude.{
  ℕ, Bool, true, false, ◌&&◌, ◌||◌, Option, none, some, List, ◌==◌, column_is,
}

pub data UserRole : Type 0 where
  user admin : UserRole

pub data UserStatus : Type 0 where
  active suspended deleted : UserStatus

pub data PushPlatform : Type 0 where
  android ios web : PushPlatform

abbrev pub role_eq : UserRole → UserRole → Bool
role_eq user user = true
role_eq admin admin = true
role_eq _ _ = false

abbrev pub status_eq : UserStatus → UserStatus → Bool
status_eq active active = true
status_eq suspended suspended = true
status_eq deleted deleted = true
status_eq _ _ = false

pub record User : Type 0 where
  pub id : ℕ
  pub email : ℕ
  pub email_verified_at : Option ℕ
  pub role : UserRole
  pub status : UserStatus
  pub suspended_at : Option ℕ
  pub suspended_reason : Option ℕ
  pub deletion_requested_at : Option ℕ
  pub deletion_scheduled_for : Option ℕ
  pub deletion_requested_session_id : Option ℕ
  pub deletion_requested_trace_id : Option ℕ
  pub deleted_at : Option ℕ

pub record PasswordCredential : Type 0 where
  pub user_id : ℕ
  pub password_hash : ℕ

-- The text `${userId}:${deviceId}`; a UUID holds no colon, so the text is the pair.
pub record ActiveKey : Type 0 where
  pub user_id : ℕ
  pub device_id : ℕ

abbrev pub key_is : Option ActiveKey → ActiveKey → Bool
key_is none k = false
key_is (some j) k = j.user_id == k.user_id && j.device_id == k.device_id

pub record Session : Type 0 where
  pub id : ℕ
  pub user_id : ℕ
  pub device_id : Option ℕ
  pub device_name : Option ℕ
  pub push_platform : Option PushPlatform
  pub push_token : Option ℕ
  pub push_token_updated_at : Option ℕ
  pub push_token_revoked_at : Option ℕ
  pub ip : Option ℕ
  pub user_agent : Option ℕ
  pub active_key : Option ActiveKey
  pub last_seen_at : ℕ
  pub expires_at : ℕ
  pub revoked_at : Option ℕ

pub record RefreshToken : Type 0 where
  pub id : ℕ
  pub token_hash : ℕ
  pub expires_at : ℕ
  pub revoked_at : Option ℕ
  pub session_id : ℕ
  pub replaced_by_id : Option ℕ

pub record PasswordResetToken : Type 0 where
  pub id : ℕ
  pub user_id : ℕ
  pub token_hash : ℕ
  pub expires_at : ℕ
  pub used_at : Option ℕ
  pub revoked_at : Option ℕ

pub record EmailVerificationToken : Type 0 where
  pub id : ℕ
  pub user_id : ℕ
  pub token_hash : ℕ
  pub expires_at : ℕ
  pub used_at : Option ℕ
  pub revoked_at : Option ℕ

pub data OidcProvider : Type 0 where
  google : OidcProvider

abbrev pub provider_eq : OidcProvider → OidcProvider → Bool
provider_eq google google = true

pub record ExternalIdentity : Type 0 where
  pub id : ℕ
  pub provider : OidcProvider
  pub subject : ℕ
  pub email : Option ℕ
  pub user_id : ℕ

pub record UserProfile : Type 0 where
  pub user_id : ℕ
  pub profile_image_file_id : Option ℕ
  pub display_name : Option ℕ
  pub given_name : Option ℕ
  pub family_name : Option ℕ

pub data FilePurpose : Type 0 where
  profile_image : FilePurpose

pub data FileStatus : Type 0 where
  uploading file_active file_deleted : FileStatus

abbrev pub file_status_eq : FileStatus → FileStatus → Bool
file_status_eq uploading uploading = true
file_status_eq file_active file_active = true
file_status_eq file_deleted file_deleted = true
file_status_eq _ _ = false

pub record StoredFile : Type 0 where
  pub id : ℕ
  pub owner_user_id : ℕ
  pub purpose : FilePurpose
  pub status : FileStatus
  pub bucket : ℕ
  pub object_key : ℕ
  pub content_type : ℕ
  pub size_bytes : ℕ
  pub uploaded_at : Option ℕ
  pub deleted_at : Option ℕ
  pub trace_id : Option ℕ

pub record RoleChangeAudit : Type 0 where
  pub actor_user_id : ℕ
  pub actor_session_id : ℕ
  pub target_user_id : ℕ
  pub old_role : UserRole
  pub new_role : UserRole
  pub trace_id : ℕ

pub record StatusChangeAudit : Type 0 where
  pub actor_user_id : ℕ
  pub actor_session_id : ℕ
  pub target_user_id : ℕ
  pub old_status : UserStatus
  pub new_status : UserStatus
  pub reason : Option ℕ
  pub trace_id : ℕ

pub data DeletionAction : Type 0 where
  requested canceled finalized finalize_blocked_last_admin : DeletionAction

pub record DeletionAudit : Type 0 where
  pub actor_user_id : ℕ
  pub actor_session_id : ℕ
  pub target_user_id : ℕ
  pub action : DeletionAction
  pub trace_id : ℕ

pub record Db : Type 0 where
  pub users : List User
  pub credentials : List PasswordCredential
  pub sessions : List Session
  pub refresh_tokens : List RefreshToken
  pub reset_tokens : List PasswordResetToken
  pub role_audits : List RoleChangeAudit
  pub status_audits : List StatusChangeAudit
  pub deletion_audits : List DeletionAudit
  pub verification_tokens : List EmailVerificationToken
  pub identities : List ExternalIdentity
  pub profiles : List UserProfile
  pub files : List StoredFile

-- The columns under a unique constraint.
pub data UniqueField : Type 0 where
  id_field email_field token_hash_field active_key_field push_token_field : UniqueField
  subject_field provider_field object_key_field : UniqueField

-- What a database call may throw. Those of the last lines are thrown by the code around it.
pub data DbError : Type 0 where
  unique_violation : UniqueField → DbError
  record_not_found write_conflict unavailable transaction_aborted : DbError
  refresh_token_already_used retries_exhausted user_missing session_missing : DbError
  email_already_exists_error external_identity_already_exists_error : DbError

pub data Result (E A : Type 0) : Type 0 where
  ok : A → Result E A
  err : E → Result E A

-- Unique constraints: does the new row collide with a stored one? SQL lets NULLs repeat.
abbrev pub key_collides : Option ActiveKey → Option ActiveKey → Bool
key_collides none stored = false
key_collides (some k) stored = key_is stored k

abbrev pub column_collides : Option ℕ → Option ℕ → Bool
column_collides none stored = false
column_collides (some n) stored = column_is stored n

unfoldable pub session_collides : Session → Session → Bool
session_collides new old =
    new.id == old.id
    || key_collides new.active_key old.active_key
    || column_collides new.push_token old.push_token

unfoldable pub token_collides : RefreshToken → RefreshToken → Bool
token_collides new old =
    new.id == old.id
    || new.token_hash == old.token_hash
    || column_collides new.replaced_by_id old.replaced_by_id

unfoldable pub user_collides : User → User → Bool
user_collides new old = new.id == old.id || new.email == old.email

unfoldable pub credential_collides : PasswordCredential → PasswordCredential → Bool
credential_collides new old = new.user_id == old.user_id

unfoldable pub profile_collides : UserProfile → UserProfile → Bool
profile_collides new old =
    new.user_id == old.user_id
    || column_collides new.profile_image_file_id old.profile_image_file_id

-- The two compound constraints: (provider, subject) and (userId, provider).
abbrev pub same_subject : OidcProvider → ℕ → ExternalIdentity → Bool
same_subject provider subject i = provider_eq i.provider provider && i.subject == subject

abbrev pub same_provider : ℕ → OidcProvider → ExternalIdentity → Bool
same_provider user_id provider i = i.user_id == user_id && provider_eq i.provider provider

unfoldable pub identity_collides : ExternalIdentity → ExternalIdentity → Bool
identity_collides new old =
    new.id == old.id
    || same_subject new.provider new.subject old
    || same_provider new.user_id new.provider old

unfoldable pub file_collides : StoredFile → StoredFile → Bool
file_collides new old =
    new.id == old.id || (new.bucket == old.bucket && new.object_key == old.object_key)
