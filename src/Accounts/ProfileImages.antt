-- ===== src/Accounts/ProfileImages.antt =====
-- libs/features/users/infra/persistence/prisma-profile-image.repository.ts: the stored file of a
-- user's profile image.
pub mod Current
pub mod Tests
use backend_core_kit.Prelude.{
  ℕ, ◌==◌, Bool, true, false, not, ◌&&◌, ◌||◌, Option, none, some, is_null, if◌then◌else◌,
}
use backend_core_kit.Db.{
  Db, User, deleted, status_eq, UserProfile, StoredFile, FilePurpose, profile_image, FileStatus,
  uploading, file_active, file_deleted, file_status_eq,
}
use backend_core_kit.Db.Queries.{Queries, Action}
use backend_core_kit.Db.Client.{
  ◌>>=◌, ◌>>◌, pure, find_user, update_users, find_profile, upsert_profile, update_profiles,
  find_file, update_files, insert_file, transaction,
}

pub record NewImageFile : Type 0 where
  pub file_id : ℕ
  pub owner_user_id : ℕ
  pub bucket : ℕ
  pub object_key : ℕ
  pub content_type : ℕ
  pub size_bytes : ℕ
  pub trace_id : ℕ

pub record ImageFile : Type 0 where
  pub id : ℕ
  pub object_key : ℕ

pub data CreateImageResult : Type 0 where
  no_owner image_created : CreateImageResult

pub data AttachResult : Type 0 where
  no_holder : AttachResult
  attached : Option ℕ → AttachResult

pub data ClearResult : Type 0 where
  no_bearer : ClearResult
  cleared : Option ImageFile → ClearResult

pub data CurrentResult : Type 0 where
  no_person : CurrentResult
  current : Option ImageFile → CurrentResult

abbrev pub is_gone : Option User → Bool
is_gone none = true
is_gone (some u) = status_eq u.status deleted

-- profile?.profileImageFileId ?? null
abbrev pub image_of : Option UserProfile → Option ℕ
image_of none = none
image_of (some p) = p.profile_image_file_id

abbrev pub image_file : Option StoredFile → Option ImageFile
image_file none = none
image_file (some f) = some (record { id = f.id; object_key = f.object_key })

abbrev pub is_owned : ℕ → ℕ → StoredFile → Bool
is_owned file_id owner f = f.id == file_id && f.owner_user_id == owner

abbrev pub is_kept : ℕ → ℕ → StoredFile → Bool
is_kept file_id owner f = is_owned file_id owner f && not (file_status_eq f.status file_deleted)

abbrev pub is_profile_image : FilePurpose → Bool
is_profile_image profile_image = true

abbrev pub is_pending : ℕ → ℕ → StoredFile → Bool
is_pending file_id owner f =
    is_kept file_id owner f && (file_status_eq f.status uploading || is_null f.uploaded_at)

abbrev pub is_current : ℕ → ℕ → StoredFile → Bool
is_current file_id owner f =
    is_owned file_id owner f && is_profile_image f.purpose && file_status_eq f.status file_active

abbrev pub activated : ℕ → StoredFile → StoredFile
activated now f = record f { status = file_active; uploaded_at = some now }

abbrev pub dropped : ℕ → StoredFile → StoredFile
dropped now f = record f { status = file_deleted; deleted_at = some now }

abbrev pub with_image : Option ℕ → UserProfile → UserProfile
with_image image p = record p { profile_image_file_id = image }

abbrev pub image_profile : ℕ → ℕ → UserProfile
image_profile user_id file_id = record {
  user_id = user_id;
  profile_image_file_id = some file_id;
  display_name = none;
  given_name = none;
  family_name = none;
}

abbrev pub uploading_file : NewImageFile → StoredFile
uploading_file input = record {
  id = input.file_id;
  owner_user_id = input.owner_user_id;
  purpose = profile_image;
  status = uploading;
  bucket = input.bucket;
  object_key = input.object_key;
  content_type = input.content_type;
  size_bytes = input.size_bytes;
  uploaded_at = none;
  deleted_at = none;
  trace_id = some input.trace_id;
}

module _ (q : Queries) where
  unfoldable pub create_profile_image_file : NewImageFile → Action CreateImageResult
  create_profile_image_file input = do
    found ← find_user q (λ u. u.id == input.owner_user_id)
    if is_gone found
        then pure no_owner
        else (do insert_file q (uploading_file input); pure image_created)

  unfoldable pub find_stored_file_for_owner : ℕ → ℕ → Action (Option StoredFile)
  find_stored_file_for_owner file_id owner = find_file q (is_owned file_id owner)

  unfoldable pub get_profile_image_file_id : ℕ → Action (Option ℕ)
  get_profile_image_file_id user_id = do
    profile ← find_profile q (λ p. p.user_id == user_id)
    pure (image_of profile)

  -- The image that the user had before is dropped, unless it is the same.
  unfoldable pub drop_previous : ℕ → ℕ → ℕ → Option ℕ → Action (Unit {0})
  drop_previous user_id file_id now none = pure tt
  drop_previous user_id file_id now (some previous) = if previous == file_id then pure tt else (do
    update_files q (λ f. is_kept previous user_id f && is_profile_image f.purpose) (dropped now)
    pure tt)

  unfoldable pub attach_found : ℕ → ℕ → ℕ → Action AttachResult
  attach_found user_id file_id now = do
    profile ← find_profile q (λ p. p.user_id == user_id)
    update_files q (is_pending file_id user_id) (activated now)
    update_users q (λ u. u.id == user_id) (λ u. u)
    upsert_profile q (λ p. p.user_id == user_id) (image_profile user_id file_id)
        (with_image (some file_id))
    drop_previous user_id file_id now (image_of profile)
    pure (attached (image_of profile))

  unfoldable pub attach_tx : ℕ → ℕ → ℕ → Action AttachResult
  attach_tx user_id file_id now = do
    found ← find_user q (λ u. u.id == user_id)
    if is_gone found then pure no_holder else attach_found user_id file_id now

  unfoldable pub attach_profile_image_file : ℕ → ℕ → ℕ → Action AttachResult
  attach_profile_image_file user_id file_id now = transaction q (attach_tx user_id file_id now)

  unfoldable pub mark_stored_file_deleted : ℕ → ℕ → ℕ → Action (Unit {0})
  mark_stored_file_deleted file_id owner now = do
    update_files q (is_kept file_id owner) (dropped now)
    pure tt

  unfoldable pub clear_image : ℕ → ℕ → Option ℕ → Action ClearResult
  clear_image user_id now none = pure (cleared none)
  clear_image user_id now (some file_id) = do
    update_profiles q (λ p. p.user_id == user_id) (with_image none)
    file ← find_file q (is_owned file_id user_id)
    update_files q (is_kept file_id user_id) (dropped now)
    pure (cleared (image_file file))

  unfoldable pub clear_tx : ℕ → ℕ → Action ClearResult
  clear_tx user_id now = do
    found ← find_user q (λ u. u.id == user_id)
    if is_gone found then pure no_bearer else (do
      profile ← find_profile q (λ p. p.user_id == user_id)
      clear_image user_id now (image_of profile))

  unfoldable pub clear_profile_image : ℕ → ℕ → Action ClearResult
  clear_profile_image user_id now = transaction q (clear_tx user_id now)

  unfoldable pub current_image : ℕ → Option ℕ → Action CurrentResult
  current_image user_id none = pure (current none)
  current_image user_id (some file_id) = do
    file ← find_file q (is_current file_id user_id)
    pure (current (image_file file))

  unfoldable pub get_current_profile_image_file : ℕ → Action CurrentResult
  get_current_profile_image_file user_id = do
    found ← find_user q (λ u. u.id == user_id)
    if is_gone found then pure no_person else (do
      profile ← find_profile q (λ p. p.user_id == user_id)
      current_image user_id (image_of profile))
