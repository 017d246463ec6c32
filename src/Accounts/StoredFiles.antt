-- ===== src/Accounts/StoredFiles.antt =====
-- apps/worker/src/jobs/users-account-deletion.handlers.ts: runDeleteProfileImageStoredFile and
-- runExpireProfileImageUpload, the jobs that delete a stored file and an upload that was not
-- completed.
pub mod Deleted
pub mod Samples
pub mod Tests
use backend_core_kit.Prelude.{ℕ, ◌≡◌, ◌≢◌, Bool, false, Option, none, some, not, if◌then◌else◌}
use backend_core_kit.Db.{Db, DbError, Result, ok, err, StoredFile, uploading, file_status_eq}
use backend_core_kit.Db.Queries.{Queries, Action}
use backend_core_kit.Db.Client.{find_file, update_files}
use backend_core_kit.Accounts.ProfileImages.{is_owned, is_kept, is_profile_image, dropped}

-- The object storage, which is reached through a client that is not code of the repository: whether it
-- is configured, the objects that it holds under their keys, and the documented effect of deleting
-- one, which can throw.
pub record ObjectStorage : Type 1 where
  pub Objects : Type 0
  pub is_enabled : Bool
  pub holds : Objects → ℕ → Bool
  pub delete : Objects → ℕ → Result DbError (Unit {0}) × Objects
  pub holds-delete :
      (objects : Objects) (key : ℕ)
      → (delete objects key).0 ≡ ok tt
      → holds (delete objects key).1 key ≡ false
  pub holds-delete_other :
      (objects : Objects) (key other : ℕ)
      → other ≢ key
      → holds (delete objects key).1 other ≡ holds objects other

pub record FileJob : Type 0 where
  pub file_id : ℕ
  pub owner_user_id : ℕ

pub data DeleteFileResult : Type 0 where
  nothing_to_delete other_purpose no_storage file_was_deleted : DeleteFileResult

pub data ExpireResult : Type 0 where
  nothing_to_expire not_an_image not_uploading : ExpireResult
  -- Whether the storage was configured.
  expired : Bool → ExpireResult

-- What a job does to the objects and the database.
abbrev pub Job : Type 0 → Type 0 → Type 0
Job S A = S → Result DbError A × S

abbrev pub pure : {S A : Type 0} → A → Job S A
pure a s = (ok a, s)

abbrev pub then_run : {S A B : Type 0} → (A → Job S B) → Result DbError A × S → Result DbError B × S
then_run f (ok a, s) = f a s
then_run f (err e, s) = (err e, s)

infixl 5 ◌>>=◌ ◌>>◌
abbrev pub ◌>>=◌ : {S A B : Type 0} → Job S A → (A → Job S B) → Job S B
◌>>=◌ m f s = then_run f (m s)

abbrev pub ◌>>◌ : {S A B : Type 0} → Job S A → Job S B → Job S B
m >> k = m >>= λ _. k

module _ (q : Queries) (storage : ObjectStorage) where
  abbrev pub State : Type 0
  State = storage.Objects × Db

  abbrev pub on_database : {A : Type 0} → Action A → Job State A
  on_database action (objects, db) = let r = action db in (r.0, (objects, r.1))

  abbrev pub delete_object : ℕ → Job State (Unit {0})
  delete_object key (objects, db) = let r = storage.delete objects key in (r.0, (r.1, db))

  -- `others` is what other requests do while the object is deleted, and before the update.
  abbrev pub meanwhile : (State → State) → Job State (Unit {0})
  meanwhile others s = (ok tt, others s)

  unfoldable pub delete_found :
      (State → State) → FileJob → ℕ → StoredFile → Job State DeleteFileResult
  delete_found others job now file =
      if not (is_profile_image file.purpose)
      then pure other_purpose
      else if not storage.is_enabled
      then pure no_storage
      else (do
        delete_object file.object_key
        meanwhile others
        on_database (update_files q (is_kept file.id job.owner_user_id) (dropped now))
        pure file_was_deleted)

  unfoldable pub run_delete_profile_image_stored_file :
      (State → State) → FileJob → ℕ → Job State DeleteFileResult
  run_delete_profile_image_stored_file others job now = do
    found ← on_database (find_file q (is_owned job.file_id job.owner_user_id))
    elim found [ none ↦ pure nothing_to_delete | some file ↦ delete_found others job now file ]

  unfoldable pub delete_if_enabled : ℕ → Job State (Unit {0})
  delete_if_enabled key = if storage.is_enabled then delete_object key else pure tt

  unfoldable pub expire_found : (State → State) → FileJob → ℕ → StoredFile → Job State ExpireResult
  expire_found others job now file =
      if not (is_profile_image file.purpose)
      then pure not_an_image
      else if not (file_status_eq file.status uploading)
      then pure not_uploading
      else (do
        delete_if_enabled file.object_key
        meanwhile others
        on_database (update_files q (is_kept file.id job.owner_user_id) (dropped now))
        pure (expired storage.is_enabled))

  unfoldable pub run_expire_profile_image_upload :
      (State → State) → FileJob → ℕ → Job State ExpireResult
  run_expire_profile_image_upload others job now = do
    found ← on_database (find_file q (is_owned job.file_id job.owner_user_id))
    elim found [ none ↦ pure nothing_to_expire | some file ↦ expire_found others job now file ]
