-- ===== src/Accounts/StoredFiles/Tests.antt =====
-- An upload expires while another request completes it.
use backend_core_kit.Prelude.{ℕ, ◌≡◌, refl, none, [], ◌∷◌, true, Bool}
use backend_core_kit.Db.{StoredFile, uploading, ok}
use backend_core_kit.Db.Queries.{memory-IsSql}
use backend_core_kit.Db.Samples.{client, sample, avatar}
use backend_core_kit.Accounts.ProfileImages.{activated}
use backend_core_kit.Accounts.StoredFiles.{
  State, FileJob, expired, expire_found, delete_if_enabled, run_expire_profile_image_upload,
}
use backend_core_kit.Accounts.StoredFiles.Samples.{memory_storage}
use backend_core_kit.Accounts.StoredFiles.Deleted.{
  HasExpired, run_expire_profile_image_upload-HasExpired,
}

abbrev pending : StoredFile
pending = record avatar { status = uploading; uploaded_at = none }

-- Every key has an object.
abbrev all_keys : ℕ → Bool
all_keys key = true

abbrev seen : State client memory_storage
seen = (all_keys, record sample { files = pending ∷ [] })

abbrev completed : State client memory_storage → State client memory_storage
completed (objects, db) = (objects, record db { files = activated 4 pending ∷ [] })

abbrev job : FileJob
job = record { file_id = 70; owner_user_id = 1 }

completed_upload_expires :
    (run_expire_profile_image_upload client memory_storage completed job 5 seen).0
    ≡ ok (expired true)
unfolding run_expire_profile_image_upload expire_found delete_if_enabled
completed_upload_expires = refl

run_expire_profile_image_upload-HasExpired_example :
    HasExpired client memory_storage completed job pending true seen
      (run_expire_profile_image_upload client memory_storage completed job 5 seen).1
run_expire_profile_image_upload-HasExpired_example =
    run_expire_profile_image_upload-HasExpired client (memory-IsSql (λ db. 99) (λ n db. none))
      memory_storage completed job 5 pending true seen refl completed_upload_expires
