-- ===== src/Accounts/ProfileImages/Tests.antt =====
-- A member with an avatar uploads another image and attaches it.
use backend_core_kit.Prelude.{◌≡◌, refl, none, some, find?}
use backend_core_kit.Db.{Db, ok, file_collides}
use backend_core_kit.Db.Queries.{memory-IsSql}
use backend_core_kit.Db.Samples.{client, sample}
use backend_core_kit.Accounts.ProfileImages.{
  NewImageFile, attached, current, create_profile_image_file, attach_tx, attach_found,
  drop_previous, attach_profile_image_file, get_current_profile_image_file, uploading_file,
  is_owned,
}
use backend_core_kit.Accounts.ProfileImages.Current.{attach_profile_image_file-current_image}

abbrev upload : NewImageFile
upload = record {
  file_id = 73;
  owner_user_id = 1;
  bucket = 9;
  object_key = 730;
  content_type = 1;
  size_bytes = 4096;
  trace_id = 900;
}

abbrev uploaded : Db
uploaded = (create_profile_image_file client upload sample).1

member_attaches : (attach_profile_image_file client 1 73 5 uploaded).0 ≡ ok (attached (some 70))
unfolding create_profile_image_file attach_profile_image_file attach_tx attach_found drop_previous
    file_collides
member_attaches = refl

upload_is_stored : find? (is_owned 73 1) uploaded.files ≡ some (uploading_file upload)
unfolding create_profile_image_file file_collides
upload_is_stored = refl

attach_profile_image_file-current_image_example :
    (get_current_profile_image_file client 1 (attach_profile_image_file client 1 73 5 uploaded).1).0
    ≡ ok (current (some (record { id = 73; object_key = 730 })))
attach_profile_image_file-current_image_example =
    attach_profile_image_file-current_image client (memory-IsSql (λ db. 99) (λ n db. none)) 1 73 5
      (some 70) (uploading_file upload) uploaded upload_is_stored refl member_attaches
