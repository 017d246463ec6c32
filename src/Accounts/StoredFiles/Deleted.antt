-- ===== src/Accounts/StoredFiles/Deleted.antt =====
-- What the jobs that answer have deleted.
use backend_core_kit.Prelude.{
  ℕ, ◌≡◌, ◌≢◌, refl, sym, subst, arith, Bool, true, false, some, List, any, find?, update_where,
  Bool-cases, inl, inr, find?-passes, any-update_where,
}
use backend_core_kit.Db.{StoredFile, uploading, file_status_eq, DbError, Result, ok, err}
use backend_core_kit.Db.Queries.{Queries, IsSql}
use backend_core_kit.Db.Client.{update_files}
use backend_core_kit.Accounts.ProfileImages.{is_owned, is_kept, is_profile_image, dropped}
use backend_core_kit.Accounts.StoredFiles.{
  ObjectStorage, State, FileJob, ExpireResult, expired, nothing_to_expire, not_an_image,
  not_uploading, then_run, meanwhile, on_database, pure, ◌>>◌, delete_if_enabled, expire_found,
  run_expire_profile_image_upload,
}

none_are_kept :
    (file_id owner now : ℕ) (files : List StoredFile)
    → any (is_kept file_id owner) (update_where (is_kept file_id owner) (dropped now) files) ≡ false
none_are_kept file_id owner now files =
    let kept = is_kept file_id owner in
    any-update_where kept kept (dropped now) files (λ f. elim (Bool-cases (kept f)) [
      | inl h ↦
          rw h
            (elim (Bool-cases (is_owned file_id owner f)) [ inl o ↦ rw o refl | inr o ↦ rw o refl ])
      | inr h ↦ rw h h
    ])

module _ (q : Queries) (storage : ObjectStorage) where
  -- What has been done when others take over: the rows are as they were read, and of the objects, the
  -- file's is gone if a storage is configured, and no other one has changed.
  pub record IsWithoutObject (key : ℕ) (before left : State q storage) : Type 0 where
    pub same_rows : left.1 ≡ before.1
    pub object_deleted : storage.is_enabled ≡ true → storage.holds left.0 key ≡ false
    pub others_kept :
        (other : ℕ) → other ≢ key → storage.holds left.0 other ≡ storage.holds before.0 other
    pub untouched : storage.is_enabled ≡ false → left.0 ≡ before.0

  -- An upload has expired: it was not completed when it was read, its object was deleted before others
  -- took over, and afterwards no file of the id and the owner is kept.
  pub record HasExpired (others : State q storage → State q storage) (job : FileJob)
      (file : StoredFile) (b : Bool) (before after : State q storage) : Type 0 where
    pub was_uploading : file_status_eq file.status uploading ≡ true
    pub was_configured : b ≡ storage.is_enabled
    pub left : State q storage
    pub without_object : IsWithoutObject file.object_key before left
    pub objects_after : after.0 ≡ (others left).0
    pub none_kept : any (is_kept job.file_id job.owner_user_id) after.1.files ≡ false

  delete_if_enabled-IsWithoutObject :
      (key : ℕ) (before : State q storage)
      → (delete_if_enabled q storage key before).0 ≡ ok tt
      → IsWithoutObject key before (delete_if_enabled q storage key before).1
  unfolding delete_if_enabled
  delete_if_enabled-IsWithoutObject key before = elim (Bool-cases storage.is_enabled) [
    | inl on ↦ rw on (λ h. record {
      same_rows = refl;
      object_deleted = λ _. storage.holds-delete before.0 key h;
      others_kept = λ other d. storage.holds-delete_other before.0 key other d;
      untouched = λ off. absurd (cc off);
    })
    | inr off ↦ rw off (λ h. record {
      same_rows = refl;
      object_deleted = λ on. absurd (cc on);
      others_kept = λ other d. refl;
      untouched = λ _. refl;
    })
  ]

  -- What an answer of the job for a found file says.
  Says :
      (State q storage → State q storage)
      → FileJob
      → StoredFile
      → State q storage
      → Result DbError ExpireResult × State q storage
      → Type 0
  Says others job file before (ok (expired b), after) = HasExpired others job file b before after
  Says others job file before (ok nothing_to_expire, after) = Unit
  Says others job file before (ok not_an_image, after) = Unit
  Says others job file before (ok not_uploading, after) = Unit
  Says others job file before (err e, after) = Unit

  deletion-Says :
      IsSql q
      → (others : State q storage → State q storage) (job : FileJob) (now : ℕ) (file : StoredFile)
        (before : State q storage) (r : Result DbError (Unit {0}) × State q storage)
      → file.id ≡ job.file_id
      → file_status_eq file.status uploading ≡ true
      → (r.0 ≡ ok tt → IsWithoutObject file.object_key before r.1)
      → Says others job file before (
          then_run
            (λ _. (do
              meanwhile q storage others
              on_database q storage
                  (update_files q (is_kept file.id job.owner_user_id) (dropped now))
              pure (expired storage.is_enabled)))
            r)
  unfolding Says
  deletion-Says sql others job now file before (err e, s) own pending gone = tt
  deletion-Says sql others job now file before (ok done, s) own pending gone =
      let owner = job.owner_user_id in
      let files = (others s).1.files in
      let kept = is_kept job.file_id owner in
      let expiry : any kept (q.update_many StoredFile (is_kept file.id owner) (dropped now) files).0
          ≡ false =
        subst
          (λ n. any kept (q.update_many StoredFile (is_kept n owner) (dropped now) files).0 ≡ false)
          (sym own)
          (rw (sql.update_many_lem StoredFile kept (dropped now) files)
            (none_are_kept job.file_id owner now files)) in
      record {
        was_uploading = pending;
        was_configured = refl;
        left = s;
        without_object = gone refl;
        objects_after = refl;
        none_kept = expiry;
      }

  expire_found-Says :
      IsSql q
      → (others : State q storage → State q storage) (job : FileJob) (now : ℕ) (file : StoredFile)
        (before : State q storage)
      → file.id ≡ job.file_id
      → Says others job file before (expire_found q storage others job now file before)
  unfolding expire_found Says
  expire_found-Says sql others job now file before own =
      let key = file.object_key in
      elim (Bool-cases (is_profile_image file.purpose)) [
        | inr other ↦ rw other tt
        | inl image ↦ elim (Bool-cases (file_status_eq file.status uploading)) [
          | inr settled ↦ rw (image, settled) tt
          | inl pending ↦
              rw (image, pending)
                (deletion-Says sql others job now file before
                  (delete_if_enabled q storage key before) own pending
                  (delete_if_enabled-IsWithoutObject key before))
        ]
      ]

  run-Says :
      IsSql q
      → (others : State q storage → State q storage) (job : FileJob) (now : ℕ) (file : StoredFile)
        (before : State q storage)
      → find? (is_owned job.file_id job.owner_user_id) before.1.files ≡ some file
      → Says others job file before
          (run_expire_profile_image_upload q storage others job now before)
  unfolding run_expire_profile_image_upload
  run-Says sql others job now file before found =
      let mine = is_owned job.file_id job.owner_user_id in
      let passes = find?-passes mine before.1.files file found in
      let own : file.id ≡ job.file_id = ground arith in
      rw (sql.find_first_lem StoredFile mine before.1.files, found)
        (expire_found-Says sql others job now file before own)

-- When the job for an upload that is stored answers by `expired`, the upload was not completed when
-- it was read. Before other requests took over, the rows were as they were read, and the storage, if
-- one is configured, held no object under the upload's key any more and all others as before; without
-- one it was as before. What the objects are in the end is what these requests have made of that, and
-- no file of the upload's id and owner is kept, whatever they have committed, a completion of the
-- upload included.
pub run_expire_profile_image_upload-HasExpired :
    (q : Queries)
    → IsSql q
    → (storage : ObjectStorage) (others : State q storage → State q storage) (job : FileJob)
      (now : ℕ) (file : StoredFile) (b : Bool) (before : State q storage)
    → find? (is_owned job.file_id job.owner_user_id) before.1.files ≡ some file
    → (run_expire_profile_image_upload q storage others job now before).0 ≡ ok (expired b)
    → HasExpired q storage others job file b before
        (run_expire_profile_image_upload q storage others job now before).1
unfolding Says
run_expire_profile_image_upload-HasExpired q sql storage others job now file b before found h =
    let r = run_expire_profile_image_upload q storage others job now before in
    subst (λ a. Says q storage others job file before (a, r.1)) h
      (run-Says q storage sql others job now file before found)
