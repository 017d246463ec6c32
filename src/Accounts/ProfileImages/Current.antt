-- ===== src/Accounts/ProfileImages/Current.antt =====
-- The image that has been attached is the one that the user has.
use backend_core_kit.Prelude.{
  ℕ, ◌==◌, ◌≡◌, arith, if◌then◌else◌, refl, ◌∙◌, subst, Bool, true, false, ◌&&◌, Option, some, none,
  List, [], ◌∷◌, ◌++◌, any, find?, update_where, Bool-cases, Option-cases, inl, inr, ==_refl,
  find?-update_where, find?-passes, find?-any, find?-none, find?-append_one,
}
use backend_core_kit.Db.{
  Db, User, UserProfile, StoredFile, FilePurpose, FileStatus, profile_image, file_active,
  file_deleted, uploading, file_status_eq, DbError, Result, ok, err,
}
use backend_core_kit.Db.Queries.{Queries, IsSql, memory_with, memory-eq}
use backend_core_kit.Accounts.ProfileImages.{
  ImageFile, AttachResult, no_holder, attached, current, is_gone, image_of, is_owned, is_kept,
  is_pending, is_current, is_profile_image, activated, dropped, with_image, image_profile,
  attach_tx, attach_found, attach_profile_image_file, drop_previous, get_current_profile_image_file,
  current_image,
}

-- The first row of a kind is the first of a stronger kind, if it is of that.
find?-stronger {ℓ} :
    {A : Type ℓ} (p c : A → Bool) (xs : List A) (x : A)
    → ((y : A) → p y ≡ false → c y ≡ false)
    → find? p xs ≡ some x
    → c x ≡ true
    → find? c xs ≡ some x
find?-stronger p c [] x k e h = cc e
find?-stronger p c (y ∷ ys) x k e h = ground (arith, k y, find?-stronger p c ys x k)

abbrev previous_dropped : ℕ → ℕ → ℕ → Option ℕ → List StoredFile → List StoredFile
previous_dropped user_id file_id now none files = files
previous_dropped user_id file_id now (some previous) files =
    if previous == file_id
    then files
    else update_where (λ f. is_kept previous user_id f && is_profile_image f.purpose) (dropped now)
        files

pending-is_owned :
    (file_id user_id now : ℕ) (y : StoredFile)
    → is_owned file_id user_id (if is_pending file_id user_id y then activated now y else y)
      ≡ is_owned file_id user_id y
pending-is_owned file_id user_id now y = elim (Bool-cases (is_pending file_id user_id y)) [
  | inl h ↦ rw h refl
  | inr h ↦ rw h refl
]

dropped-is_owned :
    (file_id user_id previous now : ℕ) (y : StoredFile)
    → is_owned file_id user_id
        (if is_kept previous user_id y && is_profile_image y.purpose then dropped now y else y)
      ≡ is_owned file_id user_id y
dropped-is_owned file_id user_id previous now y =
    elim (Bool-cases (is_kept previous user_id y && is_profile_image y.purpose)) [
      | inl h ↦ rw h refl
      | inr h ↦ rw h refl
    ]

previous_dropped-owned :
    (user_id file_id now : ℕ) (previous : Option ℕ) (files : List StoredFile) (f : StoredFile)
    → find? (is_owned file_id user_id) files ≡ some f
    → find? (is_owned file_id user_id) (previous_dropped user_id file_id now previous files)
      ≡ some f
previous_dropped-owned user_id file_id now none files f e = e
previous_dropped-owned user_id file_id now (some previous) files f e =
    elim (Bool-cases (previous == file_id)) [
      | inl same ↦ rw same e
      | inr other ↦
          let w = λ (y : StoredFile). is_kept previous user_id y && is_profile_image y.purpose in
          let own : is_owned file_id user_id f ≡ true =
            find?-passes (is_owned file_id user_id) files f e in
          let kept : w f ≡ false = ground arith in
          rw other (
            find?-update_where (is_owned file_id user_id) w (dropped now) files f
              (dropped-is_owned file_id user_id previous now) e
            ∙ rw kept refl)
    ]

every_purpose : (p : FilePurpose) → is_profile_image p ≡ true
every_purpose profile_image = refl

neither_is_active :
    (s : FileStatus)
    → file_status_eq s file_deleted ≡ false
    → file_status_eq s uploading ≡ false
    → file_status_eq s file_active ≡ true
neither_is_active uploading h k = cc k
neither_is_active file_active h k = refl
neither_is_active file_deleted h k = cc h

activated-is_current :
    (file_id user_id now : ℕ) (f : StoredFile)
    → is_owned file_id user_id f ≡ true
    → file_status_eq f.status file_deleted ≡ false
    → let g = if is_pending file_id user_id f then activated now f else f in
      (is_current file_id user_id g ≡ true) × (g.id ≡ f.id) × (g.object_key ≡ f.object_key)
activated-is_current file_id user_id now f own kept =
    elim (Bool-cases (is_pending file_id user_id f)) [
      | inl pending ↦ rw pending (rw (own, every_purpose f.purpose) refl, refl, refl)
      | inr done ↦
          let settled : file_status_eq f.status uploading ≡ false = ground arith in
          rw done (
            rw (own, every_purpose f.purpose) (neither_is_active f.status kept settled),
            refl,
            refl,
          )
    ]

-- A stored file that is not deleted is current once it has been attached.
attached-is_current :
    (user_id file_id now : ℕ) (previous : Option ℕ) (files : List StoredFile) (f : StoredFile)
    → find? (is_owned file_id user_id) files ≡ some f
    → file_status_eq f.status file_deleted ≡ false
    → let activated_files = update_where (is_pending file_id user_id) (activated now) files in
      (g : StoredFile) × (find?
          (is_current file_id user_id)
          (previous_dropped user_id file_id now previous activated_files)
        ≡ some g)
      × (g.id ≡ f.id)
      × (g.object_key ≡ f.object_key)
attached-is_current user_id file_id now previous files f e kept =
    let activated_files = update_where (is_pending file_id user_id) (activated now) files in
    let g = if is_pending file_id user_id f then activated now f else f in
    let own : is_owned file_id user_id f ≡ true =
      find?-passes (is_owned file_id user_id) files f e in
    let found = previous_dropped-owned user_id file_id now previous activated_files g (
      find?-update_where (is_owned file_id user_id) (is_pending file_id user_id) (activated now)
        files f (pending-is_owned file_id user_id now) e) in
    let (is_now, same_id, same_key) = activated-is_current file_id user_id now f own kept in
    (
      g,
      find?-stronger (is_owned file_id user_id) (is_current file_id user_id)
          (previous_dropped user_id file_id now previous activated_files) g (λ y h. ground arith)
          found is_now,
      same_id,
      same_key,
    )

upserted-image_of :
    (user_id file_id : ℕ) (profiles : List UserProfile)
    → let mine = λ (p : UserProfile). p.user_id == user_id in
      image_of (
        find? mine (
          if any mine profiles
          then update_where mine (with_image (some file_id)) profiles
          else profiles ++ image_profile user_id file_id ∷ []))
      ≡ some file_id
upserted-image_of user_id file_id profiles =
    let mine = λ (p : UserProfile). p.user_id == user_id in
    elim (Option-cases (find? mine profiles)) [
      | inl nobody ↦
          rw
            (
              find?-none mine profiles nobody,
              find?-append_one mine profiles (image_profile user_id file_id)
                  (find?-none mine profiles nobody) (==_refl user_id),
            )
            refl
      | inr (p, found) ↦
          rw
            (
              find?-any mine profiles p found,
              find?-update_where mine mine (with_image (some file_id)) profiles p
                  (λ y. elim (Bool-cases (mine y)) [ inl h ↦ rw h h | inr h ↦ rw h h ]) found,
              find?-passes mine profiles p found,
            )
            refl
    ]

module _ (continues : Bool) (uuid : Db → ℕ) (faults : ℕ → Db → Option DbError) where
  abbrev q : Queries
  q = memory_with continues uuid faults

  drop_previous_lem :
      (user_id file_id now : ℕ) (previous : Option ℕ) (db : Db)
      → drop_previous q user_id file_id now previous db
        ≡ (ok tt, record db { files = previous_dropped user_id file_id now previous db.files })
  unfolding drop_previous
  drop_previous_lem user_id file_id now none db = refl
  drop_previous_lem user_id file_id now (some previous) db =
      elim (Bool-cases (previous == file_id)) [ inl h ↦ rw h refl | inr h ↦ rw h refl ]

  abbrev after_attach : ℕ → ℕ → ℕ → Db → Db
  after_attach user_id file_id now db =
      let mine = λ (p : UserProfile). p.user_id == user_id in
      record db {
        users = update_where (λ u. u.id == user_id) (λ u. u) db.users;
        profiles =
            if any mine db.profiles
            then update_where mine (with_image (some file_id)) db.profiles
            else db.profiles ++ image_profile user_id file_id ∷ [];
        files =
            previous_dropped user_id file_id now (image_of (find? mine db.profiles))
              (update_where (is_pending file_id user_id) (activated now) db.files);
      }

  attach_found_lem :
      (user_id file_id now : ℕ) (db : Db)
      → any (λ u. u.id == user_id) db.users ≡ true
      → attach_found q user_id file_id now db ≡ (
        ok (attached (image_of (find? (λ p. p.user_id == user_id) db.profiles))),
        after_attach user_id file_id now db,
      )
  unfolding attach_found
  attach_found_lem user_id file_id now db there = rw (there, drop_previous_lem) refl

  after_attach-current :
      (user_id file_id now : ℕ) (u : User) (f : StoredFile) (db : Db)
      → find? (λ u. u.id == user_id) db.users ≡ some u
      → is_gone (some u) ≡ false
      → find? (is_owned file_id user_id) db.files ≡ some f
      → file_status_eq f.status file_deleted ≡ false
      → (get_current_profile_image_file q user_id (after_attach user_id file_id now db)).0
        ≡ ok (current (some (record { id = f.id; object_key = f.object_key })))
  unfolding get_current_profile_image_file current_image
  after_attach-current user_id file_id now u f db found present stored kept =
      let previous = image_of (find? (λ p. p.user_id == user_id) db.profiles) in
      let (g, is_now, same_id, same_key) =
        attached-is_current user_id file_id now previous db.files f stored kept in
      let same_user =
        find?-update_where (λ (u : User). u.id == user_id) (λ u. u.id == user_id) (λ u. u) db.users
          u (λ y. elim (Bool-cases (y.id == user_id)) [ inl h ↦ rw h h | inr h ↦ rw h h ]) found in
      let own = find?-passes (λ (u : User). u.id == user_id) db.users u found in
      rw
        (
          same_user,
          own,
          present,
          upserted-image_of user_id file_id db.profiles,
          is_now,
          same_id,
          same_key,
        )
        refl

-- What an answer says of the user's image afterwards.
Shows : Queries → ℕ → ImageFile → Result DbError AttachResult × Db → Type 0
Shows q user_id image (ok (attached previous), after) =
    (get_current_profile_image_file q user_id after).0 ≡ ok (current (some image))
Shows q user_id image (ok no_holder, after) = Unit
Shows q user_id image (err e, after) = Unit

memory-Shows :
    (continues : Bool) (uuid : Db → ℕ) (faults : ℕ → Db → Option DbError) (user_id file_id now : ℕ)
    (f : StoredFile) (db : Db)
    → find? (is_owned file_id user_id) db.files ≡ some f
    → file_status_eq f.status file_deleted ≡ false
    → let q = memory_with continues uuid faults in
      Shows q user_id
        (record { id = f.id; object_key = f.object_key })
        (attach_profile_image_file q user_id file_id now db)
unfolding attach_profile_image_file attach_tx Shows
memory-Shows continues uuid faults user_id file_id now f db stored kept =
    elim (Option-cases (faults 1 db)) [
      | inr (e, fails) ↦ rw fails tt
      | inl runs ↦ elim (Option-cases (find? (λ (u : User). u.id == user_id) db.users)) [
        | inl nobody ↦ rw (runs, nobody) tt
        | inr (u, found) ↦ elim (Bool-cases (is_gone (some u))) [
          | inl gone ↦ rw (runs, found, gone) tt
          | inr present ↦
              rw
                (
                  runs,
                  found,
                  present,
                  attach_found_lem continues uuid faults user_id file_id now db
                      (find?-any (λ (u : User). u.id == user_id) db.users u found),
                )
                (after_attach-current continues uuid faults user_id file_id now u f db found present
                  stored kept)
        ]
      ]
    ]

-- Attaching a stored file of the user that is not deleted, when it is answered by `attached`, makes
-- it the user's current image, whatever the user's image was before.
pub attach_profile_image_file-current_image :
    (q : Queries)
    → IsSql q
    → (user_id file_id now : ℕ) (previous : Option ℕ) (f : StoredFile) (db : Db)
    → find? (is_owned file_id user_id) db.files ≡ some f
    → file_status_eq f.status file_deleted ≡ false
    → (attach_profile_image_file q user_id file_id now db).0 ≡ ok (attached previous)
    → (get_current_profile_image_file q user_id
        (attach_profile_image_file q user_id file_id now db).1).0
      ≡ ok (current (some (record { id = f.id; object_key = f.object_key })))
unfolding Shows
attach_profile_image_file-current_image q sql user_id file_id now previous f db stored kept h =
    let image : ImageFile = record { id = f.id; object_key = f.object_key } in
    let r = attach_profile_image_file q user_id file_id now db in
    let shown : Shows q user_id image r =
      subst (λ m. Shows m user_id image (attach_profile_image_file m user_id file_id now db))
        (memory-eq q sql)
        (memory-Shows q.continues q.generate_uuid q.fault user_id file_id now f db stored kept) in
    subst (λ a. Shows q user_id image (a, r.1)) h shown
