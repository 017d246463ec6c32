-- ===== src/Accounts/StoredFiles/Samples.antt =====
-- An object storage that is a function from keys to whether there is an object, for the tests.
use backend_core_kit.Prelude.{ℕ, ◌==◌, refl, arith, Bool, true, false, if◌then◌else◌, ==_refl}
use backend_core_kit.Db.{ok}
use backend_core_kit.Accounts.StoredFiles.{ObjectStorage}

abbrev without : (ℕ → Bool) → ℕ → ℕ → Bool
without objects key other = if other == key then false else objects other

abbrev pub memory_storage : ObjectStorage
memory_storage = record {
  Objects = ℕ → Bool;
  is_enabled = true;
  holds = λ objects key. objects key;
  delete = λ objects key. (ok tt, without objects key);
  holds-delete = λ objects key h. rw (==_refl key) refl;
  holds-delete_other = λ objects key other h. ground arith;
}
