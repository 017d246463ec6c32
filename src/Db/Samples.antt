-- ===== src/Db/Samples.antt =====
-- A small database and a client that keeps it in memory, for the tests.
use backend_core_kit.Prelude.{none, some, [], ◌∷◌}
use backend_core_kit.Db.Rows.{
  User, Session, RefreshToken, PasswordCredential, PasswordResetToken, Db, user, admin, active,
  EmailVerificationToken, ExternalIdentity, google, UserProfile, profile_image, StoredFile,
  file_active,
}
use backend_core_kit.Db.Queries.{Queries, memory}

abbrev pub client : Queries
client = memory (λ db. 99) (λ n db. none)

abbrev pub member : User
member = record {
  id = 1;
  email = 11;
  email_verified_at = some 2;
  role = user;
  status = active;
  suspended_at = none;
  suspended_reason = none;
  deletion_requested_at = none;
  deletion_scheduled_for = none;
  deletion_requested_session_id = none;
  deletion_requested_trace_id = none;
  deleted_at = none;
}

abbrev pub first_admin : User
first_admin = record member { id = 2; email = 12; role = admin }

abbrev pub second_admin : User
second_admin = record member { id = 3; email = 13; role = admin }

abbrev pub phone : Session
phone = record {
  id = 7;
  user_id = 1;
  device_id = some 3;
  device_name = none;
  push_platform = none;
  push_token = none;
  push_token_updated_at = none;
  push_token_revoked_at = none;
  ip = none;
  user_agent = none;
  active_key = some (record { user_id = 1; device_id = 3 });
  last_seen_at = 1;
  expires_at = 100;
  revoked_at = none;
}

abbrev pub laptop : Session
laptop = record phone { id = 8; device_id = none; active_key = none; push_token = some 55 }

abbrev pub phone_token : RefreshToken
phone_token = record {
  id = 20;
  token_hash = 200;
  expires_at = 100;
  revoked_at = none;
  session_id = 7;
  replaced_by_id = none;
}

abbrev pub member_password : PasswordCredential
member_password = record { user_id = 1; password_hash = 500 }

abbrev pub reset_token : PasswordResetToken
reset_token = record {
  id = 30;
  user_id = 1;
  token_hash = 300;
  expires_at = 50;
  used_at = none;
  revoked_at = none;
}

abbrev pub verification_token : EmailVerificationToken
verification_token = record {
  id = 40;
  user_id = 2;
  token_hash = 400;
  expires_at = 50;
  used_at = none;
  revoked_at = none;
}

abbrev pub google_identity : ExternalIdentity
google_identity = record { id = 60; provider = google; subject = 600; email = some 12; user_id = 2 }

abbrev pub member_profile : UserProfile
member_profile = record {
  user_id = 1;
  profile_image_file_id = some 70;
  display_name = some 71;
  given_name = none;
  family_name = none;
}

abbrev pub avatar : StoredFile
avatar = record {
  id = 70;
  owner_user_id = 1;
  purpose = profile_image;
  status = file_active;
  bucket = 9;
  object_key = 700;
  content_type = 1;
  size_bytes = 2048;
  uploaded_at = some 3;
  deleted_at = none;
  trace_id = none;
}

abbrev pub sample : Db
sample = record {
  users = member ∷ first_admin ∷ second_admin ∷ [];
  credentials = member_password ∷ [];
  sessions = phone ∷ laptop ∷ [];
  refresh_tokens = phone_token ∷ [];
  reset_tokens = reset_token ∷ [];
  role_audits = [];
  status_audits = [];
  deletion_audits = [];
  verification_tokens = verification_token ∷ [];
  identities = google_identity ∷ [];
  profiles = member_profile ∷ [];
  files = avatar ∷ [];
}
