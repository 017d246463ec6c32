-- ===== src/Auth/Users/Tests.antt =====
-- Runs of the registrations, of a linking and of a verification on a small database.
use backend_core_kit.Prelude.{◌≡◌, refl, none, some, [], ◌∷◌}
use backend_core_kit.Db.{
  Db, ok, google, user_collides, credential_collides, profile_collides, identity_collides,
}
use backend_core_kit.Db.Queries.{memory-IsSql}
use backend_core_kit.Db.Retry.{with_transaction_retry, retry_loop}
use backend_core_kit.Db.Samples.{client, sample, member, first_admin}
use backend_core_kit.Auth.RefreshTokens.{AuthUserRecord, to_auth_user_record}
use backend_core_kit.Auth.Users.{
  NewExternalUser, LinkInput, no_names, new_user, linked, verified, register, register_external,
  create_user_with_password, create_user_with_external_identity, link_external_identity_to_user,
  link_tx, link_user, link_new, link_inserted, insert_link, verify_email_if_matching,
  verify_email_by_token_hash, verify_tx, verify_token, verify_found, use_verification_token,
  mark_verification_token,
}
use backend_core_kit.Auth.Users.Linking.{Says, link_external_identity_to_user-Says}
use backend_core_kit.Auth.Users.Verification.{IsVerified, verify_email_by_token_hash-IsVerified}

abbrev newcomer : AuthUserRecord
newcomer = to_auth_user_record (new_user 99 14 none)

registered : (create_user_with_password client 14 501 sample).0 ≡ ok newcomer
unfolding create_user_with_password register user_collides credential_collides profile_collides
registered = refl

abbrev guest : NewExternalUser
guest = record {
  email = 14;
  email_verified_at = 5;
  names = no_names;
  provider = google;
  subject = 601;
  identity_email = some 14;
}

abbrev guest_user : AuthUserRecord
guest_user = to_auth_user_record (new_user 99 14 (some 5))

guest_registered : (create_user_with_external_identity client guest sample).0 ≡ ok guest_user
unfolding create_user_with_external_identity register_external user_collides profile_collides
    identity_collides
guest_registered = refl

abbrev link_input : LinkInput
link_input = record { user_id = 1; provider = google; subject = 601; email = some 11; now = 5 }

sample_linked : (link_external_identity_to_user client (λ db. db) link_input sample).0 ≡ ok linked
unfolding link_external_identity_to_user link_tx link_user link_new link_inserted insert_link
    verify_email_if_matching identity_collides
sample_linked = refl

link_external_identity_to_user-Says_example :
    Says link_input linked (link_external_identity_to_user client (λ db. db) link_input sample).1
link_external_identity_to_user-Says_example =
    link_external_identity_to_user-Says client (memory-IsSql (λ db. 99) (λ n db. none)) (λ db. db)
      link_input linked sample sample_linked

abbrev unverified : Db
unverified = record sample {
  users = member ∷ (record first_admin { email_verified_at = none }) ∷ [];
}

sample_verified : (verify_email_by_token_hash client 400 5 unverified).0 ≡ ok verified
unfolding verify_email_by_token_hash with_transaction_retry retry_loop verify_tx verify_token
    verify_found use_verification_token mark_verification_token
sample_verified = refl

verify_email_by_token_hash-IsVerified_example :
    IsVerified 400 5 unverified (verify_email_by_token_hash client 400 5 unverified).1
verify_email_by_token_hash-IsVerified_example =
    verify_email_by_token_hash-IsVerified client (memory-IsSql (λ db. 99) (λ n db. none)) 400 5
      unverified sample_verified
