-- ===== src/Auth/Oidc/Tests.antt =====
-- Runs of a sign-in and of a linking on a small database.
use backend_core_kit.Prelude.{ℕ, ◌≡◌, ◌+◌, refl, true, none, some, [], ◌∷◌}
use backend_core_kit.Db.{
  ok, google, OidcProvider, user_collides, profile_collides, identity_collides, session_collides,
  token_collides,
}
use backend_core_kit.Db.Queries.{memory-IsSql}
use backend_core_kit.Db.Samples.{client, sample}
use backend_core_kit.Auth.RefreshTokens.{to_auth_user_record, create_refresh_token}
use backend_core_kit.Auth.Sessions.{create_session}
use backend_core_kit.Auth.Users.{
  no_names, new_user, google_method, find_user_by_id, find_user_id_by_email,
  find_user_by_external_identity, register_external, create_user_with_external_identity,
  link_external_identity_to_user, link_tx, link_user, link_new, link_inserted, insert_link,
  verify_email_if_matching,
}
use backend_core_kit.Auth.Service.{
  AuthResult, AuthConfig, Crypto, to_auth_user_view, assert_user_is_not_suspended,
}
use backend_core_kit.Auth.Lifecycle.{
  issue_tokens_for_new_session, create_session_and_tokens, revoke_device,
  sign_access_token_for_user,
}
use backend_core_kit.Auth.Oidc.{
  VerifyResult, verified_identity, OidcInput, ConnectInput, created_user, create_or_refuse,
  user_of_identity, methods_for, sign_in, verify_oidc_identity_or_throw,
  require_existing_non_deleted_user, exchange_oidc, connect_oidc,
}
use backend_core_kit.Auth.Oidc.Exchange.{IsSignedIn, exchange_oidc-IsSignedIn}

abbrev crypto : Crypto
crypto = record {
  hash_refresh_token = λ token. token + 100;
  sign_access_token = λ claims. some claims.session_id;
}

abbrev config : AuthConfig
config = record {
  access_token_ttl_seconds = 900;
  refresh_token_ttl_seconds = 3600;
  password_min_length = 2;
}

-- A verifier for the tests, to which every token says the same.
abbrev verifier : OidcProvider → ℕ → VerifyResult
verifier provider id_token = verified_identity (record {
  provider = provider;
  subject = 601;
  email = 14;
  email_verified = true;
  names = no_names;
})

abbrev sign_in_input : OidcInput
sign_in_input = record {
  provider = google;
  id_token = 3;
  session = record { device_id = none; device_name = none; ip = none; user_agent = none; now = 5 };
}

abbrev answer : AuthResult
answer = record {
  user =
      to_auth_user_view (to_auth_user_record (new_user 99 14 (some 5))) (some (google_method ∷ []));
  access_token = 99;
  refresh_token = 300;
}

guest_signs_in :
    (exchange_oidc client crypto config verifier (λ db. db) 300 sign_in_input sample).0 ≡ ok answer
unfolding exchange_oidc verify_oidc_identity_or_throw user_of_identity
    find_user_by_external_identity create_or_refuse find_user_id_by_email created_user
    create_user_with_external_identity register_external user_collides profile_collides
    identity_collides sign_in methods_for assert_user_is_not_suspended issue_tokens_for_new_session
    create_session_and_tokens revoke_device create_session session_collides create_refresh_token
    token_collides sign_access_token_for_user
guest_signs_in = refl

exchange_oidc-IsSignedIn_example :
    IsSignedIn client verifier sign_in_input answer
      (λ i. (user_of_identity client crypto config verifier (λ db. db) i 5 sample).1)
exchange_oidc-IsSignedIn_example =
    exchange_oidc-IsSignedIn client (memory-IsSql (λ db. 99) (λ n db. none)) crypto config verifier
      (λ db. db) 300 sign_in_input answer sample guest_signs_in

abbrev connect_input : ConnectInput
connect_input = record { user_id = 1; provider = google; id_token = 3 }

member_connects :
    (connect_oidc client crypto config verifier (λ db. db) connect_input 5 sample).0 ≡ ok tt
unfolding connect_oidc require_existing_non_deleted_user find_user_by_id
    verify_oidc_identity_or_throw link_external_identity_to_user link_tx link_user link_new
    link_inserted insert_link verify_email_if_matching identity_collides
member_connects = refl
