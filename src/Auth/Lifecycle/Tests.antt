-- ===== src/Auth/Lifecycle/Tests.antt =====
-- Runs of the issuing and of the refresh of tokens on a small database.
use backend_core_kit.Prelude.{[], ◌∷◌, ℕ, ◌+◌, ◌≡◌, ◌⊎◌, refl, none, some}
use backend_core_kit.Db.{Db, ok, err, token_collides, session_collides}
use backend_core_kit.Db.Queries.{memory-IsSql}
use backend_core_kit.Db.Samples.{client, sample, member}
use backend_core_kit.Auth.RefreshTokens.{
  create_refresh_token, exchange, rotation_outcome, rotate_found, rotate_refresh_token,
  find_refresh_token_with_session, token_with_session, join_session, join_user, TokenWithSession,
  SessionSeenMetadata, to_auth_user_record,
}
use backend_core_kit.Auth.Service.{
  Crypto, AuthConfig, AuthResult, session_expires_at_from, to_auth_user_view,
  assert_user_is_not_suspended,
}
use backend_core_kit.Auth.Sessions.{
  revoke_active_session_for_device, find_and_revoke_device, create_session,
}
use backend_core_kit.Auth.Users.{password_method}
use backend_core_kit.Auth.Lifecycle.Issue.{issue_tokens_for_new_session-IsRefreshable}
use backend_core_kit.Auth.Lifecycle.Stored.{IsRefreshable}
use backend_core_kit.Auth.Lifecycle.{
  NewSessionInput, issue_tokens_for_new_session, create_session_and_tokens, revoke_device, refresh,
  refresh_found, mint_and_rotate, answer_rotation, sign_access_token_for_user,
}
use backend_core_kit.Auth.Lifecycle.Refresh.{
  IsRenewed, LeftAlone, reuse_error, refresh-IsRenewed, refresh-refused,
}

abbrev crypto : Crypto
crypto = record {
  hash_refresh_token = λ token. token + 100;
  sign_access_token = λ claims. some (claims.user_id + claims.session_id);
}

abbrev config : AuthConfig
config = record {
  access_token_ttl_seconds = 900;
  refresh_token_ttl_seconds = 3600;
  password_min_length = 10;
}

abbrev unseen : SessionSeenMetadata
unseen = record { ip = none; user_agent = none }

abbrev answer : AuthResult
answer = record {
  user = to_auth_user_view (to_auth_user_record member) none;
  access_token = 8;
  refresh_token = 101;
}

abbrev quiet : Db → Db
quiet db = db

sample_refreshed : (refresh client crypto config quiet quiet 101 100 5 unseen sample).0 ≡ ok answer
unfolding refresh refresh_found mint_and_rotate answer_rotation sign_access_token_for_user
    find_refresh_token_with_session assert_user_is_not_suspended rotate_refresh_token
    token_with_session join_session join_user rotate_found exchange create_refresh_token
    token_collides rotation_outcome
sample_refreshed = refl

refresh-IsRenewed_example :
    (found : TokenWithSession) × (token_with_session client sample 200 ≡ some found)
    × IsRenewed crypto config found 101 5 answer
refresh-IsRenewed_example =
    refresh-IsRenewed client crypto config quiet quiet 101 100 5 unseen answer sample
      sample_refreshed

refresh-refused_example :
    let r = refresh client crypto config quiet quiet 101 77 5 unseen sample in
    ((a : AuthResult) × (r.0 ≡ ok a)) ⊎ (r.0 ≡ err reuse_error) ⊎ LeftAlone sample quiet quiet r.1
refresh-refused_example =
    refresh-refused client (memory-IsSql (λ db. 99) (λ n db. none)) crypto config quiet quiet 101 77
      5 unseen sample

abbrev issued_token : ℕ
issued_token = 300

abbrev issued : AuthResult
issued = record {
  user = to_auth_user_view (to_auth_user_record member) (some (password_method ∷ []));
  access_token = 100;
  refresh_token = 300;
}

abbrev tablet : NewSessionInput
tablet = record { device_id = some 4; device_name = none; ip = none; user_agent = none; now = 5 }

tokens_are_issued :
    (issue_tokens_for_new_session client crypto config 300
      (to_auth_user_record member)
      (password_method ∷ [])
      tablet
      sample).0
    ≡ ok issued
unfolding issue_tokens_for_new_session create_session_and_tokens revoke_device
    revoke_active_session_for_device find_and_revoke_device create_session session_collides
    create_refresh_token token_collides sign_access_token_for_user
tokens_are_issued = refl

issue_tokens_for_new_session-IsRefreshable_example :
    (issued.refresh_token ≡ issued_token)
    × IsRefreshable client
        (crypto.hash_refresh_token 300)
        (session_expires_at_from 5 3600)
        member
        (issue_tokens_for_new_session client crypto config 300
          (to_auth_user_record member)
          (password_method ∷ [])
          tablet
          sample).1
issue_tokens_for_new_session-IsRefreshable_example =
    issue_tokens_for_new_session-IsRefreshable client (memory-IsSql (λ db. 99) (λ n db. none))
      crypto config issued_token (to_auth_user_record member) (password_method ∷ []) tablet member
      issued sample tokens_are_issued refl
