-- ===== src/Auth/RefreshTokens/Tests.antt =====
-- Runs of a rotation on a small database.
use backend_core_kit.Prelude.{ℕ, ◌≡◌, ◌≢◌, refl, arith, true, false, none, some, [], ◌∷◌, any}
use backend_core_kit.Db.{Db, ok, token_collides}
use backend_core_kit.Db.Queries.{memory-IsSql}
use backend_core_kit.Db.Samples.{client, sample, member, phone, phone_token}
use backend_core_kit.Auth.RefreshTokens.{
  create_refresh_token, exchange, rotation_outcome, rotate_found, rotate_refresh_token,
  token_with_session, join_session, join_user, revoke_session_and_tokens, TokenWithSession,
  SessionSeenMetadata, rotated, revoked_or_reused, to_auth_user_record,
}
use backend_core_kit.Auth.RefreshTokens.SingleUse.{
  is_live, is_successor, IsExchangeable, rotate_refresh_token-rotated, rotate_refresh_token-spent,
}
use backend_core_kit.Auth.RefreshTokens.Containment.{IsContained, rotate_refresh_token-IsContained}

abbrev unseen : SessionSeenMetadata
unseen = record { ip = none; user_agent = none }

abbrev found : TokenWithSession
found = record { token = phone_token; session = phone; user = to_auth_user_record member }

abbrev session_id : ℕ
session_id = 7

abbrev expiry : ℕ
expiry = 100

-- Another request exchanges the token first.
abbrev overtaken : Db → Db
overtaken db = record db {
  refresh_tokens = record phone_token { revoked_at = some 4; replaced_by_id = some 21 } ∷ [];
}

token_is_read : token_with_session client sample 200 ≡ some found
unfolding token_with_session join_session join_user
token_is_read = refl

sample_rotated :
    (rotate_refresh_token client (λ db. db) 200 201 5 unseen sample).0
    ≡ ok (rotated 7 (to_auth_user_record member) 100)
unfolding rotate_refresh_token token_with_session join_session join_user rotate_found exchange
    create_refresh_token token_collides rotation_outcome
sample_rotated = refl

overtaken_reused :
    (rotate_refresh_token client overtaken 200 201 5 unseen sample).0 ≡ ok (revoked_or_reused 7 1)
unfolding rotate_refresh_token token_with_session join_session join_user rotate_found exchange
    create_refresh_token token_collides rotation_outcome revoke_session_and_tokens
overtaken_reused = refl

rotate_refresh_token-rotated_example :
    let after = (rotate_refresh_token client (λ db. db) 200 201 5 unseen sample).1 in
    IsExchangeable found 5
    × ((any (is_live 20) after.refresh_tokens ≡ false)
        × (any (is_successor phone_token 201) after.refresh_tokens ≡ true))
    × (session_id ≡ phone.id)
    × (to_auth_user_record member ≡ to_auth_user_record member)
    × (expiry ≡ phone.expires_at)
rotate_refresh_token-rotated_example =
    rotate_refresh_token-rotated client (memory-IsSql (λ db. 99) (λ n db. none)) (λ db. db) 200 201
      5 unseen session_id expiry (to_auth_user_record member) found sample token_is_read
      (λ h. ground arith) sample_rotated

rotate_refresh_token-spent_example :
    (rotate_refresh_token client overtaken 200 201 5 unseen sample).0
    ≢ ok (rotated 7 (to_auth_user_record member) 100)
rotate_refresh_token-spent_example =
    rotate_refresh_token-spent client (memory-IsSql (λ db. 99) (λ n db. none)) overtaken 200 201 5
      unseen 7 100 (to_auth_user_record member) found sample token_is_read refl (λ h. ground arith)

rotate_refresh_token-IsContained_example :
    IsContained 7 (rotate_refresh_token client overtaken 200 201 5 unseen sample).1
rotate_refresh_token-IsContained_example =
    rotate_refresh_token-IsContained client (memory-IsSql (λ db. 99) (λ n db. none)) overtaken 200
      201 5 unseen 7 1 sample overtaken_reused
