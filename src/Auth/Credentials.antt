-- ===== src/Auth/Credentials.antt =====
-- libs/features/auth/infra/persistence/prisma-auth.repository.credentials.ts: setting a password by
-- a reset token, and changing it.
pub mod Tests
pub mod Reset
pub mod Change
pub mod Spent
use backend_core_kit.Prelude.{
  ℕ, ◌==◌, leb, Bool, true, false, not, ◌&&◌, ◌||◌, Option, none, some, List, any, map, length,
  is_null, is_some, if◌then◌else◌,
}
use backend_core_kit.Db.{Db, User, Session, RefreshToken, PasswordCredential, PasswordResetToken}
use backend_core_kit.Db.Queries.{Queries, Action}
use backend_core_kit.Db.Retry.{with_retry}
use backend_core_kit.Db.Client.{
  ◌>>=◌, ◌>>◌, pure, find_user, find_session, find_sessions, find_credential, find_reset_token,
  update_sessions, update_tokens, update_reset_tokens, update_credential, upsert_credential,
}
use backend_core_kit.Auth.RefreshTokens.{token_revoked}
use backend_core_kit.Auth.Sessions.{revoked_and_cleared}

pub data ResetPasswordResult : Type 0 where
  reset_done : ℕ → ResetPasswordResult
  token_invalid token_expired : ResetPasswordResult

pub data ChangePasswordResult : Type 0 where
  changed user_not_found password_not_set current_password_mismatch : ChangePasswordResult

-- The relation filter `session: { userId }` on a refresh token.
abbrev pub session_of_user : List Session → ℕ → RefreshToken → Bool
session_of_user sessions user_id t =
    any (λ s. s.id == t.session_id && s.user_id == user_id) sessions

module _ (q : Queries) where
  unfoldable pub find_password_credential : ℕ → Action (Option ℕ)
  find_password_credential user_id = do
    found ← find_credential q (λ c. c.user_id == user_id)
    pure (elim found [ none ↦ none | some c ↦ some c.password_hash ])

  unfoldable pub revoke_all_of_user : ℕ → ℕ → Action (Unit {0})
  revoke_all_of_user user_id now = do
    update_sessions q (λ s. s.user_id == user_id && is_null s.revoked_at) (revoked_and_cleared now)
    (λ db.
        update_tokens q (λ t. is_null t.revoked_at && session_of_user db.sessions user_id t)
          (token_revoked now) db)
    pure tt

  -- The rest of the reset once the token has been found valid.
  unfoldable pub use_reset_token : PasswordResetToken → ℕ → ℕ → Action ResetPasswordResult
  use_reset_token token new_hash now = do
    marked ←
        update_reset_tokens q (λ t. t.id == token.id && is_null t.used_at && is_null t.revoked_at)
          (λ t. record t { used_at = some now })
    if not (marked == 1) then pure token_invalid else (do
      upsert_credential q (λ c. c.user_id == token.user_id)
          (record { user_id = token.user_id; password_hash = new_hash })
          (λ c. record c { password_hash = new_hash })
      revoke_all_of_user token.user_id now
      update_reset_tokens q
          (λ t. t.user_id == token.user_id && is_null t.used_at && is_null t.revoked_at)
          (λ t. record t { revoked_at = some now })
      pure (reset_done token.user_id))

  unfoldable pub reset_found : PasswordResetToken → ℕ → ℕ → Action ResetPasswordResult
  reset_found token new_hash now =
      if is_some token.revoked_at || is_some token.used_at
      then pure token_invalid
      else if leb token.expires_at now
      then pure token_expired
      else use_reset_token token new_hash now

  unfoldable pub reset_password : ℕ → ℕ → ℕ → Action ResetPasswordResult
  reset_password token_hash new_hash now = do
    token ← find_reset_token q (λ t. t.token_hash == token_hash)
    elim token [ none ↦ pure token_invalid | some t ↦ reset_found t new_hash now ]

  unfoldable pub reset_password_by_token_hash : ℕ → ℕ → ℕ → Action ResetPasswordResult
  reset_password_by_token_hash token_hash new_hash now =
      with_retry q (reset_password token_hash new_hash now)

  -- The rest of the change once the current password has been confirmed.
  unfoldable pub revoke_others : ℕ → ℕ → ℕ → Action ChangePasswordResult
  revoke_others user_id session_id now = do
    others ←
        find_sessions q
          (λ s. s.user_id == user_id && not (s.id == session_id) && is_null s.revoked_at)
    let other_ids = map (λ (s : Session). s.id) others
    if length other_ids == 0 then pure changed else (do
      update_sessions q (λ s. any (λ i. i == s.id) other_ids) (revoked_and_cleared now)
      update_tokens q (λ t. any (λ i. i == t.session_id) other_ids && is_null t.revoked_at)
          (token_revoked now)
      pure changed)

  unfoldable pub change_found : ℕ → ℕ → ℕ → ℕ → ℕ → PasswordCredential → Action ChangePasswordResult
  change_found user_id session_id expected_hash new_hash now c =
      if not (c.password_hash == expected_hash) then pure current_password_mismatch else (do
        update_credential q (λ r. r.user_id == user_id) (λ r. record r { password_hash = new_hash })
        revoke_others user_id session_id now)

  unfoldable pub change_password : ℕ → ℕ → ℕ → ℕ → ℕ → Action ChangePasswordResult
  change_password user_id session_id expected_hash new_hash now = do
    user ← find_user q (λ u. u.id == user_id)
    credential ← find_credential q (λ c. c.user_id == user_id)
    elim user [
      | none ↦ pure user_not_found
      | some u ↦ elim credential [
        | none ↦ pure password_not_set
        | some c ↦ change_found user_id session_id expected_hash new_hash now c
      ]
    ]

  unfoldable pub change_password_and_revoke_other_sessions :
      ℕ → ℕ → ℕ → ℕ → ℕ → Action ChangePasswordResult
  change_password_and_revoke_other_sessions user_id session_id expected_hash new_hash now =
      with_retry q (change_password user_id session_id expected_hash new_hash now)
