-- ===== src/Auth/Sessions.antt =====
-- libs/features/auth/infra/persistence/prisma-auth.repository.sessions.ts: creating and revoking
-- sessions, and the push token that a session carries.
pub mod Tests
pub mod Revocation
pub mod Spent
pub mod PushTokens
use backend_core_kit.Prelude.{
  ℕ, ◌==◌, ltb, Bool, true, false, not, ◌&&◌, ◌||◌, Option, none, some, is_null, is_some, column_is,
  if◌then◌else◌,
}
use backend_core_kit.Db.{Db, PushPlatform, ActiveKey, key_is, Session, RefreshToken}
use backend_core_kit.Db.Queries.{Queries, Action}
use backend_core_kit.Db.Retry.{
  with_transaction_retry, alone, is_retryable_transaction_error, is_push_token_violation,
}
use backend_core_kit.Db.Client.{
  ◌>>=◌, ◌>>◌, pure, find_session, update_session, update_sessions, update_tokens, insert_session,
  new_id, transaction,
}
use backend_core_kit.Auth.RefreshTokens.{push_cleared, token_revoked}

pub record CreateSessionInput : Type 0 where
  pub user_id : ℕ
  pub device_id : Option ℕ
  pub device_name : Option ℕ
  pub ip : Option ℕ
  pub user_agent : Option ℕ
  pub last_seen_at : ℕ
  pub session_expires_at : ℕ
  pub active_key : Option ActiveKey

pub record SessionRecord : Type 0 where
  pub id : ℕ
  pub expires_at : ℕ

pub data UpsertPushTokenResult : Type 0 where
  upserted session_not_found : UpsertPushTokenResult

abbrev pub revoked_and_cleared : ℕ → Session → Session
revoked_and_cleared now s = record (push_cleared now s) { revoked_at = some now }

-- The device keeps its key; only the push columns are cleared.
abbrev pub push_token_dropped : ℕ → Session → Session
push_token_dropped now s = record s {
  push_platform = none;
  push_token = none;
  push_token_updated_at = some now;
  push_token_revoked_at = some now;
}

module _ (q : Queries) where
  pub revoke_found : ℕ → ℕ → ℕ → Session → Action Bool
  revoke_found user_id session_id now s = if not (s.user_id == user_id) then pure false else (do
    if is_null s.revoked_at
        then update_session q (λ r. r.id == session_id) (revoked_and_cleared now)
        else (do
          update_sessions q (λ r. r.id == session_id && r.user_id == user_id) (push_cleared now)
          pure tt)
    update_tokens q (λ t. t.session_id == session_id && is_null t.revoked_at) (token_revoked now)
    pure true)

  pub find_and_revoke : ℕ → ℕ → ℕ → Action Bool
  find_and_revoke user_id session_id now = do
    session ← find_session q (λ s. s.id == session_id)
    elim session [ none ↦ pure false | some s ↦ revoke_found user_id session_id now s ]

  unfoldable pub revoke_session_by_id : ℕ → ℕ → ℕ → Action Bool
  revoke_session_by_id user_id session_id now =
      transaction q (find_and_revoke user_id session_id now)

  -- The transaction of upsertSessionPushToken.
  pub attach_push_token : ℕ → ℕ → PushPlatform → ℕ → ℕ → Action UpsertPushTokenResult
  attach_push_token user_id session_id platform token now = do
    locked ←
        update_sessions q
          (λ s.
            s.id == session_id
            && s.user_id == user_id
            && is_null s.revoked_at
            && ltb now s.expires_at)
          (λ s. record s { push_token_updated_at = some now })
    if not (locked == 1) then pure session_not_found else (do
      update_sessions q (λ s. column_is s.push_token token && not (s.id == session_id))
          (push_token_dropped now)
      update_session q (λ s. s.id == session_id)
          (λ s. record s {
            push_platform = some platform;
            push_token = some token;
            push_token_updated_at = some now;
            push_token_revoked_at = none;
          })
      pure upserted)

  unfoldable pub upsert_session_push_token :
      ℕ → ℕ → PushPlatform → ℕ → ℕ → Action UpsertPushTokenResult
  upsert_session_push_token user_id session_id platform token now =
      with_transaction_retry q alone 3
        (λ e. is_retryable_transaction_error e || is_push_token_violation e)
        (attach_push_token user_id session_id platform token now)

  unfoldable pub revoke_session_push_token : ℕ → ℕ → ℕ → Action (Unit {0})
  revoke_session_push_token user_id session_id now = do
    update_sessions q (λ s. s.id == session_id && s.user_id == user_id) (push_token_dropped now)
    pure tt

  unfoldable pub revoke_device_session : ℕ → ℕ → Session → Action (Unit {0})
  revoke_device_session user_id now s =
      if not (s.user_id == user_id) || is_some s.revoked_at then pure tt else (do
        update_session q (λ r. r.id == s.id) (revoked_and_cleared now)
        update_tokens q (λ t. t.session_id == s.id && is_null t.revoked_at) (token_revoked now)
        pure tt)

  unfoldable pub find_and_revoke_device : ℕ → ActiveKey → ℕ → Action (Unit {0})
  find_and_revoke_device user_id active_key now = do
    existing ← find_session q (λ s. key_is s.active_key active_key)
    elim existing [ none ↦ pure tt | some s ↦ revoke_device_session user_id now s ]

  unfoldable pub revoke_active_session_for_device : ℕ → ActiveKey → ℕ → Action (Unit {0})
  revoke_active_session_for_device user_id active_key now =
      transaction q (find_and_revoke_device user_id active_key now)

  unfoldable pub create_session : CreateSessionInput → Action SessionRecord
  create_session input = do
    fresh ← new_id q
    insert_session q (record {
      id = fresh;
      user_id = input.user_id;
      device_id = input.device_id;
      device_name = input.device_name;
      push_platform = none;
      push_token = none;
      push_token_updated_at = none;
      push_token_revoked_at = none;
      ip = input.ip;
      user_agent = input.user_agent;
      active_key = input.active_key;
      last_seen_at = input.last_seen_at;
      expires_at = input.session_expires_at;
      revoked_at = none;
    })
    pure (record { id = fresh; expires_at = input.session_expires_at })
