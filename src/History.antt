-- ===== src/History.antt =====
-- Histories of the database: the transactions of the repositories, of any number of requests, one
-- after another in any order. A rotation takes part with its transaction, on a token that its
-- request has read at any time before.
pub mod Rotation
pub mod Tests
use backend_core_kit.Prelude.{ℕ, ◌≡◌}
use backend_core_kit.Db.{Db, DbError, Result, RefreshToken, ActiveKey}
use backend_core_kit.Db.Queries.{Queries}
use backend_core_kit.Auth.RefreshTokens.{
  create_refresh_token, exchange, revoke_session_and_tokens, SessionSeenMetadata,
}
use backend_core_kit.Auth.Sessions.{revoke_session_by_id, revoke_active_session_for_device}
use backend_core_kit.Auth.Credentials.{
  reset_password_by_token_hash, change_password_and_revoke_other_sessions,
}
use backend_core_kit.Accounts.Admin.{SetUserStatusInput, set_user_status}

-- The transaction of rotateRefreshToken.
abbrev pub exchange_tx :
    (q : Queries) → RefreshToken → ℕ → ℕ → SessionSeenMetadata → Db → Result DbError (Unit {0}) × Db
exchange_tx q t new_hash now seen db =
    q.transaction (Unit {0}) (exchange q t new_hash now seen) 1 db

pub data Step (q : Queries) : Db → Db → Type 0 where
  exchanged :
      (t : RefreshToken) (new_hash now : ℕ) (seen : SessionSeenMetadata) (db : Db)
      → Step q db (exchange_tx q t new_hash now seen db).1
  token_created :
      (sid hash exp : ℕ) (db : Db) → Step q db (create_refresh_token q sid hash exp db).1
  contained : (sid now : ℕ) (db : Db) → Step q db (revoke_session_and_tokens q sid now db).1
  revoked_by_id : (uid sid now : ℕ) (db : Db) → Step q db (revoke_session_by_id q uid sid now db).1
  revoked_for_device :
      (uid : ℕ) (key : ActiveKey) (now : ℕ) (db : Db)
      → Step q db (revoke_active_session_for_device q uid key now db).1
  password_reset :
      (token_hash hash now : ℕ) (db : Db)
      → Step q db (reset_password_by_token_hash q token_hash hash now db).1
  password_changed :
      (uid sid expected hash now : ℕ) (db : Db)
      → Step q db (change_password_and_revoke_other_sessions q uid sid expected hash now db).1
  status_set :
      (input : SetUserStatusInput) (db : Db) → Step q db (set_user_status q (λ d. d) input db).1
  -- Whatever leaves the refresh tokens as they are.
  elsewhere :
      (before after : Db) → after.refresh_tokens ≡ before.refresh_tokens → Step q before after

pub data History (q : Queries) : Db → Db → Type 0 where
  start : (db : Db) → History q db db
  later : {a b c : Db} → History q a b → Step q b c → History q a c
