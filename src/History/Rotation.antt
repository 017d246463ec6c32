-- ===== src/History/Rotation.antt =====
-- A refresh token in a history of transactions.
use backend_core_kit.Prelude.{ℕ, ◌≡◌, ◌≢◌, subst, sym, ◌∙◌, false, any, count_of_not_any}
use backend_core_kit.Db.{Db, ok, RefreshToken}
use backend_core_kit.Db.Queries.{Queries, IsSql}
use backend_core_kit.Auth.RefreshTokens.{SessionSeenMetadata}
use backend_core_kit.Auth.RefreshTokens.SingleUse.{is_live, exchange-Exchanged, transaction-spent}
use backend_core_kit.Auth.RefreshTokens.Spent.{
  IsSpent, exchange_tx-IsSpent, create_refresh_token-IsSpent, revoke_session_and_tokens-IsSpent,
}
use backend_core_kit.Auth.Sessions.Spent.{
  revoke_session_by_id-IsSpent, revoke_active_session_for_device-IsSpent,
}
use backend_core_kit.Auth.Credentials.Spent.{
  reset_password_by_token_hash-IsSpent, change_password_and_revoke_other_sessions-IsSpent,
}
use backend_core_kit.Accounts.Admin.Spent.{set_user_status-IsSpent}
use backend_core_kit.History.{
  exchange_tx, Step, exchanged, token_created, contained, revoked_by_id, revoked_for_device,
  password_reset, password_changed, status_set, elsewhere, History, start, later,
}

module _ (q : Queries) (sql : IsSql q) (tid : ℕ) (fresh : (d : Db) → q.generate_uuid d ≢ tid) where
  step-IsSpent : {a b : Db} → Step q a b → IsSpent tid a → IsSpent tid b
  step-IsSpent (exchanged t new_hash now seen db) h =
      exchange_tx-IsSpent tid q sql t new_hash now seen db (fresh db) h
  step-IsSpent (token_created sid hash exp db) h =
      create_refresh_token-IsSpent tid q sql sid hash exp db (fresh db) h
  step-IsSpent (contained sid now db) h = revoke_session_and_tokens-IsSpent tid q sql sid now db h
  step-IsSpent (revoked_by_id uid sid now db) h =
      revoke_session_by_id-IsSpent tid q sql uid sid now db h
  step-IsSpent (revoked_for_device uid key now db) h =
      revoke_active_session_for_device-IsSpent tid q sql uid key now db h
  step-IsSpent (password_reset token_hash hash now db) h =
      reset_password_by_token_hash-IsSpent tid q sql token_hash hash now db h
  step-IsSpent (password_changed uid sid expected hash now db) h =
      change_password_and_revoke_other_sessions-IsSpent tid q sql uid sid expected hash now db h
  step-IsSpent (status_set input db) h = set_user_status-IsSpent tid q sql input db h
  step-IsSpent (elsewhere before after same) h = rw same h

  History-IsSpent : {a b : Db} → History q a b → IsSpent tid a → IsSpent tid b
  History-IsSpent (start db) h = h
  History-IsSpent (later before step) h = step-IsSpent step (History-IsSpent before h)

-- A refresh token is exchanged at most once: after a transaction that has exchanged it, and any
-- transactions of the repositories after that, in any order and of any number of requests, no
-- transaction that is to exchange a token of its id succeeds, whatever its request has read. No id
-- that the database generates is the token's.
pub exchange_tx-once :
    (q : Queries)
    → IsSql q
    → (t t' : RefreshToken) (new_hash now new_hash' now' : ℕ) (seen seen' : SessionSeenMetadata)
      (db after : Db)
    → ((d : Db) → q.generate_uuid d ≢ t.id)
    → t'.id ≡ t.id
    → (exchange_tx q t new_hash now seen db).0 ≡ ok tt
    → History q (exchange_tx q t new_hash now seen db).1 after
    → (exchange_tx q t' new_hash' now' seen' after).0 ≢ ok tt
exchange_tx-once q sql t t' new_hash now new_hash' now' seen seen' db after fresh same first
      history =
    let spent = (exchange-Exchanged q sql t new_hash now seen db (fresh db) first).0 in
    let still = History-IsSpent q sql t.id fresh history spent in
    transaction-spent q sql t' new_hash' now' seen' after
      (count_of_not_any (is_live t'.id) after.refresh_tokens
        (subst (λ n. any (is_live n) after.refresh_tokens ≡ false) (sym same) still))
      (λ e. fresh after (e ∙ same))
