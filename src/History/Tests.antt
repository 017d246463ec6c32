-- ===== src/History/Tests.antt =====
-- A token that is exchanged, and a second attempt after its session has been revoked.
use backend_core_kit.Prelude.{◌≡◌, ◌≢◌, refl, arith, none}
use backend_core_kit.Db.{Db, DbError, Result, ok, token_collides}
use backend_core_kit.Db.Queries.{memory-IsSql}
use backend_core_kit.Db.Samples.{client, sample, phone_token}
use backend_core_kit.Auth.RefreshTokens.{
  SessionSeenMetadata, exchange, create_refresh_token, revoke_session_and_tokens,
}
use backend_core_kit.History.{exchange_tx, contained, start, later}
use backend_core_kit.History.Rotation.{exchange_tx-once}

abbrev unseen : SessionSeenMetadata
unseen = record { ip = none; user_agent = none }

abbrev first : Result DbError (Unit {0}) × Db
first = exchange_tx client phone_token 201 5 unseen sample

first_succeeds : first.0 ≡ ok tt
unfolding exchange create_refresh_token token_collides
first_succeeds = refl

exchange_tx-once_example :
    (exchange_tx client phone_token 202 7 unseen (revoke_session_and_tokens client 7 6 first.1).1).0
    ≢ ok tt
exchange_tx-once_example =
    exchange_tx-once client (memory-IsSql (λ db. 99) (λ n db. none)) phone_token phone_token 201 5
      202 7 unseen unseen sample (revoke_session_and_tokens client 7 6 first.1).1
      (λ d h. ground arith) refl first_succeeds (later (start first.1) (contained 7 6 first.1))
