-- ===== src/Auth/Sessions/PushTokens.antt =====
-- A push token belongs to one session, and only a live session of the caller can take it.
use backend_core_kit.Prelude.{
  ℕ, ◌==◌, ◌≡◌, ◌≢◌, ◌||◌, List, arith, Bool, true, false, not, ◌&&◌, ltb, some, none, is_null,
  column_is, any, count_of_not_any, update_where, any-update_where, any-update_where_keep,
  any-update_where_of_any, any_of_count,
}
use backend_core_kit.Db.{Db, PushPlatform, ok, Session}
use backend_core_kit.Db.Queries.{Queries, IsSql, memory-eq}
use backend_core_kit.Db.Retry.{
  with_transaction_retry-ok, is_retryable_transaction_error, is_push_token_violation,
}
use backend_core_kit.Auth.Sessions.{
  attach_push_token, upsert_session_push_token, push_token_dropped, upserted, session_not_found,
}

-- A live session of the user, under this id.
abbrev pub is_callers : ℕ → ℕ → ℕ → Session → Bool
is_callers user_id sid now s =
    s.id == sid && s.user_id == user_id && is_null s.revoked_at && ltb now s.expires_at

abbrev pub holds : ℕ → Session → Bool
holds token s = column_is s.push_token token

-- No other session holds the token, and a live session of the caller does.
abbrev pub IsAttached : ℕ → ℕ → ℕ → ℕ → Db → Type 0
IsAttached user_id sid token now db =
    (any (λ s. holds token s && not (s.id == sid)) db.sessions ≡ false)
    × (any (λ s. is_callers user_id sid now s && holds token s) db.sessions ≡ true)

module _ (user_id sid : ℕ) (platform : PushPlatform) (token now : ℕ) where
  abbrev touched : Session → Session
  touched s = record s { push_token_updated_at = some now }

  abbrev taken : Session → Session
  taken s = record s {
    push_platform = some platform;
    push_token = some token;
    push_token_updated_at = some now;
    push_token_revoked_at = none;
  }

  abbrev elsewhere : Session → Bool
  elsewhere s = column_is s.push_token token && not (s.id == sid)

  exclusive :
      (xs : List Session)
      → any
          (λ s. holds token s && not (s.id == sid))
          (update_where
            (λ s. s.id == sid)
            taken
            (update_where elsewhere (push_token_dropped now) xs))
        ≡ false
  exclusive xs =
      any-update_where_keep (λ s. holds token s && not (s.id == sid)) (λ s. s.id == sid) taken
        (λ s. holds token s && not (s.id == sid))
        (update_where elsewhere (push_token_dropped now) xs) (λ x e. ground arith)
        (any-update_where (λ s. holds token s && not (s.id == sid)) elsewhere
          (push_token_dropped now) xs (λ x. ground arith))

  attached :
      (xs : List Session)
      → any (is_callers user_id sid now) xs ≡ true
      → any
          (λ s. is_callers user_id sid now s && holds token s)
          (update_where
            (λ s. s.id == sid)
            taken
            (update_where elsewhere
              (push_token_dropped now)
              (update_where (is_callers user_id sid now) touched xs)))
        ≡ true
  attached xs e =
      let live = is_callers user_id sid now in
      let ys = update_where live touched xs in
      any-update_where_of_any (λ s. live s && holds token s) (λ s. s.id == sid) taken live
        (update_where elsewhere (push_token_dropped now) ys) (λ x l. ground arith)
        (any-update_where_of_any live elsewhere (push_token_dropped now) live ys
          (λ x l. ground arith)
          (any-update_where_of_any live live touched live xs (λ x l. ground arith) e))

  attach-IsAttached :
      (q : Queries)
      → IsSql q
      → (db : Db) → (attach_push_token q user_id sid platform token now db).0 ≡ ok upserted
      → IsAttached user_id sid token now (attach_push_token q user_id sid platform token now db).1
  unfolding attach_push_token
  attach-IsAttached q sql db = rw (← memory-eq q sql) (λ h. ground (
    arith,
    exclusive (update_where (is_callers user_id sid now) touched db.sessions),
    attached db.sessions,
    any_of_count (is_callers user_id sid now) db.sessions,
  ))

  attach-refused :
      (q : Queries)
      → IsSql q
      → (db : Db) → any (is_callers user_id sid now) db.sessions ≡ false
      → (attach_push_token q user_id sid platform token now db).0 ≡ ok session_not_found
  unfolding attach_push_token
  attach-refused q sql db =
      rw (← memory-eq q sql)
        (λ h. ground (arith, count_of_not_any (is_callers user_id sid now) db.sessions))

-- When storing a push token for a session succeeds, no session of another id holds the token, and a
-- live session of the caller under the given id does.
pub upsert_session_push_token-IsAttached :
    (q : Queries)
    → IsSql q
    → (user_id sid : ℕ) (platform : PushPlatform) (token now : ℕ) (db : Db)
    → (upsert_session_push_token q user_id sid platform token now db).0 ≡ ok upserted
    → IsAttached user_id sid token now
        (upsert_session_push_token q user_id sid platform token now db).1
unfolding upsert_session_push_token
upsert_session_push_token-IsAttached q sql user_id sid platform token now db h = ground (
  arith,
  with_transaction_retry-ok q sql 3
      (λ e. is_retryable_transaction_error e || is_push_token_violation e)
      (attach_push_token q user_id sid platform token now) db upserted h,
  attach-IsAttached user_id sid platform token now q sql db,
)

-- With no live session of the caller under the given id, storing a push token never succeeds.
pub upsert_session_push_token-refused :
    (q : Queries)
    → IsSql q
    → (user_id sid : ℕ) (platform : PushPlatform) (token now : ℕ) (db : Db)
    → any (is_callers user_id sid now) db.sessions ≡ false
    → (upsert_session_push_token q user_id sid platform token now db).0 ≢ ok upserted
unfolding upsert_session_push_token
upsert_session_push_token-refused q sql user_id sid platform token now db none_live h = ground (
  arith,
  with_transaction_retry-ok q sql 3
      (λ e. is_retryable_transaction_error e || is_push_token_violation e)
      (attach_push_token q user_id sid platform token now) db upserted h,
  attach-refused user_id sid platform token now q sql db none_live,
)
