-- ===== src/Auth/Lifecycle/Issue.antt =====
-- What the issuing of tokens stores, as the refresh will read it.
use backend_core_kit.Prelude.{
  List, ℕ, ◌==◌, ◌≡◌, refl, sym, ap, ◌∙◌, arith, Option, none, some, find?, Option-cases, inl, inr,
}
use backend_core_kit.Auth.Service.{
  Service, AppError, pure, bind_service, lift_result, Crypto, AuthConfig, AuthResult,
  to_auth_user_view, build_active_session_key, session_expires_at_from,
}
use backend_core_kit.Auth.Lifecycle.{
  NewSessionInput, revoke_device, create_session_and_tokens, sign_access_token_for_user,
  issue_tokens_for_new_session,
}
use backend_core_kit.Db.{Db, DbError, ActiveKey, key_is, User, Session, Result, ok, err}
use backend_core_kit.Auth.Users.{AuthMethod}
use backend_core_kit.Db.Queries.{Queries, IsSql, memory-eq, transaction-ok}
use backend_core_kit.Auth.RefreshTokens.{create_refresh_token, AuthUserRecord}
use backend_core_kit.Auth.Sessions.{
  revoke_device_session, find_and_revoke_device, revoke_active_session_for_device, create_session,
  CreateSessionInput,
}
use backend_core_kit.Auth.Lifecycle.Stored.{IsRefreshable, stored-IsRefreshable}

module _ (q : Queries) (sql : IsSql q) where
  revoke_device_session-users :
      (user_id now : ℕ) (s : Session) (db : Db)
      → (revoke_device_session q user_id now s db).1.users ≡ db.users
  unfolding revoke_device_session
  revoke_device_session-users user_id now s db = rw (← memory-eq q sql) (ground arith)

  find_and_revoke_device-users :
      (user_id : ℕ) (key : ActiveKey) (now : ℕ) (db : Db)
      → (find_and_revoke_device q user_id key now db).1.users ≡ db.users
  unfolding find_and_revoke_device
  find_and_revoke_device-users user_id key now db =
      elim (Option-cases (q.find_unique Session (λ s. key_is s.active_key key) db.sessions)) [
        | inl missing ↦ rw missing refl
        | inr (s, found) ↦ rw found (revoke_device_session-users user_id now s db)
      ]

  revoke_active_session_for_device-users :
      (user_id : ℕ) (key : ActiveKey) (now : ℕ) (a : Unit {0}) (db : Db)
      → (revoke_active_session_for_device q user_id key now db).0 ≡ ok a
      → (revoke_active_session_for_device q user_id key now db).1.users ≡ db.users
  unfolding revoke_active_session_for_device
  revoke_active_session_for_device-users user_id key now a db h =
      let ran = transaction-ok q sql (find_and_revoke_device q user_id key now) 1 db a h in
      sym (ap (λ r. r.1.users) ran) ∙ find_and_revoke_device-users user_id key now db

pub bind-ok :
    {A B : Type 0} (m : Result AppError A × Db) (f : A → Service B) (b : B)
    → (bind_service m f).0 ≡ ok b
    → (a : A) × (m.0 ≡ ok a) × ((f a m.1).0 ≡ ok b) × (bind_service m f ≡ f a m.1)
bind-ok (ok a, db) f b h = (a, refl, h, refl)
bind-ok (err e, db) f b h = absurd (ground arith)

pub lift_result-ok :
    {A : Type 0} (r : Result DbError A × Db) (a : A)
    → (lift_result r).0 ≡ ok a
    → (r.0 ≡ ok a) × ((lift_result r).1 ≡ r.1)
lift_result-ok (ok b, db) a h = ground arith
lift_result-ok (err e, db) a h = absurd (ground arith)

module _ (q : Queries) (sql : IsSql q) (crypto : Crypto) (config : AuthConfig) where
  revoke_device-users :
      (user_id : ℕ) (key : Option ActiveKey) (now : ℕ) (a : Unit {0}) (db : Db)
      → (revoke_device q crypto config user_id key now db).0 ≡ ok a
      → (revoke_device q crypto config user_id key now db).1.users ≡ db.users
  unfolding revoke_device
  revoke_device-users user_id none now a db h = refl
  revoke_device-users user_id (some key) now a db h =
      let (done, same) =
        lift_result-ok (revoke_active_session_for_device q user_id key now db) a h in
      ap (λ d. d.users) same
      ∙ revoke_active_session_for_device-users q sql user_id key now a db done

  -- The input of the session that is created.
  abbrev session_input : ℕ → NewSessionInput → CreateSessionInput
  session_input user_id input = record {
    user_id = user_id;
    device_id = input.device_id;
    device_name = input.device_name;
    ip = input.ip;
    user_agent = input.user_agent;
    last_seen_at = input.now;
    session_expires_at = session_expires_at_from input.now config.refresh_token_ttl_seconds;
    active_key = build_active_session_key user_id input.device_id;
  }

  -- What is done once the device's old session has been revoked.
  abbrev store : ℕ → ℕ → NewSessionInput → Service ℕ
  store token user_id input db =
      bind_service (lift_result (create_session q (session_input user_id input) db)) (λ s db'.
        bind_service
          (lift_result
            (create_refresh_token q s.id (crypto.hash_refresh_token token) s.expires_at db'))
          (λ _ db''. (ok s.id, db'')))

  store-IsRefreshable :
      (token user_id : ℕ) (input : NewSessionInput) (u : User) (sid : ℕ) (db : Db)
      → (store token user_id input db).0 ≡ ok sid
      → find? (λ r. r.id == user_id) db.users ≡ some u
      → IsRefreshable q
          (crypto.hash_refresh_token token)
          (session_expires_at_from input.now config.refresh_token_ttl_seconds)
          u
          (store token user_id input db).1
  store-IsRefreshable token user_id input u sid db h user =
      let hash = crypto.hash_refresh_token token in
      let made = create_session q (session_input user_id input) db in
      let (s, e, h', same) =
        bind-ok (lift_result made)
          (λ s db'.
            bind_service (lift_result (create_refresh_token q s.id hash s.expires_at db'))
              (λ _ db''. (ok s.id, db'')))
          sid h in
      let (made_ok, made_db) = lift_result-ok made s e in
      let minted = create_refresh_token q s.id hash s.expires_at (lift_result made).1 in
      let (t, e', h'', same') = bind-ok (lift_result minted) (λ _ db''. (ok s.id, db'')) sid h' in
      let (minted_ok, minted_db) = lift_result-ok minted t e' in
      rw (same, same', minted_db, made_db)
        (stored-IsRefreshable q sql (session_input user_id input) hash s t u db made_ok
          (rw made_db at minted_ok) user)

  create_session_and_tokens-IsRefreshable :
      (token user_id : ℕ) (input : NewSessionInput) (u : User) (sid : ℕ) (db : Db)
      → (create_session_and_tokens q crypto config token user_id input db).0 ≡ ok sid
      → find? (λ r. r.id == user_id) db.users ≡ some u
      → IsRefreshable q
          (crypto.hash_refresh_token token)
          (session_expires_at_from input.now config.refresh_token_ttl_seconds)
          u
          (create_session_and_tokens q crypto config token user_id input db).1
  unfolding create_session_and_tokens
  create_session_and_tokens-IsRefreshable token user_id input u sid db h user =
      let key = build_active_session_key user_id input.device_id in
      let revoked = revoke_device q crypto config user_id key input.now db in
      let (a, e, h', same) = bind-ok revoked (λ _. store token user_id input) sid h in
      let users = revoke_device-users user_id key input.now a db e in
      rw same (
        store-IsRefreshable token user_id input u sid revoked.1 h'
          (ap (find? (λ r. r.id == user_id)) users ∙ user))

  sign_access_token_for_user-same :
      (a : AuthUserRecord) (sid : ℕ) (db : Db)
      → (sign_access_token_for_user q crypto config a sid db).1 ≡ db
  unfolding sign_access_token_for_user
  sign_access_token_for_user-same a sid db = ground arith

-- When tokens are issued for a new session of a stored user, the answer carries the drawn refresh
-- token, and the refresh of that token will find it with this user; the token and its session expire
-- when the configured time after the issuing has passed, and until then it can be exchanged.
pub issue_tokens_for_new_session-IsRefreshable :
    (q : Queries)
    → IsSql q
    → (crypto : Crypto) (config : AuthConfig) (token : ℕ) (a : AuthUserRecord)
      (methods : List AuthMethod) (input : NewSessionInput) (u : User) (r : AuthResult) (db : Db)
    → (issue_tokens_for_new_session q crypto config token a methods input db).0 ≡ ok r
    → find? (λ x. x.id == a.id) db.users ≡ some u
    → (r.refresh_token ≡ token)
      × IsRefreshable q
          (crypto.hash_refresh_token token)
          (session_expires_at_from input.now config.refresh_token_ttl_seconds)
          u
          (issue_tokens_for_new_session q crypto config token a methods input db).1
unfolding issue_tokens_for_new_session
issue_tokens_for_new_session-IsRefreshable q sql crypto config token a methods input u r db h user =
    let created = create_session_and_tokens q crypto config token a.id input db in
    let answer : ℕ → Service AuthResult = λ access. pure (record {
      user = to_auth_user_view a (some methods);
      access_token = access;
      refresh_token = token;
    }) in
    let (sid, e, h', same) =
      bind-ok created
        (λ sid db'. bind_service (sign_access_token_for_user q crypto config a sid db') answer) r
        h in
    let (access, e', h'', same') =
      bind-ok (sign_access_token_for_user q crypto config a sid created.1) answer r h' in
    (
      ground arith,
      rw (same, same', sign_access_token_for_user-same q sql crypto config a sid created.1)
          (create_session_and_tokens-IsRefreshable q sql crypto config token a.id input u sid db e
            user),
    )
