-- ===== src/Auth/Credentials/Change.antt =====
-- A password change: it compares the current hash, and leaves only the session that asked.
use backend_core_kit.Prelude.{
  ℕ, ◌==◌, ◌≡◌, suc, refl, arith, Bool, true, false, not, ◌&&◌, some, is_null, any, find?, List, [],
  ◌∷◌, map, filter, length, Option-cases, Bool-cases, inl, inr, if◌then◌else◌, any-update_where,
  update_where, any-update_where_of_any, any-update_where_keep, any-never, any-filter_none, ==_iff,
  sym, ◌∙◌, ap, subst,
}
use backend_core_kit.Db.{Db, ok, User, Session, PasswordCredential}
use backend_core_kit.Db.Queries.{Queries, IsSql, memory-eq}
use backend_core_kit.Db.Retry.{with_transaction_retry-ok, is_retryable_transaction_error}
use backend_core_kit.Auth.RefreshTokens.{token_revoked}
use backend_core_kit.Auth.Sessions.{revoked_and_cleared}
use backend_core_kit.Auth.Credentials.{
  change_password_and_revoke_other_sessions, change_password, change_found, revoke_others, changed,
}

-- An unrevoked session of the user other than the one that asks.
abbrev pub is_other : ℕ → ℕ → Session → Bool
is_other user_id sid s = s.user_id == user_id && not (s.id == sid) && is_null s.revoked_at

abbrev ids : List Session → List ℕ
ids = map (λ s. s.id)

abbrev listed : List ℕ → ℕ → Bool
listed xs n = any (λ i. i == n) xs

-- Every row that passes is listed, in any list that holds the ids of those that pass.
passing_listed :
    (p : Session → Bool) (l : List ℕ) (xs : List Session)
    → ((n : ℕ) → listed (ids (filter p xs)) n ≡ true → listed l n ≡ true)
    → any (λ s. p s && not (listed l s.id)) xs ≡ false
passing_listed p l [] h = refl
passing_listed p l (x ∷ xs) h = elim (Bool-cases (p x)) [
  | inl hit ↦ ground (
    arith,
    h' x.id (rw hit (ground arith)),
    passing_listed p l xs (λ n k. h' n (rw hit (ground (arith, k)))),
  )
  | inr miss ↦ ground (arith, passing_listed p l xs (λ n k. h' n (rw miss k)))
]
  where
    h' :
        (n : ℕ)
        → listed (ids (if p x then x ∷ filter p xs else filter p xs)) n ≡ true
        → listed l n ≡ true
    h' = h

listed_nowhere : (xs : List Session) (n : ℕ) → length (ids xs) ≡ 0 → listed (ids xs) n ≡ false
listed_nowhere [] n e = refl
listed_nowhere (x ∷ xs) n e = absurd (omega arith)

length-ids : (xs : List Session) → length (ids xs) ≡ length xs
length-ids [] = refl
length-ids (x ∷ xs) = ap suc (length-ids xs)

-- The sessions that a change of password revokes.
abbrev pub other_ids : ℕ → ℕ → Db → List ℕ
other_ids user_id sid db = ids (filter (is_other user_id sid) db.sessions)

-- Only the session that asked is left unrevoked, and the refresh tokens of the others are revoked.
abbrev pub OthersRevoked : ℕ → ℕ → List ℕ → Db → Type 0
OthersRevoked user_id sid others db =
    (any (is_other user_id sid) db.sessions ≡ false)
    × (any (λ t. is_null t.revoked_at && listed others t.session_id) db.refresh_tokens ≡ false)

revoke_others-OthersRevoked :
    (q : Queries)
    → IsSql q
    → (user_id sid now : ℕ) (db : Db)
    → OthersRevoked user_id sid (other_ids user_id sid db) (revoke_others q user_id sid now db).1
unfolding revoke_others
revoke_others-OthersRevoked q sql user_id sid now db = rw (← memory-eq q sql) (
    let l = other_ids user_id sid db in
    elim (Bool-cases (length l == 0)) [
      | inl nobody ↦
          let e : length l ≡ 0 = (==_iff _ _).0 nobody in
          let found = filter (is_other user_id sid) db.sessions in
          rw nobody (
            any-filter_none (is_other user_id sid) db.sessions (sym (length-ids found) ∙ e),
            any-never (λ t. is_null t.revoked_at && listed l t.session_id) db.refresh_tokens
                (λ t. ground (arith, listed_nowhere found t.session_id e)),
          )
      | inr some_of_them ↦ rw some_of_them (
        any-update_where_keep (is_other user_id sid) (λ s. listed l s.id) (revoked_and_cleared now)
            (λ s. is_other user_id sid s && not (listed l s.id)) db.sessions (λ x g. ground arith)
            (passing_listed (is_other user_id sid) l db.sessions (λ n k. k)),
        any-update_where (λ t. is_null t.revoked_at && listed l t.session_id)
            (λ t. listed l t.session_id && is_null t.revoked_at) (token_revoked now)
            db.refresh_tokens (λ x. ground arith),
      )
    ])

abbrev pub has_hash : ℕ → ℕ → PasswordCredential → Bool
has_hash user_id hash c = c.user_id == user_id && c.password_hash == hash

revoke_others-credentials :
    (q : Queries) (user_id sid now : ℕ) (db : Db)
    → (revoke_others q user_id sid now db).1.credentials ≡ db.credentials
unfolding revoke_others
revoke_others-credentials q user_id sid now db = ground arith

-- What a successful change establishes, and on which stored hash it rests.
pub record IsChanged (user_id sid expected hash : ℕ) (before after : Db) : Type 0 where
  pub compared :
      (c : PasswordCredential) × (find? (λ r. r.user_id == user_id) before.credentials ≡ some c)
      × (c.password_hash ≡ expected)
  pub replaced : any (has_hash user_id hash) after.credentials ≡ true
  pub others_revoked : OthersRevoked user_id sid (other_ids user_id sid before) after

change_found-OthersRevoked :
    (q : Queries)
    → IsSql q
    → (user_id sid expected hash now : ℕ) (c : PasswordCredential) (db : Db)
    → (change_found q user_id sid expected hash now c db).0 ≡ ok changed
    → OthersRevoked user_id sid
        (other_ids user_id sid db)
        (change_found q user_id sid expected hash now c db).1
      × (c.password_hash ≡ expected)
      × (any
            (has_hash user_id hash)
            (change_found q user_id sid expected hash now c db).1.credentials
          ≡ true)
unfolding change_found
change_found-OthersRevoked q sql user_id sid expected hash now c db h =
    let mine = λ (r : PasswordCredential). r.user_id == user_id in
    let f = λ (r : PasswordCredential). record r { password_hash = hash } in
    let written : Db = record db { credentials = update_where mine f db.credentials } in
    ground (
      arith,
      sql.update_lem PasswordCredential mine f db.credentials,
      revoke_others-OthersRevoked q sql user_id sid now written,
      revoke_others-credentials q user_id sid now written,
      any-update_where_of_any (has_hash user_id hash) mine f mine db.credentials
          (λ x m. ground arith),
    )

change_password-IsChanged :
    (q : Queries)
    → IsSql q
    → (user_id sid expected hash now : ℕ) (db : Db)
    → (change_password q user_id sid expected hash now db).0 ≡ ok changed
    → IsChanged user_id sid expected hash db (change_password q user_id sid expected hash now db).1
unfolding change_password
change_password-IsChanged q sql user_id sid expected hash now db h =
    elim (Option-cases (q.find_unique User (λ u. u.id == user_id) db.users)) [
      | inl no_user ↦ absurd (ground arith)
      | inr (u, user) ↦
          elim (Option-cases
            (q.find_unique PasswordCredential (λ r. r.user_id == user_id) db.credentials)) [
              | inl no_credential ↦ absurd (ground arith)
              | inr (c, found) ↦
                  let same : change_password q user_id sid expected hash now db
                      ≡ change_found q user_id sid expected hash now c db =
                    ground arith in
                  let (others, compared, replaced) =
                    change_found-OthersRevoked q sql user_id sid expected hash now c db
                      (rw same at h) in
                  rw same (record {
                    compared = (
                      c,
                      sym (
                            sql.find_unique_lem PasswordCredential (λ r. r.user_id == user_id)
                              db.credentials)
                          ∙ found,
                      compared,
                    );
                    replaced = replaced;
                    others_revoked = others;
                  })
            ]
    ]

-- When a change of password succeeds, the stored hash was the expected one, the new one is stored,
-- no session of the user but the one that asks is unrevoked, and no refresh token of the sessions
-- that were open besides it is unrevoked.
pub change_password_and_revoke_other_sessions-IsChanged :
    (q : Queries)
    → IsSql q
    → (user_id sid expected hash now : ℕ) (db : Db)
    → (change_password_and_revoke_other_sessions q user_id sid expected hash now db).0 ≡ ok changed
    → IsChanged user_id sid expected hash db
        (change_password_and_revoke_other_sessions q user_id sid expected hash now db).1
unfolding change_password_and_revoke_other_sessions
change_password_and_revoke_other_sessions-IsChanged q sql user_id sid expected hash now db h =
    let ran =
      with_transaction_retry-ok q sql 3 is_retryable_transaction_error
        (change_password q user_id sid expected hash now) db changed h in
    subst (λ r. IsChanged user_id sid expected hash db r.1) ran
      (change_password-IsChanged q sql user_id sid expected hash now db (ap (λ r. r.0) ran))
