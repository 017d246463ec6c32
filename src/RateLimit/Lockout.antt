-- ===== src/RateLimit/Lockout.antt =====
-- Failed logins lead to a lockout at the configured number of attempts, and not before.
use backend_core_kit.Prelude.{
  ℕ, zero, suc, ◌≡◌, ◌<◌, arith, ltb, leb, Bool, true, false, not, ◌&&◌, Option, none, some,
  is_some, ==_refl,
}
use backend_core_kit.Db.{Result, ok, err}
use backend_core_kit.Redis.{Counters}
use backend_core_kit.RateLimit.{
  LimiterKey, same_limiter_key, email_failures, email_blocked, RateLimitConfig, LoginContext,
  assert_allowed, record_failure, bump, blocked_for, get_retry_after_seconds,
}

module _ (c : Counters LimiterKey same_limiter_key) (config : RateLimitConfig) (h : ℕ) where
  open c use {Store, get, set, incr, expire, get-set, get-incr, get-expire, incr_value}

  abbrev pub ctx : LoginContext
  ctx = record { email_hash = h; ip_hash = none }

  -- n failed logins with this e-mail, one after another.
  unfoldable pub failures : ℕ → Store → Store
  failures zero s = s
  failures (suc n) s = record_failure c true config ctx (failures n s)

  counted : ℕ → Option ℕ
  counted zero = none
  counted (suc n) = some (suc n)

  -- After n failures the counter is n, and the block is set once n has reached the limit.
  abbrev HasFailed : ℕ → Store → Type 0
  HasFailed n s =
      (get s (email_failures h) ≡ counted n)
      × (is_some (get s (email_blocked h)) ≡ (ltb 0 n && leb config.max_attempts n))

  bump-HasFailed :
      (n : ℕ) (s : Store)
      → HasFailed n s
      → HasFailed (suc n) (bump c config (email_failures h) (email_blocked h) s)
  unfolding bump counted
  bump-HasFailed n s f =
      let k = email_failures h in
      let b = email_blocked h in
      let t = (incr s k).1 in
      let e = expire t k config.window_seconds in
      ground (
        arith,
        incr_value s k,
        get-incr s k k,
        get-incr s k b,
        ==_refl h,
        get-expire t k k config.window_seconds,
        get-expire t k b config.window_seconds,
        get-set t b k 1 config.block_seconds,
        get-set t b b 1 config.block_seconds,
        get-set e b k 1 config.block_seconds,
        get-set e b b 1 config.block_seconds,
      )

  failures-HasFailed :
      (n : ℕ) (s : Store)
      → get s (email_failures h) ≡ none
      → get s (email_blocked h) ≡ none
      → HasFailed n (failures n s)
  unfolding failures record_failure counted
  failures-HasFailed zero s a b = ground arith
  failures-HasFailed (suc n) s a b = bump-HasFailed n (failures n s) (failures-HasFailed n s a b)

abbrev pub is_allowed : Result ℕ (Unit {0}) → Bool
is_allowed (ok done) = true
is_allowed (err seconds) = false

-- From a store without a count or a block for an e-mail, and with nothing expiring, the next login
-- after n failed ones is refused just if n is above 0 and has reached the configured limit. The
-- login comes without an address, and a block lasts at least a second.
pub assert_allowed-failures :
    (c : Counters LimiterKey same_limiter_key) (config : RateLimitConfig) (h n : ℕ) (s : c.Store)
    → 0 < config.block_seconds
    → c.get s (email_failures h) ≡ none
    → c.get s (email_blocked h) ≡ none
    → is_allowed (assert_allowed c true config (ctx c config h) (failures c config h n s))
      ≡ not (ltb 0 n && leb config.max_attempts n)
unfolding assert_allowed blocked_for get_retry_after_seconds
assert_allowed-failures c config h n s lasts a b =
    ground (arith, (failures-HasFailed c config h n s a b).1)
