-- ===== src/RateLimit.antt =====
-- libs/features/auth/infra/rate-limit: the login limiter, the limiter of password reset requests,
-- and the helpers that they share. A context comes with the hashes of the e-mail and of the address.
pub mod Lockout
use backend_core_kit.Prelude.{
  ℕ, zero, suc, ◌==◌, ltb, leb, max, Bool, true, false, not, ◌&&◌, Option, none, some, is_some,
  if◌then◌else◌,
}
use backend_core_kit.Db.{Result, ok, err}
use backend_core_kit.Redis.{Counters}

-- The keys of Redis that the limiters use, by the hash that each holds.
pub data LimiterKey : Type 0 where
  email_failures email_blocked ip_failures ip_blocked : ℕ → LimiterKey
  ip_requests ip_requests_blocked reset_cooldown : ℕ → LimiterKey

abbrev pub same_limiter_key : LimiterKey → LimiterKey → Bool
same_limiter_key (email_failures a) (email_failures b) = a == b
same_limiter_key (email_blocked a) (email_blocked b) = a == b
same_limiter_key (ip_failures a) (ip_failures b) = a == b
same_limiter_key (ip_blocked a) (ip_blocked b) = a == b
same_limiter_key (ip_requests a) (ip_requests b) = a == b
same_limiter_key (ip_requests_blocked a) (ip_requests_blocked b) = a == b
same_limiter_key (reset_cooldown a) (reset_cooldown b) = a == b
same_limiter_key _ _ = false

pub record RateLimitConfig : Type 0 where
  pub max_attempts : ℕ
  pub window_seconds : ℕ
  pub block_seconds : ℕ

-- A number that was read from the environment, or none: only a positive one is taken.
pub as_positive_int : Option ℕ → ℕ → ℕ
as_positive_int none fallback = fallback
as_positive_int (some zero) fallback = fallback
as_positive_int (some (suc n)) fallback = suc n

pub login_config : Option ℕ → Option ℕ → Option ℕ → RateLimitConfig
login_config max_attempts window block = record {
  max_attempts = as_positive_int max_attempts 10;
  window_seconds = as_positive_int window 60;
  block_seconds = as_positive_int block 900;
}

pub record LoginContext : Type 0 where
  pub email_hash : ℕ
  pub ip_hash : Option ℕ

module _ (c : Counters LimiterKey same_limiter_key) where
  open c use {Store, get, set, set_nx, del, incr, expire, ttl}

  pub get_retry_after_seconds : LimiterKey → ℕ → Store → ℕ
  get_retry_after_seconds key fallback s = if ltb 0 (ttl s key) then ttl s key else fallback

  -- The seconds to wait for one block key: none if it is not set.
  unfoldable pub blocked_for : RateLimitConfig → LimiterKey → Store → ℕ
  blocked_for config key s =
      if is_some (get s key) then get_retry_after_seconds key config.block_seconds s else 0

  abbrev for_ip : {A : Type 0} → Option ℕ → A → (ℕ → A) → A
  for_ip none d f = d
  for_ip (some h) d f = f h

  -- The answer is the seconds of a 429, or nothing.
  unfoldable pub assert_allowed :
      Bool → RateLimitConfig → LoginContext → Store → Result ℕ (Unit {0})
  assert_allowed enabled config ctx s =
      if not enabled
      then ok tt
      else (let retry =
            max (max 0 (blocked_for config (email_blocked ctx.email_hash) s))
              (for_ip ctx.ip_hash 0 (λ h. blocked_for config (ip_blocked h) s)) in
          if ltb 0 retry then err retry else ok tt)

  pub bump : RateLimitConfig → LimiterKey → LimiterKey → Store → Store
  bump config count_key block_key s =
      let (n, counted) = incr s count_key in
      let timed = if n == 1 then expire counted count_key config.window_seconds else counted in
      if leb config.max_attempts n then set timed block_key 1 config.block_seconds else timed

  -- The two bumps are sent together; they touch different keys, and are run one after the other.
  unfoldable pub record_failure : Bool → RateLimitConfig → LoginContext → Store → Store
  record_failure enabled config ctx s =
      if not enabled
      then s
      else (let s' = bump config (email_failures ctx.email_hash) (email_blocked ctx.email_hash) s in
          for_ip ctx.ip_hash s' (λ h. bump config (ip_failures h) (ip_blocked h) s'))

  unfoldable pub record_success : Bool → LoginContext → Store → Store
  record_success enabled ctx s =
      if not enabled
      then s
      else (let s' = del s (email_failures ctx.email_hash) in
          for_ip ctx.ip_hash s' (λ h. del s' (ip_failures h)))

  -- applyIpRateLimit: the seconds to wait, if the address is blocked already.
  pub apply_ip_rate_limit : RateLimitConfig → ℕ → Store → Option ℕ × Store
  apply_ip_rate_limit config ip s =
      if is_some (get s (ip_requests_blocked ip))
      then (some (get_retry_after_seconds (ip_requests_blocked ip) config.block_seconds s), s)
      else (none, bump config (ip_requests ip) (ip_requests_blocked ip) s)

  pub start_cooldown : ℕ → ℕ → Bool × Store → Result ℕ (Unit {0}) × Store
  start_cooldown email cooldown (true, s) = (ok tt, s)
  start_cooldown email cooldown (false, s) =
      (err (get_retry_after_seconds (reset_cooldown email) cooldown s), s)

  pub cool_down : ℕ → ℕ → Option ℕ × Store → Result ℕ (Unit {0}) × Store
  cool_down email cooldown (some seconds, s) = (err seconds, s)
  cool_down email cooldown (none, s) =
      start_cooldown email cooldown (set_nx s (reset_cooldown email) 1 cooldown)

  -- RedisPasswordResetRateLimiter.assertRequestAllowed.
  unfoldable pub assert_request_allowed :
      Bool → RateLimitConfig → ℕ → LoginContext → Store → Result ℕ (Unit {0}) × Store
  assert_request_allowed enabled config cooldown ctx s =
      if not enabled
      then (ok tt, s)
      else cool_down ctx.email_hash cooldown
          (for_ip ctx.ip_hash (none, s) (λ h. apply_ip_rate_limit config h s))
