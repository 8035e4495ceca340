-- ===== src/Core/RateLimit.antt =====
-- app/core/rate_limit.py, on the counter that `RedisCache` of app/core/cache.py keeps under one key.
-- Times are numbers of seconds.
pub mod Window
use fast_kit.Kit.{
  ℕ, ◌+◌, Bool, false, Option, none, some, if◌then◌else◌, ltb, leb, num_eq, Method, pure, raise_if,
  ◌>>=◌, ◌>>◌, ok,
}

-- The value under the key, and when it expires, if ever.
pub record Counter : Type 0 where
  pub value : ℕ
  pub expires_at : Option ℕ

-- `RATE_LIMITED`, 429
pub data TooManyRequests : Type 0 where
  rate_limited : TooManyRequests

abbrev has_expired : ℕ → Option ℕ → Bool
has_expired now none = false
has_expired now (some expires_at) = leb expires_at now

-- What Redis finds under the key at a time.
abbrev live : ℕ → Option Counter → Option Counter
live now none = none
live now (some c) = if has_expired now c.expires_at then none else some c

-- `INCR`: a missing key is created without an expiry; the expiry of another stays.
abbrev bump : Option Counter → Counter
bump none = record { value = 1; expires_at = none }
bump (some c) = record c { value = c.value + 1 }

abbrev incr : ℕ → Method (Option Counter) TooManyRequests ℕ
incr now s = let c = bump (live now s) in (ok c.value, some c)

-- `SETEX`
abbrev pub set_ttl : ℕ → ℕ → ℕ → Method (Option Counter) TooManyRequests (Unit {0})
set_ttl now value ttl s = (ok tt, some (record { value = value; expires_at = some (now + ttl) }))

module _ (max_requests window_seconds : ℕ) where
  -- What follows the increment.
  abbrev pub after_incr : ℕ → ℕ → Method (Option Counter) TooManyRequests (Unit {0})
  after_incr now count =
      (if num_eq count 1 then set_ttl now count window_seconds else pure tt)
      >> raise_if (ltb max_requests count) rate_limited

  unfoldable pub check : ℕ → Method (Option Counter) TooManyRequests (Unit {0})
  check now = incr now >>= after_incr now
