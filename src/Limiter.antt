-- ===== src/Limiter.antt =====
-- apps/api/src/redis/rate-limiter.service.ts and redis.service.ts: counters and locks. The server
-- of Redis is a parameter.
use phone_control.Common.{
  ℕ, ◌*◌, Bool, true, false, Option, none, some, leb, ltb, if◌then◌else◌, is_some,
}

-- What stands before the identifier in a key.
pub data Namespace : Type 0 where
  barcode barcode_device barcode_badge : Namespace

-- The templates of the keys; an identifier is the number of its text.
pub data RedisKey : Type 0 where
  rl fail lock : Namespace → (identifier : ℕ) → RedisKey

-- A server in a state `ρ`, which changes with the commands and the time. A command that fails gives
-- `none`. A text is a number, and a negative answer of TTL is 0.
pub record Redis (ρ : Type 0) : Type 0 where
  -- `MULTI INCR EXPIRE NX EXEC`: the new value of the counter
  pub increment_with_ttl : RedisKey → ℕ → ρ → Option ℕ × ρ
  pub get : RedisKey → ρ → Option (Option ℕ) × ρ
  -- `SET key value EX seconds`
  pub set_with_ttl : RedisKey → (value seconds : ℕ) → ρ → Option (Unit {0}) × ρ
  pub del : RedisKey → ρ → Option (Unit {0}) × ρ
  pub ttl : RedisKey → ρ → Option ℕ × ρ

pub record RateLimitDecision : Type 0 where
  pub allowed : Bool
  pub count : ℕ
  pub limit : ℕ
  pub retry_after_seconds : ℕ

pub record BarcodeLimits : Type 0 where
  pub per_device_per_minute : ℕ
  pub per_badge_per_minute : ℕ
  pub lockout_failures : ℕ
  pub lockout_minutes : ℕ

-- Redis does not answer: let pass.
abbrev pub unavailable : ℕ → RateLimitDecision
unavailable limit = record { allowed = true; count = 0; limit = limit; retry_after_seconds = 0 }

abbrev pub decision : (limit window count left : ℕ) → RateLimitDecision
decision limit window count left = record {
  allowed = leb count limit;
  count = count;
  limit = limit;
  retry_after_seconds = if ltb 0 left then left else window;
}

module _ {ρ : Type 0} where
  -- An error counts as no failure.
  abbrev pub or_zero : Option ℕ × ρ → ℕ × ρ
  or_zero (none, s) = (0, s)
  or_zero (some count, s) = (count, s)

  -- `value !== null`, an error counting as null.
  abbrev pub holds_value : Option (Option ℕ) × ρ → Bool × ρ
  holds_value (none, s) = (false, s)
  holds_value (some value, s) = (is_some value, s)

module _ {ρ : Type 0} (redis : Redis ρ) where
  decide_quota : (limit window count : ℕ) → Option ℕ × ρ → RateLimitDecision × ρ
  decide_quota limit window count (none, s) = (unavailable limit, s)
  decide_quota limit window count (some left, s) = (decision limit window count left, s)

  count_quota : Namespace → (identifier limit window : ℕ) → Option ℕ × ρ → RateLimitDecision × ρ
  unfolding decide_quota
  count_quota namespace identifier limit window (none, s) = (unavailable limit, s)
  count_quota namespace identifier limit window (some count, s) =
      decide_quota limit window count (redis.ttl (rl namespace identifier) s)

  unfoldable pub consume : Namespace → (identifier limit window : ℕ) → ρ → RateLimitDecision × ρ
  unfolding count_quota
  consume namespace identifier limit window s =
      count_quota namespace identifier limit window
        (redis.increment_with_ttl (rl namespace identifier) window s)

  unfoldable pub record_failure : Namespace → (identifier window : ℕ) → ρ → ℕ × ρ
  record_failure namespace identifier window s =
      or_zero (redis.increment_with_ttl (fail namespace identifier) window s)

  unfoldable pub clear_failures : Namespace → ℕ → ρ → Unit {0} × ρ
  clear_failures namespace identifier s = (tt, (redis.del (fail namespace identifier) s).1)

  unfoldable pub is_locked_out : Namespace → ℕ → ρ → Bool × ρ
  is_locked_out namespace identifier s = holds_value (redis.get (lock namespace identifier) s)

  unfoldable pub lock_out : Namespace → (identifier minutes : ℕ) → ρ → Unit {0} × ρ
  lock_out namespace identifier minutes s =
      (tt, (redis.set_with_ttl (lock namespace identifier) 1 (minutes * 60) s).1)
