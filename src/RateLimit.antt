-- ===== src/RateLimit.antt =====
-- src/ratelimit.rs: the token bucket and the sliding window limiters. Durations are nanoseconds, and
-- instants are nanoseconds since the earliest one that the platform represents; the clock's reading
-- is an argument of each call. A call of `try_acquire` is one step: interleavings inside it are not
-- modelled. `none` is a panic.
pub mod Bucket
pub mod Window
pub mod Tests
use mathlib.Core.Option
use lane.Prelude.{
  ℕ, ◌+◌, ◌-◌, ◌*◌, ◌%◌, ◌≤◌, ◌<◌, min, Bool, true, false, Option, none, some, List, [], ◌∷◌, ◌++◌,
  length, filter, ltb, ◌==◌, if◌then◌else◌,
}
use lane.Float.{Float, u64_max}
use lane.Time.{from_secs}

pub record RateLimitConfig : Type 0 where
  pub max_commands : ℕ
  pub window : ℕ

unfoldable pub per_second : ℕ → RateLimitConfig
per_second max_commands = record { max_commands = max_commands; window = from_secs 1 }

unfoldable pub per_minute : ℕ → RateLimitConfig
per_minute max_commands = record { max_commands = max_commands; window = from_secs 60 }

unfoldable pub per_hour : ℕ → RateLimitConfig
per_hour max_commands = record { max_commands = max_commands; window = from_secs 3600 }

unfoldable pub unlimited : RateLimitConfig
unlimited = record { max_commands = u64_max; window = from_secs 1 }

pub record TokenBucketLimiter (F : Type 0) : Type 0 where
  pub capacity : ℕ
  pub tokens : ℕ
  pub refill_rate : F
  pub last_refill : ℕ

-- The sliding window keeps the instants of the commands that it let through, oldest first.
pub record SlidingWindowLimiter : Type 0 where
  pub max_commands : ℕ
  pub window : ℕ
  pub timestamps : List ℕ

pub data RateLimiter (F : Type 0) : Type 0 where
  token_bucket : TokenBucketLimiter F → RateLimiter F
  sliding_window : SlidingWindowLimiter → RateLimiter F
  no_limit : RateLimiter F

-- `now - self.window` panics below the earliest instant.
unfoldable pub window_start : ℕ → ℕ → Option ℕ
window_start now window = if ltb now window then none else some (now - window)

-- `timestamps.retain(|&ts| ts > window_start)`
abbrev pub live_after : ℕ → List ℕ → List ℕ
live_after start = filter (λ ts. ltb start ts)

abbrev pub admit : ℕ → SlidingWindowLimiter → List ℕ → Bool × SlidingWindowLimiter
admit now l live =
    if ltb (length live) l.max_commands
    then (true, record l { timestamps = live ++ now ∷ [] })
    else (false, record l { timestamps = live })

unfoldable pub try_window : ℕ → SlidingWindowLimiter → Option (Bool × SlidingWindowLimiter)
unfolding window_start
try_window now l =
    Option.map (λ start. admit now l (live_after start l.timestamps)) (window_start now l.window)

unfoldable pub current_count : ℕ → SlidingWindowLimiter → Option (ℕ × SlidingWindowLimiter)
unfolding window_start
current_count now l =
    Option.map
      (λ start. (
        length (live_after start l.timestamps),
        record l { timestamps = live_after start l.timestamps },
      ))
      (window_start now l.window)

-- `saturating_sub` is the subtraction of ℕ.
unfoldable pub remaining : ℕ → SlidingWindowLimiter → Option (ℕ × SlidingWindowLimiter)
unfolding current_count
remaining now l = Option.map (λ r. (l.max_commands - r.0, r.1)) (current_count now l)

unfoldable pub new_window : RateLimitConfig → SlidingWindowLimiter
new_window c = record { max_commands = c.max_commands; window = c.window; timestamps = [] }

module _ (float : Float) where
  open float use {F, of_ℕ, times, divide, as_secs_f64, is_positive, to_u64}

  unfoldable pub new_bucket : ℕ → RateLimitConfig → TokenBucketLimiter F
  new_bucket now c = record {
    capacity = c.max_commands;
    tokens = c.max_commands;
    refill_rate = divide (of_ℕ c.max_commands) (as_secs_f64 c.window);
    last_refill = now;
  }

  -- The tokens that an elapsed time has earned.
  unfoldable pub new_tokens : TokenBucketLimiter F → ℕ → ℕ
  new_tokens l elapsed = to_u64 (times (as_secs_f64 elapsed) l.refill_rate)

  -- `current + new_tokens` is a sum of `u64`: without overflow checks it wraps. Instants do not run
  -- backwards, and `duration_since` is 0 where they would.
  unfoldable pub refill : ℕ → TokenBucketLimiter F → TokenBucketLimiter F
  unfolding new_tokens
  refill now l =
      let elapsed = now - l.last_refill in
      if is_positive (as_secs_f64 elapsed)
      then (if ltb 0 (new_tokens l elapsed)
          then record l {
            tokens = min ((l.tokens + new_tokens l elapsed) % 18446744073709551616) l.capacity;
            last_refill = now;
          }
          else l)
      else l

  unfoldable pub take_token : TokenBucketLimiter F → Bool × TokenBucketLimiter F
  take_token l = if l.tokens == 0 then (false, l) else (true, record l { tokens = l.tokens - 1 })

  unfoldable pub try_bucket : ℕ → TokenBucketLimiter F → Bool × TokenBucketLimiter F
  unfolding take_token
  try_bucket now l = take_token (refill now l)

  unfoldable pub try_acquire : ℕ → RateLimiter F → Option (Bool × RateLimiter F)
  unfolding try_bucket try_window
  try_acquire now (token_bucket l) =
      let (granted, l') = try_bucket now l in some (granted, token_bucket l')
  try_acquire now (sliding_window l) =
      Option.map (λ r. (r.0, sliding_window r.1)) (try_window now l)
  try_acquire now no_limit = some (true, no_limit)
