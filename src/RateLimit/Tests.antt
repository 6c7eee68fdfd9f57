-- ===== src/RateLimit/Tests.antt =====
-- Runs of the limiters, and their theorems at concrete runs.
use lane.Prelude.{ℕ, ◌-◌, ◌≤◌, ◌<◌, ◌≡◌, refl, [], ◌∷◌, ◌++◌, length, arith}
use lane.Float.Whole.{whole}
use lane.RateLimit.{
  TokenBucketLimiter, SlidingWindowLimiter, unlimited, new_bucket, new_window, new_tokens, refill,
  try_bucket, try_window, live_after,
}
use lane.RateLimit.Bucket.{grants, Paid, earned, grants-le, Within, try_bucket-Within, refill_wraps}
use lane.RateLimit.Window.{granted, granted-within}

-- Two commands in 10 ns.
abbrev two_in_ten : SlidingWindowLimiter
two_in_ten = new_window (record { max_commands = 2; window = 10 })

window_runs : granted (20 ∷ 21 ∷ 25 ∷ 30 ∷ 31 ∷ []) two_in_ten ≡ 20 ∷ 21 ∷ 30 ∷ 31 ∷ []
unfolding granted try_window new_window
window_runs = refl

granted-within_example :
    length (
      live_after
        (31 - two_in_ten.window)
        (two_in_ten.timestamps ++ granted (20 ∷ 21 ∷ 25 ∷ 30 ∷ 31 ∷ []) two_in_ten))
    ≤ two_in_ten.max_commands
granted-within_example =
    granted-within (20 ∷ 21 ∷ 25 ∷ 30 ∷ 31 ∷ []) 20 31 two_in_ten (unfold new_window in omega arith)
      (unfold new_window in omega arith) (omega arith)

abbrev five : TokenBucketLimiter ℕ
five = record { capacity = 5; tokens = 1; refill_rate = 5; last_refill = 0 }

bucket_runs : grants whole (1 ∷ 2 ∷ 1000000000 ∷ []) five ≡ 2
unfolding grants try_bucket refill
bucket_runs = refl

grants-le_example : Paid whole 5 1 1000000000 (grants whole (1 ∷ 2 ∷ 1000000000 ∷ []) five)
grants-le_example = grants-le whole (1 ∷ 2 ∷ 1000000000 ∷ []) 1000000000 five (omega arith)

try_bucket-Within_example :
    Within whole (try_bucket whole 1000000000 five).1
    × ((try_bucket whole 1000000000 five).1.capacity ≡ five.capacity)
try_bucket-Within_example = try_bucket-Within whole 1000000000 five (omega arith)

-- The bucket of `RateLimitConfig::unlimited`, a second after its start.
abbrev brimming : TokenBucketLimiter ℕ
brimming = new_bucket whole 0 unlimited

refill_wraps_example : (refill whole 1000000000 brimming).tokens < brimming.tokens
refill_wraps_example =
    refill_wraps whole 1000000000 brimming (unfold new_bucket unlimited in refl)
      (unfold new_bucket unlimited in omega arith)
      (unfold earned new_bucket unlimited new_tokens in omega arith)
