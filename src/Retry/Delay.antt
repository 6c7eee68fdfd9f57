-- ===== src/Retry/Delay.antt =====
-- The delays of the retry policies.
use lane.Prelude.{ℕ, ◌+◌, ◌-◌, ◌*◌, ◌^◌, ◌≤◌, ◌<◌, ◌≡◌, min, arith}
use lane.Float.{Float}
use lane.Time.{from_millis, from_secs, as_millis}
use lane.Retry.{RetryPolicy, exponential, fixed, delay_for_attempt}

module _ (float : Float) where
  -- Every delay is at most `max_delay`, and the first attempt has none.
  pub delay_bounds :
      (p : RetryPolicy float.F) (attempt : ℕ)
      → (delay_for_attempt float p attempt ≤ p.max_delay) × (delay_for_attempt float p 0 ≡ 0)
  unfolding delay_for_attempt
  delay_bounds p attempt = (ground arith, ground arith)

  -- A policy of fixed whole-millisecond delays below 2^53 ms waits exactly that delay before every
  -- attempt after the first, if it allows retries.
  pub delay-fixed :
      (max_retries ms attempt : ℕ)
      → 0 < max_retries
      → ms < 2 ^ 53
      → 0 < attempt
      → delay_for_attempt float (fixed float max_retries (from_millis ms)) attempt ≡ from_millis ms
  unfolding delay_for_attempt fixed
  delay-fixed max_retries ms attempt h hm ha =
      let e : as_millis (from_millis ms) ≡ ms = omega arith in
      rw e (ground (arith, float.powi_one ms (attempt - 1)))

  -- The exponential policy doubles from 100 ms and stays at 30 s, for every attempt from 1 up to
  -- 2^31, if it allows retries.
  pub delay-exponential :
      (max_retries n : ℕ)
      → 0 < max_retries
      → n < 2 ^ 31
      → delay_for_attempt float (exponential float max_retries) (n + 1)
        ≡ min (from_millis (100 * 2 ^ n)) (from_secs 30)
  unfolding delay_for_attempt exponential
  delay-exponential max_retries n h hn =
      let e : n + 1 - 1 ≡ n = omega arith in
      let p = float.powi_two 100 n (omega arith) hn in rw e (ground (arith, p))
