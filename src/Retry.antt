-- ===== src/Retry.antt =====
-- src/retry.rs: `RetryPolicy`. Durations are nanoseconds. The backoff is computed in `f64`, the
-- parameter `Float`.
pub mod Delay
pub mod Tests
use lane.Prelude.{ℕ, ◌+◌, ◌-◌, ◌*◌, ◌^◌, ◌<◌, ◌≡◌, min, Bool, ◌||◌, ltb, ◌==◌, if◌then◌else◌}
use lane.Float.{Float}
use lane.Time.{from_millis, from_secs, as_millis}

pub record RetryPolicy (F : Type 0) : Type 0 where
  pub max_retries : ℕ
  pub initial_delay : ℕ
  pub max_delay : ℕ
  pub multiplier : F

unfoldable pub should_retry : {F : Type 0} → RetryPolicy F → ℕ → Bool
should_retry p attempt = ltb attempt p.max_retries

module _ (float : Float) where
  open float use {F, of_ℕ, times, powi, to_u64}

  unfoldable pub exponential : ℕ → RetryPolicy F
  exponential max_retries = record {
    max_retries = max_retries;
    initial_delay = from_millis 100;
    max_delay = from_secs 30;
    multiplier = of_ℕ 2;
  }

  unfoldable pub fixed : ℕ → ℕ → RetryPolicy F
  fixed max_retries delay = record {
    max_retries = max_retries;
    initial_delay = delay;
    max_delay = delay;
    multiplier = of_ℕ 1;
  }

  unfoldable pub no_retries : RetryPolicy F
  no_retries = record {
    max_retries = 0;
    initial_delay = from_secs 0;
    max_delay = from_secs 0;
    multiplier = of_ℕ 1;
  }

  unfoldable pub delay_for_attempt : RetryPolicy F → ℕ → ℕ
  delay_for_attempt p attempt =
      if attempt == 0 || p.max_retries == 0
      then from_secs 0
      else (let delay_ms =
            times (of_ℕ (as_millis p.initial_delay)) (powi p.multiplier (attempt - 1)) in
          min (from_millis (to_u64 delay_ms)) p.max_delay)
