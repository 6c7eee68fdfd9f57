-- ===== src/LaneConfig.antt =====
-- src/config.rs: `LaneConfig` and its builder.
use lane.Prelude.{ℕ, Option, none, some}
use lane.Float.{Float}
use lane.Retry.{RetryPolicy, no_retries}
use lane.RateLimit.{RateLimitConfig}
use lane.Boost.{PriorityBoostConfig}

pub record LaneConfig (F : Type 0) : Type 0 where
  pub min_concurrency : ℕ
  pub max_concurrency : ℕ
  pub default_timeout : Option ℕ
  pub retry_policy : RetryPolicy F
  pub rate_limit : Option RateLimitConfig
  pub priority_boost : Option PriorityBoostConfig
  pub pressure_threshold : Option ℕ

unfoldable pub new : (float : Float) → ℕ → ℕ → LaneConfig float.F
unfolding no_retries
new float min_concurrency max_concurrency = record {
  min_concurrency = min_concurrency;
  max_concurrency = max_concurrency;
  default_timeout = none;
  retry_policy = no_retries float;
  rate_limit = none;
  priority_boost = none;
  pressure_threshold = none;
}

module _ {F : Type 0} where
  unfoldable pub with_timeout : LaneConfig F → ℕ → LaneConfig F
  with_timeout c timeout = record c { default_timeout = some timeout }

  unfoldable pub with_retry_policy : LaneConfig F → RetryPolicy F → LaneConfig F
  with_retry_policy c retry_policy = record c { retry_policy = retry_policy }

  unfoldable pub with_rate_limit : LaneConfig F → RateLimitConfig → LaneConfig F
  with_rate_limit c rate_limit = record c { rate_limit = some rate_limit }

  unfoldable pub with_priority_boost : LaneConfig F → PriorityBoostConfig → LaneConfig F
  with_priority_boost c priority_boost = record c { priority_boost = some priority_boost }

  unfoldable pub with_pressure_threshold : LaneConfig F → ℕ → LaneConfig F
  with_pressure_threshold c threshold = record c { pressure_threshold = some threshold }
