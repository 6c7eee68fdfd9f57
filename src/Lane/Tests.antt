-- ===== src/Lane/Tests.antt =====
-- A lane with a full bucket and nothing to run.
use lane.Prelude.{ℕ, ◌-◌, ◌≡◌, refl, false, some, none, arith}
use lane.Float.Whole.{whole}
use lane.RateLimit.{TokenBucketLimiter, refill}
use lane.LaneConfig.{LaneConfig}
use lane.Lane.{Env, Now, Lane, with_storage, try_dequeue, has_capacity, has_pending}
use lane.Lane.Dequeue.{try_dequeue_pays, Fifo, try_dequeue-Fifo}

abbrev pub plain_env : Env
plain_env = record { float = whole; from_std = some; display = λ e. "failed" }

abbrev pub at_start : Now
at_start = record { instant = 0; utc = 0 }

abbrev pub one_at_a_time : LaneConfig ℕ
one_at_a_time = record {
  min_concurrency = 1;
  max_concurrency = 1;
  default_timeout = none;
  retry_policy = record { max_retries = 1; initial_delay = 0; max_delay = 0; multiplier = 1 };
  rate_limit = none;
  priority_boost = none;
  pressure_threshold = none;
}

abbrev full_bucket : TokenBucketLimiter ℕ
full_bucket = record { capacity = 2; tokens = 2; refill_rate = 2; last_refill = 0 }

abbrev limited_lane : Lane ℕ
unfolding with_storage
limited_lane = record (with_storage plain_env at_start "query" one_at_a_time 2 false) {
  rate_limiter = some full_bucket;
}

try_dequeue_pays_example :
    let paid = refill whole 0 full_bucket in
    try_dequeue plain_env at_start limited_lane
    ≡ (none, record limited_lane { rate_limiter = some (record paid { tokens = paid.tokens - 1 }) })
unfolding with_storage
try_dequeue_pays_example =
    try_dequeue_pays plain_env at_start limited_lane full_bucket refl
      (unfold has_capacity has_pending in refl) (unfold refill in omega arith)

try_dequeue-Fifo_example : Fifo limited_lane (try_dequeue plain_env at_start limited_lane)
try_dequeue-Fifo_example = try_dequeue-Fifo plain_env at_start limited_lane
