-- ===== src/Retry/Tests.antt =====
-- The retry theorems, at a `Float` that computes with whole numbers.
use lane.Prelude.{◌+◌, ◌*◌, ◌^◌, ◌≤◌, ◌≡◌, min, arith}
use lane.Float.Whole.{whole}
use lane.Time.{from_millis, from_secs}
use lane.Retry.{exponential, fixed, delay_for_attempt}
use lane.Retry.Delay.{delay_bounds, delay-fixed, delay-exponential}

delay_bounds_example :
    (delay_for_attempt whole (exponential whole 5) 12 ≤ (exponential whole 5).max_delay)
    × (delay_for_attempt whole (exponential whole 5) 0 ≡ 0)
delay_bounds_example = delay_bounds whole (exponential whole 5) 12

delay-fixed_example :
    delay_for_attempt whole (fixed whole 3 (from_millis 2000)) 2 ≡ from_millis 2000
delay-fixed_example = delay-fixed whole 3 2000 2 (omega arith) (omega arith) (omega arith)

delay-exponential_example :
    delay_for_attempt whole (exponential whole 5) (3 + 1)
    ≡ min (from_millis (100 * 2 ^ 3)) (from_secs 30)
delay-exponential_example = delay-exponential whole 5 3 (omega arith) (omega arith)
