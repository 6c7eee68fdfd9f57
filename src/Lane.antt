-- ===== src/Lane.antt =====
-- src/queue.rs: `CommandWrapper`, `LaneState` and `Lane`. A lane stands here with the tasks that the
-- scheduler has spawned for it: each holds the lane by an `Arc`, and each access to the state under
-- its mutex is one step. Priorities are numbers, lower ones first.
pub mod Invariant
pub mod Weight
pub mod Dequeue
pub mod Tests
use mathlib.Core.Option
use Prim.Native.String.{String}
use lane.Prelude.{
  ℕ, ◌+◌, ◌-◌, ◌%◌, Bool, true, false, not, ◌&&◌, ◌||◌, Option, none, some, List, [], ◌∷◌, ◌++◌,
  length, ltb, leb, ◌==◌, if◌then◌else◌,
}
use lane.Float.{Float}
use lane.Error.{LaneError}
use lane.Retry.{RetryPolicy, delay_for_attempt}
use lane.RateLimit.{TokenBucketLimiter, new_bucket, try_bucket}
use lane.Boost.{PriorityBoostConfig, calculate_priority}
use lane.LaneConfig.{LaneConfig}
use lane.Dlq.{front, behind}

-- What the queue takes from elsewhere: floats, the bound of `chrono::Duration`, error messages.
pub record Env : Type 1 where
  pub float : Float
  pub from_std : ℕ → Option ℕ
  pub display : LaneError → String

-- The readings of the monotonic clock and of the calendar.
pub record Now : Type 0 where
  pub instant : ℕ
  pub utc : ℕ

pub record CommandWrapper (F : Type 0) : Type 0 where
  pub id : String
  pub timeout : Option ℕ
  pub retry_policy : RetryPolicy F
  pub attempt : ℕ
  pub lane_id : String
  pub command_type : String
  -- whether it holds a permit of the queue
  pub work_permit : Bool
  pub enqueue_time : ℕ

pub record LaneState (F : Type 0) : Type 0 where
  pub config : LaneConfig F
  pub priority : ℕ
  pub pending : List (CommandWrapper F)
  pub active : ℕ
  pub delayed_retries : ℕ
  pub is_pressured : Bool

-- The tasks of a lane, by how far they are: executing; with the result sent but the lane's `active`
-- and the permit still held; handed to a retry but `active` still held; asleep before a retry.
pub record LaneTasks (F : Type 0) : Type 0 where
  pub running : List (CommandWrapper F)
  pub finishing : List (CommandWrapper F)
  pub releasing : ℕ
  pub sleeping : List (CommandWrapper F)

pub record Lane (F : Type 0) : Type 0 where
  pub id : String
  pub state : LaneState F
  pub open state use *
  pub storage : Bool
  pub rate_limiter : Option (TokenBucketLimiter F)
  pub booster : Option PriorityBoostConfig
  pub tasks : LaneTasks F
  pub open tasks use *

pub record LaneStatus : Type 0 where
  pub pending : ℕ
  pub active : ℕ
  pub min : ℕ
  pub max : ℕ

pub data Pressure : Type 0 where
  queue_lane_pressure queue_lane_idle : Pressure

abbrev pub no_tasks : {F : Type 0} → LaneTasks F
no_tasks = record { running = []; finishing = []; releasing = 0; sleeping = [] }

module _ {F : Type 0} where
  unfoldable pub new_state : LaneConfig F → ℕ → LaneState F
  new_state config priority = record {
    config = config;
    priority = priority;
    pending = [];
    active = 0;
    delayed_retries = 0;
    is_pressured = false;
  }

  unfoldable pub has_capacity : LaneState F → Bool
  has_capacity s = ltb s.active s.config.max_concurrency

  unfoldable pub has_pending : LaneState F → Bool
  has_pending s = not (length s.pending == 0)

  unfoldable pub push_pending : CommandWrapper F → Lane F → Lane F
  push_pending w l = record l { state = record l.state { pending = l.pending ++ w ∷ [] } }

  -- `retry_command` up to its sleep. The attempt is a `u32`.
  unfoldable pub retry_command : CommandWrapper F → Lane F → Lane F
  retry_command w l =
      let w' = record w { attempt = (w.attempt + 1) % 4294967296 } in
      record l {
        state = record l.state { delayed_retries = l.delayed_retries + 1 };
        tasks = record l.tasks { sleeping = l.sleeping ++ w' ∷ [] };
      }

  -- The end of the sleep.
  unfoldable pub wake : CommandWrapper F → Lane F → Lane F
  wake w l = record l {
    state = record l.state {
      delayed_retries = l.delayed_retries - 1;
      pending = l.pending ++ w ∷ [];
    };
  }

  unfoldable pub mark_completed : Lane F → Lane F
  mark_completed l = record l { state = record l.state { active = l.active - 1 } }

  unfoldable pub status : Lane F → LaneStatus
  status l = record {
    pending = length l.pending + l.delayed_retries;
    active = l.active;
    min = l.config.min_concurrency;
    max = l.config.max_concurrency;
  }

  unfoldable pub is_idle : Lane F → Bool
  is_idle l = length l.pending == 0 && l.active == 0 && l.delayed_retries == 0

  abbrev pub check_threshold : Lane F → Option ℕ → Option Pressure × Lane F
  check_threshold l none = (none, l)
  check_threshold l (some threshold) =
      if leb threshold (length l.pending) && not l.is_pressured
      then (some queue_lane_pressure, record l { state = record l.state { is_pressured = true } })
      else if length l.pending == 0 && l.is_pressured
      then (some queue_lane_idle, record l { state = record l.state { is_pressured = false } })
      else (none, l)

  unfoldable pub check_pressure : Lane F → Option Pressure × Lane F
  check_pressure l = check_threshold l l.config.pressure_threshold

  -- `try_dequeue` behind the rate limiter.
  unfoldable pub dequeue : Lane F → Option (CommandWrapper F) × Lane F
  unfolding has_capacity has_pending
  dequeue l =
      if has_capacity l.state && has_pending l.state
      then (
        front l.pending,
        record l { state = record l.state { active = l.active + 1; pending = behind l.pending } },
      )
      else (none, l)

module _ (env : Env) where
  abbrev pub Fl : Type 0
  Fl = env.float.F

  unfoldable pub with_storage : Now → String → LaneConfig Fl → ℕ → Bool → Lane Fl
  unfolding new_state
  with_storage now id config priority storage = record {
    id = id;
    state = new_state config priority;
    storage = storage;
    rate_limiter = Option.map (new_bucket env.float now.instant) config.rate_limit;
    booster = config.priority_boost;
    tasks = no_tasks;
  }

  unfoldable pub new : Now → String → LaneConfig Fl → ℕ → Lane Fl
  unfolding with_storage
  new now id config priority = with_storage now id config priority false

  abbrev pub boosted : Now → ℕ → Option PriorityBoostConfig → List (CommandWrapper Fl) → ℕ
  boosted now base none ws = base
  boosted now base (some booster) [] = base
  boosted now base (some booster) (w ∷ ws) =
      calculate_priority env.from_std booster now.utc base w.enqueue_time

  unfoldable pub effective_priority : Now → Lane Fl → ℕ
  effective_priority now l = boosted now l.priority l.booster l.pending

  -- `rate_limiter.try_acquire`: the constructors build a token bucket or no limit.
  abbrev pub acquire : Now → Option (TokenBucketLimiter Fl) → Bool × Option (TokenBucketLimiter Fl)
  acquire now none = (true, none)
  acquire now (some b) =
      let (granted, b') = try_bucket env.float now.instant b in (granted, some b')

  unfoldable pub try_dequeue : Now → Lane Fl → Option (CommandWrapper Fl) × Lane Fl
  unfolding dequeue
  try_dequeue now l =
      let (granted, limiter) = acquire now l.rate_limiter in
      let l' = record l { rate_limiter = limiter } in if granted then dequeue l' else (none, l')
