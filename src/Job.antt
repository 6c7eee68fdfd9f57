-- ===== src/Job.antt =====
-- src/job/types.rs: the record of a durable job, its states and its options. Times are nanoseconds
-- of the calendar, JSON values the type `V`, the multiplier of a retry policy has the type `F`.
pub mod Queue
pub mod Validate
pub mod Later
use mathlib.Core.Option
use Prim.Native.String.{String}
use lane.Prelude.{
  ℕ, ◌+◌, ◌<◌, ◌≤◌, ◌≡◌, Bool, true, false, not, ◌&&◌, ◌||◌, Option, none, some, List, [], ltb, leb,
  ◌==◌, if◌then◌else◌, length, filter, ◌∷◌,
}
use lane.Error.{LaneError, Result, ok, err, config_error}
use lane.Float.{Float}
use lane.Retry.{RetryPolicy}

pub data JobState : Type 0 where
  waiting delayed active waiting_children completed failed : JobState

unfoldable pub is_terminal : JobState → Bool
is_terminal completed = true
is_terminal failed = true
is_terminal _ = false

unfoldable pub state_rank : JobState → ℕ
state_rank waiting = 0
state_rank delayed = 1
state_rank active = 2
state_rank waiting_children = 3
state_rank completed = 4
state_rank failed = 5

-- `PartialEq` of states.
abbrev pub same_state : JobState → JobState → Bool
same_state waiting waiting = true
same_state delayed delayed = true
same_state active active = true
same_state waiting_children waiting_children = true
same_state completed completed = true
same_state failed failed = true
same_state _ _ = false

pub record JobRetention : Type 0 where
  pub age : Option ℕ
  pub count : Option ℕ
  pub limit : Option ℕ

pub data RepeatSchedule : Type 0 where
  every : ℕ → RepeatSchedule
  cron : String → RepeatSchedule

pub record RepeatOptions : Type 0 where
  pub schedule : RepeatSchedule
  pub limit : Option ℕ
  pub end_at : Option ℕ
  pub key : Option String

pub record DeduplicationOptions : Type 0 where
  pub id : String
  pub ttl : Option ℕ
  pub replace : Bool
  pub keep_last_if_active : Bool
  pub extend : Bool

pub record JobOptions (F : Type 0) : Type 0 where
  pub job_id : Option String
  pub priority : ℕ
  pub lifo : Bool
  pub delay : Option ℕ
  pub retry_policy : RetryPolicy F
  pub timeout : Option ℕ
  pub remove_on_complete : Bool
  pub completion_retention : Option JobRetention
  pub remove_on_fail : Bool
  pub failure_retention : Option JobRetention
  pub max_stalled_count : ℕ
  pub repeat : Option RepeatOptions
  pub deduplication : Option DeduplicationOptions
  pub ignore_dependency_on_failure : Bool
  pub remove_dependency_on_failure : Bool
  pub continue_parent_on_failure : Bool
  pub fail_parent_on_failure : Bool

pub record JobLogEntry : Type 0 where
  pub timestamp : ℕ
  pub line : String

pub record Job (F V : Type 0) : Type 0 where
  pub id : String
  pub queue : String
  pub name : String
  pub payload : V
  pub options : JobOptions F
  pub priority : ℕ
  pub state : JobState
  pub attempts_made : ℕ
  pub stalled_count : ℕ
  pub created_at : ℕ
  pub scheduled_at : ℕ
  pub enqueued_seq : ℕ
  pub processed_at : Option ℕ
  pub finished_at : Option ℕ
  pub worker_id : Option String
  pub lock_token : Option String
  pub lease_expires_at : Option ℕ
  pub deferred_failure : Option String
  pub failed_reason : Option String
  pub stacktrace : List String
  pub return_value : Option V
  pub progress : Option V
  pub logs : List JobLogEntry
  pub parent_id : Option String
  pub child_ids : List String
  pub repeat_key : Option String
  pub repeat_count : ℕ
  pub deduplication_expires_at : Option ℕ

pub record JobSpec (F V : Type 0) : Type 0 where
  pub name : String
  pub payload : V
  pub options : JobOptions F

pub record JobFlow (F V : Type 0) : Type 0 where
  pub parent : Job F V
  pub children : List (Job F V)

-- The texts that errors are made of.
pub data Message : Type 0 where
  cannot : String → String → JobState → Message
  not_owner : String → Message
  priority_range : Message
  zero_delay : Message
  active_jobs : Message
  leased : String → Message
  not_removable : String → Message
  pending_dependencies : String → String → ℕ → Message
  failed_dependencies : String → String → ℕ → Message
  child_failed : String → Option String → Message
  child_failed_deferred : String → Message
  duplicate_flow_id : String → Message
  child_of_other : String → String → Message
  end_before_add : Message
  lease_expired : Message
  owner_active : String → String → String → Message
  repeat_active : String → String → String → Message
  empty_job_id : Message
  reserved_job_id : Message
  integer_job_id : Message
  zero_interval : Message
  zero_limit : Message
  empty_deduplication_id : Message
  zero_ttl : Message
  no_bound : String → Message
  zero_age : String → Message
  zero_retention_limit : String → Message
  many_policies : Message
  repeat_required : Message
  empty_repeat_key : Message
  owner_in_flow : String → String → Message
  id_exists : String → Message
  deduplication_taken : String → String → Message

-- What jobs take from elsewhere: floats, the calendar's arithmetic, which is checked and exact where
-- it succeeds, the next time of a cron expression, JSON values, and the wording of texts.
pub record JobEnv : Type 1 where
  pub float : Float
  pub open float use {F}
  pub V : Type 0
  pub from_std : ℕ → Option ℕ
  pub checked_add : ℕ → ℕ → Option ℕ
  pub from_std-eq : (d e : ℕ) → from_std d ≡ some e → e ≡ d
  pub checked_add-eq : (t d s : ℕ) → checked_add t d ≡ some s → s ≡ t + d
  pub checked_sub : ℕ → ℕ → Option ℕ
  pub checked_sub-eq : (t d s : ℕ) → checked_sub t d ≡ some s → t ≡ s + d
  pub check_cron : String → Result (Unit {0})
  pub next_cron : String → ℕ → Result (Option ℕ)
  pub is_blank : String → Bool
  pub series : String → String → String
  pub timestamp_millis : ℕ → V
  pub string : String → V
  pub number : ℕ → V
  pub null : V
  pub text : Message → String

unfoldable pub removes_current : JobRetention → Bool
removes_current r = elim r.count [ none ↦ false | some n ↦ n == 0 ]

unfoldable pub removes_completed_immediately : {F : Type 0} → JobOptions F → Bool
unfolding removes_current
removes_completed_immediately o =
    o.remove_on_complete
    || (elim o.completion_retention [ none ↦ false | some r ↦ removes_current r ])

unfoldable pub removes_failed_immediately : {F : Type 0} → JobOptions F → Bool
unfolding removes_current
removes_failed_immediately o =
    o.remove_on_fail || (elim o.failure_retention [ none ↦ false | some r ↦ removes_current r ])

abbrev pub kept : Option JobRetention → Option JobRetention
unfolding removes_current
kept none = none
kept (some r) = if removes_current r then none else some r

unfoldable pub completed_retention : {F : Type 0} → JobOptions F → Option JobRetention
completed_retention o = if o.remove_on_complete then none else kept o.completion_retention

unfoldable pub failed_retention : {F : Type 0} → JobOptions F → Option JobRetention
failed_retention o = if o.remove_on_fail then none else kept o.failure_retention

abbrev pub max_job_priority : ℕ
max_job_priority = 2097152

unfoldable pub validate_job_priority : (Message → String) → ℕ → Result (Unit {0})
validate_job_priority text priority =
    if ltb max_job_priority priority then err (config_error (text priority_range)) else ok tt

module _ (env : JobEnv) where
  open env use {F, V, from_std, checked_add, checked_sub}

  abbrev pub sum_or : ℕ → Option ℕ → ℕ
  sum_or at none = at
  sum_or at (some t) = t

  abbrev pub shifted : ℕ → Option ℕ → ℕ
  shifted at none = at
  shifted at (some delta) = sum_or at (checked_add at delta)

  unfoldable pub add_duration : ℕ → ℕ → ℕ
  add_duration at duration = shifted at (from_std duration)

  abbrev difference_or : ℕ → Option ℕ → ℕ
  difference_or at none = at
  difference_or at (some delta) = sum_or at (checked_sub at delta)

  unfoldable pub subtract_duration : ℕ → ℕ → ℕ
  subtract_duration at duration = difference_or at (from_std duration)

  -- `Job::new`. The id where the options give none is a fresh UUID; `joined` is the text of
  -- `{queue}:{name}`.
  unfoldable pub deduplication_expiration : JobOptions F → ℕ → Option ℕ
  deduplication_expiration options now = elim options.deduplication [
    | none ↦ none
    | some d ↦ if d.keep_last_if_active then none else Option.map (add_duration now) d.ttl
  ]

  abbrev scheduled : ℕ → Option ℕ → ℕ
  scheduled now none = now
  scheduled now (some delay) = add_duration now delay

  abbrev or_else : {A : Type 0} → Option A → A → A
  or_else none a = a
  or_else (some b) a = b

  unfoldable pub new : String → String → String → String → V → JobOptions F → ℕ → Job F V
  unfolding deduplication_expiration add_duration
  new queue name joined uuid payload options now =
      let scheduled_at = scheduled now options.delay in
      record {
        id = or_else options.job_id uuid;
        queue = queue;
        name = name;
        payload = payload;
        options = options;
        priority = options.priority;
        state = if ltb now scheduled_at then delayed else waiting;
        attempts_made = 0;
        stalled_count = 0;
        created_at = now;
        scheduled_at = scheduled_at;
        enqueued_seq = 0;
        processed_at = none;
        finished_at = none;
        worker_id = none;
        lock_token = none;
        lease_expires_at = none;
        deferred_failure = none;
        failed_reason = none;
        stacktrace = [];
        return_value = none;
        progress = none;
        logs = [];
        parent_id = none;
        child_ids = [];
        repeat_key = Option.map (λ (r : RepeatOptions). or_else r.key joined) options.repeat;
        repeat_count = 0;
        deduplication_expires_at = deduplication_expiration options now;
      }
