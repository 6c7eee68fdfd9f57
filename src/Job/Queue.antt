-- ===== src/Job/Queue.antt =====
-- src/job/memory.rs: the state of `InMemoryJobQueue`, events, and the operations on single jobs that take or
-- give up leases, delay, promote and change jobs. A map is an association list by its key.
pub mod Active
pub mod Step
pub mod Records
pub mod Flow
pub mod Dedup
pub mod Finish
pub mod Remove
pub mod Children
pub mod Retry
pub mod Stalled
pub mod Add
pub mod Repeats
pub mod Listing
pub mod Kept
pub mod Claim
pub mod Page
pub mod Promotion
pub mod Lease
pub mod Guards
pub mod Once
pub mod Attempts
pub mod Reachable
pub mod Tests
mod Scenarios
use Prim.Native.Nat.{compare, Ordering}
use Prim.Native.String.{String, compare as compare_text}
use text.Mathlib.Text.{◌==◌ as str_eq}
use lane.Prelude.{
  ℕ, ◌+◌, ◌-◌, ◌≤◌, ◌≡◌, min, Bool, true, false, not, ◌&&◌, ◌||◌, Option, none, some, List, [], ◌∷◌,
  ◌++◌, map, length, filter, drop, ltb, leb, ◌==◌, if◌then◌else◌,
}
use lane.Prelude.Sort.{sort_by, pop_first}
use lane.Error.{
  LaneError, Result, ok, err, ◌>>◌, job_not_found, job_state_conflict, job_lease_conflict,
  config_error,
}
use lane.PriorityQueue.{then_with, u64_max}
use lane.Job
use lane.Job.{
  Job, JobEnv, JobState, waiting, delayed, active, waiting_children, completed, failed, same_state,
  Message, cannot, not_owner, zero_delay, validate_job_priority, add_duration, JobLogEntry,
  JobOptions, JobFlow,
}

pub record JobEvent (V : Type 0) : Type 0 where
  pub id : ℕ
  pub event : String
  pub timestamp : ℕ
  pub job_id : Option String
  pub prev : Option JobState
  pub fields : List (String × V)

-- The children of a flow that have ended, by how they count for their parent.
pub record FlowIndex (V : Type 0) : Type 0 where
  pub processed : List (String × V)
  pub ignored : List (String × String)
  pub failed : List String

pub record JobQueue (F V : Type 0) : Type 0 where
  pub paused : Bool
  pub sequence : ℕ
  pub event_sequence : ℕ
  pub events : List (JobEvent V)
  pub jobs : List (String × Job F V)
  pub flow_dependencies : List (String × FlowIndex V)
  pub deduplication_next : List (String × Job F V)
  pub deduplication_next_flows : List (String × JobFlow F V)
  pub released_deduplication_owners : List (String × String)

pub record JobQueueStats : Type 0 where
  pub total : ℕ
  pub waiting : ℕ
  pub delayed : ℕ
  pub active : ℕ
  pub waiting_children : ℕ
  pub completed : ℕ
  pub failed : ℕ
  pub paused : Bool

unfoldable pub job_event_for_state : JobState → String
job_event_for_state waiting = "waiting"
job_event_for_state delayed = "delayed"
job_event_for_state active = "active"
job_event_for_state waiting_children = "waiting-children"
job_event_for_state completed = "completed"
job_event_for_state failed = "failed"

-- A comparison as the test that sorting takes: whether the first may stand before the second.
abbrev pub not_after : Ordering → Bool
not_after Ordering.gt = false
not_after _ = true

unfoldable pub next_waiting_sequence : ℕ → ℕ
next_waiting_sequence sequence = min (sequence + 1) u64_max

abbrev pub lifo_order : Bool → Bool → ℕ → ℕ → Ordering
lifo_order true true m n = compare n m
lifo_order true false m n = Ordering.lt
lifo_order false true m n = Ordering.gt
lifo_order false false m n = compare m n

abbrev pub is_token : Option String → String → Bool
is_token none token = false
is_token (some held) token = str_eq held token

module _ {F V : Type 0} where
  -- `HashMap::get`
  abbrev pub get : String → List (String × Job F V) → Option (Job F V)
  get id [] = none
  get id ((k, job) ∷ jobs) = if str_eq k id then some job else get id jobs

  -- A write through `HashMap::get_mut`, to the job that `get` finds.
  abbrev pub put : String → Job F V → List (String × Job F V) → List (String × Job F V)
  put id job [] = []
  put id job ((k, j) ∷ jobs) = if str_eq k id then (k, job) ∷ jobs else (k, j) ∷ put id job jobs

  abbrev pub values : List (String × Job F V) → List (Job F V)
  values = map (λ r. r.1)

  unfoldable pub compare_waiting_order : Job F V → Job F V → Ordering
  compare_waiting_order a b =
      if a.enqueued_seq == 0
      then (if b.enqueued_seq == 0 then compare_text a.id b.id else Ordering.lt)
      else if b.enqueued_seq == 0
      then Ordering.gt
      else lifo_order a.options.lifo b.options.lifo a.enqueued_seq b.enqueued_seq

  unfoldable pub compare_claim_order : Job F V → Job F V → Ordering
  unfolding compare_waiting_order
  compare_claim_order a b = then_with (compare a.priority b.priority) (
      then_with (compare_waiting_order a b) (
        then_with (compare a.scheduled_at b.scheduled_at)
          (then_with (compare a.created_at b.created_at) (compare_text a.id b.id))))

  -- Events are trimmed to the last `keep`; the number of those removed is returned.
  unfoldable pub trim_events : ℕ → JobQueue F V → ℕ × JobQueue F V
  trim_events keep q =
      let remove_count = length q.events - keep in
      (remove_count, record q { events = drop remove_count q.events })

  unfoldable pub emit :
      String → Option String → Option JobState → ℕ → List (String × V) → JobQueue F V → JobQueue F V
  unfolding trim_events
  emit event job_id prev timestamp fields q =
      let sequence = min (q.event_sequence + 1) u64_max in
      (trim_events 10000 (record q {
        event_sequence = sequence;
        events =
            q.events
            ++ record {
              id = sequence;
              event = event;
              timestamp = timestamp;
              job_id = job_id;
              prev = prev;
              fields = fields;
            }
              ∷ [];
      })).1

  unfoldable pub require_active : (Message → String) → Job F V → String → Result (Unit {0})
  require_active text job action =
      if same_state job.state active
      then ok tt
      else err (job_state_conflict (text (cannot action job.id job.state)))

  unfoldable pub require_lock_token : (Message → String) → Job F V → String → Result (Unit {0})
  require_lock_token text job token =
      if is_token job.lock_token token
      then ok tt
      else err (job_lease_conflict (text (not_owner job.id)))

  -- An early return of an error, with the queue as it was.
  abbrev pub checked :
      Result (Unit {0})
      → JobQueue F V
      → Result (Job F V) × JobQueue F V
      → Result (Job F V) × JobQueue F V
  checked (err e) q done = (err e, q)
  checked (ok x) q done = done

  abbrev pub found :
      String
      → JobQueue F V
      → (Job F V → Result (Job F V) × JobQueue F V)
      → Option (Job F V)
      → Result (Job F V) × JobQueue F V
  found id q k none = (err (job_not_found id), q)
  found id q k (some job) = k job

  abbrev pub with_job :
      String
      → JobQueue F V
      → (Job F V → Result (Job F V) × JobQueue F V)
      → Result (Job F V) × JobQueue F V
  with_job id q k = found id q k (get id q.jobs)

  abbrev pub write : String → Job F V → JobQueue F V → JobQueue F V
  write id job q = record q { jobs = put id job q.jobs }

  -- `promote_due_locked`: the loop over the due jobs, which stand in the order of their times. Its
  -- count of them is left out.
  abbrev pub promote_one : ℕ → String → Option (Job F V) → JobQueue F V → JobQueue F V
  promote_one now id none q = q
  promote_one now id (some job) q =
      let job' = record job { state = waiting; enqueued_seq = q.sequence } in
      emit "waiting" (some job'.id) (some delayed) now [] (write id job' q)

  unfoldable pub promote_each : ℕ → List (Job F V) → JobQueue F V → JobQueue F V
  unfolding emit next_waiting_sequence
  promote_each now [] q = q
  promote_each now (due ∷ dues) q =
      let q' : JobQueue F V = record q { sequence = next_waiting_sequence q.sequence } in
      promote_each now dues (promote_one now due.id (get due.id q'.jobs) q')

  abbrev pub is_due : ℕ → Job F V → Bool
  is_due now job = same_state job.state delayed && leb job.scheduled_at now

  unfoldable pub due_before : Job F V → Job F V → Bool
  due_before a b = not_after (
      then_with (compare a.scheduled_at b.scheduled_at)
        (then_with (compare a.created_at b.created_at) (compare_text a.id b.id)))

  unfoldable pub promote_due : ℕ → JobQueue F V → JobQueue F V
  unfolding promote_each due_before
  promote_due now q = promote_each now (sort_by due_before (filter (is_due now) (values q.jobs))) q

  unfoldable pub pause : ℕ → JobQueue F V → JobQueue F V
  unfolding emit
  pause now q = emit "paused" none none now [] (record q { paused = true })

  unfoldable pub resume : ℕ → JobQueue F V → JobQueue F V
  unfolding emit
  resume now q = emit "resumed" none none now [] (record q { paused = false })

  unfoldable pub count_state : JobState → List (String × Job F V) → ℕ
  count_state s jobs = length (filter (λ (j : Job F V). same_state j.state s) (values jobs))

  unfoldable pub stats : JobQueue F V → JobQueueStats
  unfolding count_state
  stats q = record {
    total = length q.jobs;
    waiting = count_state waiting q.jobs;
    delayed = count_state delayed q.jobs;
    active = count_state active q.jobs;
    waiting_children = count_state waiting_children q.jobs;
    completed = count_state completed q.jobs;
    failed = count_state failed q.jobs;
    paused = q.paused;
  }
