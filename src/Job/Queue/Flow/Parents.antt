-- ===== src/Job/Queue/Flow/Parents.antt =====
-- src/job/memory.rs: what the end of a child does to the parent that waits for it. The functions
-- also return the parent in the program; their callers leave that result aside.
use Prim.Native.String.{String}
use lane.Prelude.{ℕ, not, ◌||◌, Option, none, some, List, [], ◌∷◌, ltb, if◌then◌else◌, has_text}
use lane.Job.{
  Job, JobEnv, JobState, waiting, delayed, active, waiting_children, completed, failed, same_state,
  is_terminal, removes_failed_immediately, failed_retention, child_failed, child_failed_deferred,
}
use lane.Job.Queue.{JobQueue, get, write, emit, job_event_for_state}
use lane.Job.Queue.Records.{retire, order_after}
use lane.Job.Queue.Flow.{child_failure_releases_dependency, clear_child_dependency_side_index}

unfoldable pub state_after_dependencies : ℕ → ℕ → JobState
state_after_dependencies scheduled_at now = if ltb now scheduled_at then delayed else waiting

-- What a look at one child says of its parent.
pub data ChildResult : Type 0 where
  settled : ChildResult
  defers : String → ChildResult
  fails : String → Option String → ChildResult
  pending : ChildResult

-- The last child that fails its parent later, and the last that fails it at once.
abbrev pub Failures : Type 0
Failures = Option String × Option (String × Option String)

-- The loop over the children; `none` is its early return at a child that has not ended.
abbrev pub after_child : ChildResult → (Failures → Option Failures) → Failures → Option Failures
after_child settled go found = go found
after_child (defers id) go found = go (some id, found.1)
after_child (fails id reason) go found = go (found.0, some (id, reason))
after_child pending go found = none

module _ {F V : Type 0} where
  abbrev pub failed_result : Job F V → ChildResult
  failed_result child =
      if child.options.fail_parent_on_failure
      then defers child.id
      else if child_failure_releases_dependency child
      then settled
      else fails child.id child.failed_reason

  abbrev pub result_in : Job F V → JobState → ChildResult
  result_in child completed = settled
  result_in child failed = failed_result child
  result_in child _ = pending

  abbrev pub child_result : Option (Job F V) → ChildResult
  child_result none = settled
  child_result (some child) = result_in child child.state

  abbrev pub scan_children : List String → List (String × Job F V) → Failures → Option Failures
  scan_children [] jobs found = some found
  scan_children (child ∷ children) jobs found =
      after_child (child_result (get child jobs)) (scan_children children jobs) found

  abbrev pub unblocked : JobState → Option String → ℕ → Job F V → Job F V
  unblocked state deferred sequence parent = record parent {
    state = state;
    processed_at = none;
    finished_at = none;
    worker_id = none;
    lock_token = none;
    lease_expires_at = none;
    deferred_failure = deferred;
    failed_reason = none;
    enqueued_seq =
        if same_state state waiting then order_after sequence state else parent.enqueued_seq;
  }

  -- The parent becomes claimable, at once or at the time it is scheduled for.
  abbrev pub unblock : String → Job F V → JobState → Option String → ℕ → JobQueue F V → JobQueue F V
  unblock id parent prev deferred now q =
      let state = state_after_dependencies parent.scheduled_at now in
      let parent' = unblocked state deferred q.sequence parent in
      emit (job_event_for_state state) (some parent'.id) (some prev) now []
        (write id parent' (record q { sequence = order_after q.sequence state }))

  abbrev pub continue_found : String → ℕ → Option (Job F V) → JobQueue F V → JobQueue F V
  continue_found id now none q = q
  continue_found id now (some parent) q =
      if same_state parent.state waiting_children
      then unblock id parent waiting_children none now q
      else q

  unfoldable pub continue_parent_after_child_failure : String → ℕ → JobQueue F V → JobQueue F V
  continue_parent_after_child_failure id now q = continue_found id now (get id q.jobs) q

  abbrev pub blocked : Job F V → Job F V
  blocked parent = record parent {
    state = waiting_children;
    processed_at = none;
    finished_at = none;
    worker_id = none;
    lock_token = none;
    lease_expires_at = none;
    deferred_failure = none;
    failed_reason = none;
  }

  abbrev pub restored : String → String → ℕ → Job F V → JobQueue F V → JobQueue F V
  restored id child now parent q =
      let q' = write id (blocked parent) (clear_child_dependency_side_index id child q) in
      if same_state parent.state waiting_children
      then q'
      else emit "waiting-children" (some parent.id) (some parent.state) now [] q'

  abbrev pub restore_found : String → String → ℕ → Option (Job F V) → JobQueue F V → JobQueue F V
  restore_found id child now none q = q
  restore_found id child now (some parent) q =
      if is_terminal parent.state
        || same_state parent.state active
        || not (has_text child parent.child_ids)
      then q
      else restored id child now parent q

  unfoldable pub restore_parent_dependency_after_child_retry :
      String → String → ℕ → JobQueue F V → JobQueue F V
  unfolding is_terminal
  restore_parent_dependency_after_child_retry id child now q =
      restore_found id child now (get id q.jobs) q

module _ (env : JobEnv) where
  open env use {F, V, text, string}

  abbrev pub defer_found : String → String → ℕ → Option (Job F V) → JobQueue F V → JobQueue F V
  defer_found id child now none q = q
  defer_found id child now (some parent) q =
      if is_terminal parent.state
      then q
      else unblock id parent parent.state (some (text (child_failed_deferred child))) now q

  unfoldable pub defer_parent_failure_after_child_failure :
      String → String → ℕ → JobQueue F V → JobQueue F V
  defer_parent_failure_after_child_failure id child now q =
      defer_found id child now (get id q.jobs) q

  abbrev pub failed_parent : String → ℕ → Job F V → Job F V
  failed_parent reason now parent = record parent {
    state = failed;
    finished_at = some now;
    worker_id = none;
    lock_token = none;
    lease_expires_at = none;
    deferred_failure = none;
    failed_reason = some reason;
  }

  abbrev pub fail_found : String → String → ℕ → Option (Job F V) → JobQueue F V → JobQueue F V
  fail_found id reason now none q = q
  fail_found id reason now (some parent) q =
      let retired =
        retire env (removes_failed_immediately parent.options) (failed_retention parent.options)
          failed id now (write id (failed_parent reason now parent) q) in
      if is_terminal parent.state
      then q
      else emit "failed" (some parent.id) (some waiting_children) now
          (("failedReason", string reason) ∷ []) retired

  unfoldable pub fail_waiting_parent : String → String → ℕ → JobQueue F V → JobQueue F V
  fail_waiting_parent id reason now q = fail_found id reason now (get id q.jobs) q

  abbrev pub settle_parent : String → ℕ → Job F V → Option Failures → JobQueue F V → JobQueue F V
  settle_parent id now parent none q = q
  settle_parent id now parent (some (some child, f)) q =
      defer_parent_failure_after_child_failure id child now q
  settle_parent id now parent (some (none, some (child, reason))) q =
      fail_waiting_parent id (text (child_failed child reason)) now q
  settle_parent id now parent (some (none, none)) q = unblock id parent waiting_children none now q

  abbrev pub release_found : String → ℕ → Option (Job F V) → JobQueue F V → JobQueue F V
  release_found id now none q = q
  release_found id now (some parent) q =
      if same_state parent.state waiting_children
      then settle_parent id now parent (scan_children parent.child_ids q.jobs (none, none)) q
      else q

  unfoldable pub release_parent_if_ready : String → ℕ → JobQueue F V → JobQueue F V
  release_parent_if_ready id now q = release_found id now (get id q.jobs) q
