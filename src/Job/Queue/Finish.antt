-- ===== src/Job/Queue/Finish.antt =====
-- src/job/memory.rs: the end of an attempt, `complete_job` and `fail_active_job`, and the next
-- occurrence of a repeated job. A fresh UUID is the argument `uuid`.
use Prim.Native.String.{String}
use lane.Prelude.{
  ℕ, ◌+◌, Bool, true, false, ◌&&◌, Option, none, some, [], ◌∷◌, min, ltb, leb, if◌then◌else◌,
  lookup,
}
use lane.Error.{Result, ok, err, ◌>>◌}
use lane.Retry.{delay_for_attempt}
use lane.Job.{
  Job, JobEnv, JobState, delayed, active, completed, failed, same_state, RepeatOptions,
  RepeatSchedule, every, cron, new, add_duration, child_failed, removes_completed_immediately,
  removes_failed_immediately, completed_retention, failed_retention,
}
use lane.Job.Queue.{
  JobQueue, write, with_job, checked, emit, job_event_for_state, require_active, require_lock_token,
}
use lane.Job.Queue.Records.{retire, insert_job, emit_drained_event_if_needed}
use lane.Job.Queue.Flow.{
  ensure_flow_dependencies_are_resolved, record_terminal_child_dependency,
  child_failure_releases_dependency,
}
use lane.Job.Queue.Flow.Parents.{
  state_after_dependencies, release_parent_if_ready, defer_parent_failure_after_child_failure,
  continue_parent_after_child_failure, fail_waiting_parent,
}
use lane.Job.Queue.Dedup.{limit_reached}
use lane.Job.Queue.Dedup.Next.{enqueue_next}

abbrev pub ends_before : Option ℕ → ℕ → Bool
ends_before none time = false
ends_before (some end) time = ltb end time

module _ {F V : Type 0} where
  unfoldable pub should_retry : Job F V → Bool
  should_retry job =
      ltb 0 job.options.retry_policy.max_retries
      && leb job.attempts_made job.options.retry_policy.max_retries

  unfoldable pub retries_exhausted : Job F V → Bool
  retries_exhausted job =
      same_state job.state failed && ltb job.options.retry_policy.max_retries job.attempts_made

module _ (env : JobEnv) where
  open env use {F, V, text, string, number, next_cron, series}

  abbrev pub next_scheduled_at : RepeatSchedule → ℕ → Result (Option ℕ)
  next_scheduled_at (every interval) after = ok (some (add_duration env after interval))
  next_scheduled_at (cron expression) after = next_cron expression after

  abbrev pub next_occurrence : String → Job F V → ℕ → ℕ → ℕ → Job F V
  next_occurrence uuid job count scheduled_at now =
      record (new env job.queue job.name (series job.queue job.name) uuid job.payload
        (record job.options { job_id = none }) now) {
          scheduled_at = scheduled_at;
          state = state_after_dependencies scheduled_at now;
          repeat_key = job.repeat_key;
          repeat_count = count;
        }

  abbrev pub occurrence_at :
      String → Job F V → RepeatOptions → ℕ → ℕ → Result (Option ℕ) → Result (Option (Job F V))
  occurrence_at uuid job repeat count now (err e) = err e
  occurrence_at uuid job repeat count now (ok none) = ok none
  occurrence_at uuid job repeat count now (ok (some time)) =
      if ends_before repeat.end_at time
      then ok none
      else ok (some (next_occurrence uuid job count time now))

  abbrev pub next_of : String → Job F V → ℕ → Option RepeatOptions → Result (Option (Job F V))
  next_of uuid job now none = ok none
  next_of uuid job now (some repeat) =
      let count = min (job.repeat_count + 1) 4294967295 in
      if limit_reached (some repeat) count
      then ok none
      else occurrence_at uuid job repeat count now (next_scheduled_at repeat.schedule now)

  unfoldable pub next_repeat_job : String → Job F V → ℕ → Result (Option (Job F V))
  next_repeat_job uuid job now = next_of uuid job now job.options.repeat

  abbrev pub completed_job : V → ℕ → Job F V → Job F V
  completed_job value now job = record job {
    state = completed;
    finished_at = some now;
    worker_id = none;
    lock_token = none;
    lease_expires_at = none;
    deferred_failure = none;
    return_value = some value;
  }

  abbrev pub record_in_parent : Option String → Job F V → JobQueue F V → JobQueue F V
  record_in_parent none child q = q
  record_in_parent (some parent) child q = record_terminal_child_dependency env parent child q

  abbrev pub release_parent : Option String → ℕ → JobQueue F V → JobQueue F V
  release_parent none now q = q
  release_parent (some parent) now q = release_parent_if_ready env parent now q

  abbrev pub emit_completed : Job F V → V → ℕ → JobQueue F V → JobQueue F V
  emit_completed job value now q = emit_drained_event_if_needed now (
      emit "completed" (some job.id) (some active) now (("returnvalue", value) ∷ [])
        (release_parent job.parent_id now q))

  -- The next occurrence is added unless a next job or flow was; an error of its schedule returns
  -- from `complete_job` with the changes made until then.
  abbrev pub add_occurrence :
      Job F V → V → ℕ → Result (Option (Job F V)) → JobQueue F V → Result (Job F V) × JobQueue F V
  add_occurrence job value now (err e) q = (err e, q)
  add_occurrence job value now (ok none) q = (ok job, emit_completed job value now q)
  add_occurrence job value now (ok (some next)) q =
      (ok job, emit_completed job value now (insert_job env next now q))

  abbrev pub after_next :
      String → Job F V → V → ℕ → Bool × JobQueue F V → Result (Job F V) × JobQueue F V
  after_next uuid job value now (true, q) = (ok job, emit_completed job value now q)
  after_next uuid job value now (false, q) =
      add_occurrence job value now (next_repeat_job uuid job now) q

  abbrev pub completed_in : String → Job F V → ℕ → JobQueue F V → JobQueue F V
  completed_in id job now q =
      retire env (removes_completed_immediately job.options) (completed_retention job.options)
        completed id now (record_in_parent job.parent_id job (write id job q))

  unfoldable pub complete :
      String → String → String → V → ℕ → JobQueue F V → Result (Job F V) × JobQueue F V
  unfolding require_active require_lock_token ensure_flow_dependencies_are_resolved
  complete uuid id token value now q = with_job id q (λ job.
      let job' = completed_job value now job in
      checked
        (require_active text job "complete"
          >> require_lock_token text job token
          >> ensure_flow_dependencies_are_resolved env job q.jobs (lookup id q.flow_dependencies)
              "complete")
        q (after_next uuid job' value now (enqueue_next env job' now (completed_in id job' now q))))

  abbrev pub failed_state : Bool → JobState
  failed_state retries = if retries then delayed else failed

  abbrev pub failed_job : Bool → String → ℕ → Job F V → Job F V
  failed_job retries error now job = record job {
    state = failed_state retries;
    scheduled_at =
        if retries
        then add_duration env now
            (delay_for_attempt env.float job.options.retry_policy job.attempts_made)
        else job.scheduled_at;
    finished_at = if retries then none else some now;
    worker_id = none;
    lock_token = none;
    lease_expires_at = none;
    deferred_failure = none;
    failed_reason = some error;
  }

  abbrev pub fail_parent : Option String → Job F V → ℕ → JobQueue F V → JobQueue F V
  fail_parent none job now q = q
  fail_parent (some parent) job now q =
      if job.options.fail_parent_on_failure
      then defer_parent_failure_after_child_failure env parent job.id now q
      else if job.options.continue_parent_on_failure
      then continue_parent_after_child_failure parent now q
      else if child_failure_releases_dependency job
      then release_parent_if_ready env parent now q
      else fail_waiting_parent env parent (text (child_failed job.id job.failed_reason)) now q

  -- What a failure that is not retried does besides the job itself.
  abbrev pub failed_in : String → Job F V → ℕ → JobQueue F V → JobQueue F V
  failed_in id job now q =
      let retired =
        retire env (removes_failed_immediately job.options) (failed_retention job.options) failed id
          now (record_in_parent job.parent_id job q) in
      fail_parent job.parent_id job now (enqueue_next env job now retired).1

  abbrev pub emit_exhausted : Job F V → ℕ → JobQueue F V → JobQueue F V
  emit_exhausted job now q =
      if retries_exhausted job
      then emit "retries-exhausted" (some job.id) none now
          (("attemptsMade", number job.attempts_made) ∷ []) q
      else q

  abbrev pub emit_failed : Bool → Job F V → String → ℕ → JobQueue F V → JobQueue F V
  emit_failed retries job error now q =
      let told = emit_exhausted job now (
        emit (job_event_for_state job.state) (some job.id) (some active) now
          (("failedReason", string error) ∷ []) q) in
      if retries then told else emit_drained_event_if_needed now told

  unfoldable pub fail_active_job :
      String → String → String → ℕ → Bool → JobQueue F V → Result (Job F V) × JobQueue F V
  unfolding require_active require_lock_token should_retry
  fail_active_job id token error now allow_retry q = with_job id q (λ job.
      let retries = allow_retry && should_retry job in
      let job' = failed_job retries error now job in
      let written = write id job' q in
      checked (require_active text job "fail" >> require_lock_token text job token) q (
        ok job',
        emit_failed retries job' error now
            (if retries then written else failed_in id job' now written),
      ))
