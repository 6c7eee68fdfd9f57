-- ===== src/Job/Queue/Stalled.antt =====
-- src/job/memory.rs: `recover_stalled_jobs`. The lists that the loop over the stalled jobs fills are
-- read off the jobs that failed in it, which it meets in the same order.
pub mod Recovery
use Prim.Native.Nat.{compare, Ordering}
use Prim.Native.String.{String, compare as compare_text}
use lane.Prelude.{
  ℕ, ◌+◌, Bool, false, not, ◌&&◌, Option, none, some, List, [], ◌∷◌, ◌++◌, filter, length, min, ltb,
  if◌then◌else◌,
}
use lane.Prelude.Sort.{sort_by}
use lane.PriorityQueue.{then_with}
use lane.Job.{
  Job, JobEnv, waiting, active, failed, same_state, child_failed, lease_expired,
  removes_failed_immediately, failed_retention,
}
use lane.Job.Queue.{
  JobQueue, get, values, write, emit, not_after, next_waiting_sequence, job_event_for_state,
}
use lane.Job.Queue.Records.{remove_job_record, retire}
use lane.Job.Queue.Flow.{child_failure_releases_dependency}
use lane.Job.Queue.Flow.Parents.{
  release_parent_if_ready, defer_parent_failure_after_child_failure,
  continue_parent_after_child_failure, fail_waiting_parent,
}
use lane.Job.Queue.Dedup.{reached, is_repeat_scheduler_job}
use lane.Job.Queue.Dedup.Next.{enqueue_next}
use lane.Job.Queue.Finish.{record_in_parent}

abbrev pub compare_option : Option ℕ → Option ℕ → Ordering
compare_option none none = Ordering.eq
compare_option none (some t) = Ordering.lt
compare_option (some s) none = Ordering.gt
compare_option (some s) (some t) = compare s t

-- The jobs that failed, and those that have events to emit.
abbrev pub Recovered : Type 0 → Type 0 → Type 0
Recovered F V = List (Job F V) × List (Job F V)

module _ {F V : Type 0} where
  abbrev pub is_stalled : ℕ → Job F V → Bool
  is_stalled now job = same_state job.state active && reached job.lease_expires_at now

  abbrev pub stalled_before : Job F V → Job F V → Bool
  stalled_before a b = not_after (
      then_with (compare_option a.lease_expires_at b.lease_expires_at)
        (then_with (compare_option a.processed_at b.processed_at) (compare_text a.id b.id)))

  unfoldable pub stalled_jobs : ℕ → JobQueue F V → List (Job F V)
  unfolding sort_by
  stalled_jobs now q = sort_by stalled_before (filter (is_stalled now) (values q.jobs))

  abbrev pub stalled_count : Job F V → ℕ
  stalled_count job = min (job.stalled_count + 1) 4294967295

  unfoldable pub fails_stalled : Job F V → Bool
  unfolding is_repeat_scheduler_job
  fails_stalled job =
      ltb job.options.max_stalled_count (stalled_count job) && not (is_repeat_scheduler_job job)

  abbrev pub defers_parent : Job F V → Bool
  defers_parent job = job.options.fail_parent_on_failure

  abbrev pub continues_parent : Job F V → Bool
  continues_parent job = not (defers_parent job) && job.options.continue_parent_on_failure

  abbrev pub releases_parent : Job F V → Bool
  releases_parent job =
      not (defers_parent job)
      && not job.options.continue_parent_on_failure
      && child_failure_releases_dependency job

  abbrev pub fails_parent : Job F V → Bool
  fails_parent job =
      not (defers_parent job)
      && not job.options.continue_parent_on_failure
      && not (child_failure_releases_dependency job)

  abbrev pub parent_step :
      (String → Job F V → JobQueue F V → JobQueue F V)
      → Job F V
      → Option String
      → JobQueue F V
      → JobQueue F V
  parent_step act job none q = q
  parent_step act job (some parent) q = act parent job q

  -- A loop over the failed jobs that pass the test and have a parent.
  abbrev pub for_parents :
      (Job F V → Bool)
      → (String → Job F V → JobQueue F V → JobQueue F V)
      → List (Job F V)
      → JobQueue F V
      → JobQueue F V
  for_parents test act [] q = q
  for_parents test act (job ∷ jobs) q =
      for_parents test act jobs (if test job then parent_step act job job.parent_id q else q)

  abbrev pub remove_failed : List (Job F V) → JobQueue F V → JobQueue F V
  remove_failed [] q = q
  remove_failed (job ∷ jobs) q =
      remove_failed jobs
        (if removes_failed_immediately job.options then (remove_job_record job.id q).1 else q)

module _ (env : JobEnv) where
  open env use {F, V, text, string}

  abbrev pub failed_stalled : ℕ → Job F V → Job F V
  failed_stalled now job = record job {
    stalled_count = stalled_count job;
    worker_id = none;
    lock_token = none;
    lease_expires_at = none;
    deferred_failure = none;
    failed_reason = some (text lease_expired);
    state = failed;
    finished_at = some now;
  }

  abbrev pub requeued_stalled : ℕ → Job F V → Job F V
  requeued_stalled sequence job = record job {
    stalled_count = stalled_count job;
    worker_id = none;
    lock_token = none;
    lease_expires_at = none;
    deferred_failure = none;
    failed_reason = some (text lease_expired);
    state = waiting;
    processed_at = none;
    enqueued_seq = sequence;
  }

  abbrev pub recover_job :
      String → ℕ → Option (Job F V) → Recovered F V × JobQueue F V → Recovered F V × JobQueue F V
  recover_job id now none (r, q) = (r, q)
  recover_job id now (some job) (r, q) =
      let failure = failed_stalled now job in
      let sequence = next_waiting_sequence q.sequence in
      let requeued = requeued_stalled sequence job in
      if fails_stalled job
      then ((r.0 ++ failure ∷ [], r.1 ++ failure ∷ []), write id failure q)
      else ((r.0, r.1 ++ requeued ∷ []), write id requeued (record q { sequence = sequence }))

  abbrev pub recover_each :
      List (Job F V) → ℕ → Recovered F V × JobQueue F V → Recovered F V × JobQueue F V
  recover_each [] now (r, q) = (r, q)
  recover_each (job ∷ jobs) now (r, q) =
      recover_each jobs now (recover_job job.id now (get job.id q.jobs) (r, q))

  -- The loop over `terminal_failures`; the removal of records that are not kept comes before it.
  abbrev pub settle_failures : List (Job F V) → ℕ → JobQueue F V → JobQueue F V
  settle_failures [] now q = q
  settle_failures (job ∷ jobs) now q = settle_failures jobs now (
      retire env false (failed_retention job.options) failed job.id now
        (enqueue_next env job now (record_in_parent env job.parent_id job q)).1)

  abbrev pub settle_parents : List (Job F V) → ℕ → JobQueue F V → JobQueue F V
  settle_parents jobs now q =
      for_parents fails_parent
        (λ parent job.
          fail_waiting_parent env parent (text (child_failed job.id job.failed_reason)) now)
        jobs
        (for_parents releases_parent (λ parent job. release_parent_if_ready env parent now) jobs
          (for_parents continues_parent
            (λ parent job. continue_parent_after_child_failure parent now) jobs
            (for_parents defers_parent
              (λ parent job. defer_parent_failure_after_child_failure env parent job.id now) jobs
              q)))

  abbrev pub reason_fields : Option String → List (String × V)
  reason_fields none = []
  reason_fields (some reason) = ("failedReason", string reason) ∷ []

  abbrev pub emit_recovered : List (Job F V) → ℕ → JobQueue F V → JobQueue F V
  emit_recovered [] now q = q
  emit_recovered (job ∷ jobs) now q =
      let fields = reason_fields job.failed_reason in
      emit_recovered jobs now (
        emit (job_event_for_state job.state) (some job.id) (some active) now fields
          (emit "stalled" (some job.id) (some active) now fields q))

  abbrev pub finish_recovery : ℕ → Recovered F V × JobQueue F V → JobQueue F V
  finish_recovery now ((failures, events), q) =
      emit_recovered events now
        (settle_parents failures now (settle_failures failures now (remove_failed failures q)))

  unfoldable pub recover_stalled_jobs : ℕ → JobQueue F V → ℕ × JobQueue F V
  unfolding stalled_jobs fails_stalled next_waiting_sequence removes_failed_immediately
      failed_retention emit remove_job_record child_failure_releases_dependency
  recover_stalled_jobs now q =
      let stalled = stalled_jobs now q in
      (length stalled, finish_recovery now (recover_each stalled now (([], []), q)))
