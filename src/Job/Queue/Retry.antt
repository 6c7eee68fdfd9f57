-- ===== src/Job/Queue/Retry.antt =====
-- src/job/memory.rs: `retry`, which puts a finished job back among the waiting ones.
use Prim.Native.String.{String}
use lane.Prelude.{ℕ, Bool, ◌||◌, Option, none, some, [], if◌then◌else◌}
use lane.Error.{Result, ok, err, job_state_conflict, ◌>>◌}
use lane.Job.{
  Job, JobEnv, JobState, waiting, completed, failed, same_state, deduplication_expiration, cannot,
  owner_active, repeat_active, Message,
}
use lane.Job.Queue.{JobQueue, write, with_job, checked, emit, next_waiting_sequence}
use lane.Job.Queue.Records.{job_deduplication_id, without_owner}
use lane.Job.Queue.Flow.Parents.{restore_parent_dependency_after_child_retry}
use lane.Job.Queue.Dedup.{find_active_deduplication_id_except, find_active_repeat_key_except}

module _ (env : JobEnv) where
  open env use {F, V, text}

  abbrev pub retried : ℕ → ℕ → Job F V → Job F V
  retried sequence now job = record job {
    state = waiting;
    scheduled_at = now;
    deduplication_expires_at = deduplication_expiration env job.options now;
    processed_at = none;
    finished_at = none;
    worker_id = none;
    lock_token = none;
    lease_expires_at = none;
    deferred_failure = none;
    failed_reason = none;
    return_value = none;
    enqueued_seq = sequence;
  }

  abbrev pub is_finished : JobState → Bool
  is_finished state = same_state state failed || same_state state completed

  abbrev pub refused_by : Option (Job F V) → (Job F V → Message) → Result (Unit {0})
  refused_by none message = ok tt
  refused_by (some other) message = err (job_state_conflict (text (message other)))

  abbrev pub free_id : String → ℕ → JobQueue F V → Option String → Result (Unit {0})
  free_id id now q none = ok tt
  free_id id now q (some deduplication_id) =
      refused_by
        (find_active_deduplication_id_except q.jobs q.released_deduplication_owners deduplication_id
          id now)
        (λ other. owner_active id deduplication_id other.id)

  abbrev pub free_key : String → JobQueue F V → Option String → Result (Unit {0})
  free_key id q none = ok tt
  free_key id q (some key) =
      refused_by (find_active_repeat_key_except q.jobs key id)
        (λ other. repeat_active id key other.id)

  abbrev pub require_finished : Job F V → Result (Unit {0})
  require_finished job =
      if is_finished job.state
      then ok tt
      else err (job_state_conflict (text (cannot "retry" job.id job.state)))

  abbrev pub restore_parent : Option String → String → ℕ → JobQueue F V → JobQueue F V
  restore_parent none id now q = q
  restore_parent (some parent) id now q =
      restore_parent_dependency_after_child_retry parent id now q

  unfoldable pub retry : String → ℕ → JobQueue F V → Result (Job F V) × JobQueue F V
  unfolding next_waiting_sequence find_active_deduplication_id_except find_active_repeat_key_except
      emit job_deduplication_id restore_parent_dependency_after_child_retry
  retry id now q = with_job id q (λ job.
      let sequence = next_waiting_sequence q.sequence in
      let job' = retried sequence now job in
      checked
        (require_finished job
          >> free_id id now q (job_deduplication_id job)
          >> free_key id q job.repeat_key)
        q
        (
          ok job',
          restore_parent job.parent_id id now (
              emit "waiting" (some job'.id) (some job.state) now [] (
                write id job' (record q {
                  sequence = sequence;
                  released_deduplication_owners =
                      without_owner (job_deduplication_id job) id q.released_deduplication_owners;
                }))),
        ))
