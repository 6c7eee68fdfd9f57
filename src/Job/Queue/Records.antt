-- ===== src/Job/Queue/Records.antt =====
-- src/job/memory.rs: how jobs enter and leave the map, and the retention of finished jobs.
use Prim.Native.Nat.{compare}
use Prim.Native.String.{String, compare as compare_text}
use lane.Prelude.{
  ℕ, Bool, true, false, not, ◌&&◌, Option, none, some, List, [], ◌∷◌, map, filter, drop, take, leb,
  if◌then◌else◌, erase, insert_at, erase_pair,
}
use lane.Prelude.Sort.{sort_by}
use lane.PriorityQueue.{then_with}
use lane.Job.{
  Job, JobEnv, JobState, waiting, active, same_state, JobRetention, DeduplicationOptions,
  subtract_duration,
}
use lane.Job.Queue.{
  JobQueue, get, values, emit, not_after, next_waiting_sequence, job_event_for_state,
}

abbrev deduplication_of : Option DeduplicationOptions → Option String
deduplication_of none = none
deduplication_of (some d) = some d.id

abbrev pub without_owner : Option String → String → List (String × String) → List (String × String)
without_owner none job_id owners = owners
without_owner (some id) job_id owners = erase_pair (id, job_id) owners

abbrev pub latest_first : String × ℕ → String × ℕ → Bool
latest_first a b = not_after (then_with (compare b.1 a.1) (compare_text b.0 a.0))

abbrev pub or_thousand : Option ℕ → ℕ
or_thousand none = 1000
or_thousand (some limit) = limit

abbrev pub order_after : ℕ → JobState → ℕ
order_after sequence state =
    if same_state state waiting then next_waiting_sequence sequence else sequence

module _ {F V : Type 0} where
  unfoldable pub job_deduplication_id : Job F V → Option String
  job_deduplication_id job = deduplication_of job.options.deduplication

  unfoldable pub forget_released_deduplication_owner : Job F V → JobQueue F V → JobQueue F V
  unfolding job_deduplication_id
  forget_released_deduplication_owner job q = record q {
    released_deduplication_owners =
        without_owner (job_deduplication_id job) job.id q.released_deduplication_owners;
  }

  abbrev pub remove_found :
      String → JobQueue F V → Option (Job F V) → Option (Job F V) × JobQueue F V
  remove_found id q none = (none, q)
  remove_found id q (some job) = (
    some job,
    forget_released_deduplication_owner job
        (record q { jobs = erase id q.jobs; flow_dependencies = erase id q.flow_dependencies }),
  )

  unfoldable pub remove_job_record : String → JobQueue F V → Option (Job F V) × JobQueue F V
  remove_job_record id q = remove_found id q (get id q.jobs)

  abbrev pub remove_all : List String → JobQueue F V → JobQueue F V
  remove_all [] q = q
  remove_all (id ∷ ids) q = remove_all ids (remove_job_record id q).1

  abbrev pub with_finished : Job F V → Option ℕ → List (String × ℕ) → List (String × ℕ)
  with_finished job none rest = rest
  with_finished job (some at) rest = (job.id, at) ∷ rest

  -- The ids of the jobs in a terminal state, with the times at which they finished.
  abbrev pub finished_in : JobState → List (String × Job F V) → List (String × ℕ)
  finished_in state [] = []
  finished_in state ((k, job) ∷ jobs) =
      let rest = finished_in state jobs in
      if same_state job.state state then with_finished job job.finished_at rest else rest

  abbrev pub expired_ids : JobState → ℕ → ℕ → List (String × Job F V) → List String
  expired_ids state cutoff limit jobs =
      map (λ (r : String × ℕ). r.0)
        (take limit (
          sort_by latest_first
            (filter (λ (r : String × ℕ). leb r.1 cutoff) (finished_in state jobs))))

  abbrev pub surplus_ids : JobState → ℕ → List (String × Job F V) → List String
  surplus_ids state count jobs =
      map (λ (r : String × ℕ). r.0) (drop count (sort_by latest_first (finished_in state jobs)))

  abbrev pub retain_count : JobState → Option ℕ → JobQueue F V → JobQueue F V
  retain_count state none q = q
  retain_count state (some count) q = remove_all (surplus_ids state count q.jobs) q

  -- `assign_waiting_order`, the insertion of the job under its id, and the events of its creation.
  abbrev pub placed : ℕ → Job F V → Job F V
  placed sequence job = record job {
    enqueued_seq =
        if same_state job.state waiting then next_waiting_sequence sequence else job.enqueued_seq;
  }

  abbrev pub quiet_state : Job F V → Bool
  quiet_state job = not (same_state job.state waiting) && not (same_state job.state active)

  abbrev all_quiet : List (Job F V) → Bool
  all_quiet [] = true
  all_quiet (job ∷ jobs) = quiet_state job && all_quiet jobs

  unfoldable pub emit_drained_event_if_needed : ℕ → JobQueue F V → JobQueue F V
  unfolding emit
  emit_drained_event_if_needed now q =
      if all_quiet (values q.jobs) then emit "drained" none none now [] q else q

  unfoldable pub emit_removed_event : Job F V → ℕ → JobQueue F V → JobQueue F V
  unfolding emit
  emit_removed_event job now q = emit "removed" (some job.id) (some job.state) now [] q

module _ (env : JobEnv) where
  open env use {F, V, string}

  abbrev pub expire : JobState → JobRetention → ℕ → Option ℕ → JobQueue F V → JobQueue F V
  expire state retention now none q = q
  expire state retention now (some age) q =
      remove_all
        (expired_ids state (subtract_duration env now age) (or_thousand retention.limit) q.jobs) q

  unfoldable pub apply_finished_retention :
      JobState → JobRetention → ℕ → JobQueue F V → JobQueue F V
  apply_finished_retention state retention now q =
      retain_count state retention.count (expire state retention now retention.age q)

  -- What happens to the record of a job that has ended.
  abbrev pub retire :
      Bool → Option JobRetention → JobState → String → ℕ → JobQueue F V → JobQueue F V
  retire true retention state id now q = (remove_job_record id q).1
  retire false none state id now q = q
  retire false (some retention) state id now q = apply_finished_retention state retention now q

  unfoldable pub emit_job_created_events : Job F V → ℕ → JobQueue F V → JobQueue F V
  unfolding emit
  emit_job_created_events job now q =
      emit (job_event_for_state job.state) (some job.id) none now []
        (emit "added" (some job.id) none now (("name", string job.name) ∷ []) q)

  unfoldable pub insert_job : Job F V → ℕ → JobQueue F V → JobQueue F V
  unfolding forget_released_deduplication_owner emit_job_created_events
  insert_job job now q =
      let job' = placed q.sequence job in
      let forgotten = forget_released_deduplication_owner job q in
      emit_job_created_events job' now (record forgotten {
        sequence = order_after q.sequence job.state;
        jobs = insert_at job'.id job' q.jobs;
      })
