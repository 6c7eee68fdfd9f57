-- ===== src/Job/Queue/Active.antt =====
-- src/job/memory.rs: claims, leases and the changes of a single job.
use Prim.Native.String.{String}
use lane.Prelude.{
  ℕ, ◌+◌, ◌-◌, Bool, ◌&&◌, Option, none, some, List, [], ◌∷◌, ◌++◌, min, length, filter, drop, ltb,
  ◌==◌, if◌then◌else◌,
}
use lane.Prelude.Sort.{pop_first}
use lane.Error.{Result, ok, err, ◌>>◌, job_state_conflict, config_error}
use lane.Job.{
  Job, JobEnv, waiting, delayed, active, same_state, cannot, zero_delay, validate_job_priority,
  add_duration, JobLogEntry,
}
use lane.Job.Queue.{
  JobQueue, get, values, write, with_job, checked, emit, promote_due, compare_claim_order,
  not_after, require_active, require_lock_token, next_waiting_sequence,
}

abbrev pub kept_logs : ℕ → List JobLogEntry → List JobLogEntry
kept_logs keep logs =
    if ltb 0 keep && ltb keep (length logs) then drop (length logs - keep) logs else logs

module _ {F V : Type 0} where
  abbrev pub claims_before : Job F V → Job F V → Bool
  claims_before a b = not_after (compare_claim_order a b)

  abbrev pub is_waiting : Job F V → Bool
  is_waiting job = same_state job.state waiting

  -- `min_by(compare_claim_order)` over the waiting jobs, and its id.
  abbrev pub first_id : Option (Job F V × List (Job F V)) → Option String
  first_id none = none
  first_id (some (job, rest)) = some job.id

  unfoldable pub selected_id : JobQueue F V → Option String
  unfolding compare_claim_order pop_first
  selected_id q = first_id (pop_first claims_before (filter is_waiting (values q.jobs)))

  abbrev pub found_by : List (String × Job F V) → Option String → Option (String × Job F V)
  found_by jobs none = none
  found_by jobs (some id) = elim (get id jobs) [ none ↦ none | some job ↦ some (id, job) ]

  unfoldable pub set_data : String → V → JobQueue F V → Result (Job F V) × JobQueue F V
  set_data id payload q =
      with_job id q
        (λ job. let job' = record job { payload = payload } in (ok job', write id job' q))

  unfoldable pub set_progress : String → V → ℕ → JobQueue F V → Result (Job F V) × JobQueue F V
  unfolding emit
  set_progress id progress now q = with_job id q (λ job.
      let job' = record job { progress = some progress } in
      (
        ok job',
        emit "progress" (some job'.id) none now (("data", progress) ∷ []) (write id job' q),
      ))

  unfoldable pub save_stacktrace :
      String → List String → String → JobQueue F V → Result (Job F V) × JobQueue F V
  save_stacktrace id stacktrace reason q = with_job id q (λ job.
      let job' = record job { stacktrace = stacktrace; failed_reason = some reason } in
      (ok job', write id job' q))

  unfoldable pub log : String → String → ℕ → ℕ → JobQueue F V → Result (Job F V) × JobQueue F V
  log id line keep now q = with_job id q (λ job.
      let entry : JobLogEntry = record { timestamp = now; line = line } in
      let job' = record job { logs = kept_logs keep (job.logs ++ entry ∷ []) } in
      (ok job', write id job' q))

module _ (env : JobEnv) where
  open env use {F, V, text, timestamp_millis}

  abbrev pub leased : String → String → ℕ → ℕ → Job F V → Job F V
  leased worker_id token lease_for now job = record job {
    state = active;
    attempts_made = min (job.attempts_made + 1) 4294967295;
    processed_at = some now;
    worker_id = some worker_id;
    lock_token = some token;
    lease_expires_at = some (add_duration env now lease_for);
    failed_reason = none;
  }

  abbrev pub take :
      String
      → String
      → ℕ
      → ℕ
      → JobQueue F V
      → Option (String × Job F V)
      → Result (Option (Job F V)) × JobQueue F V
  take worker_id token lease_for now q none = (ok none, q)
  take worker_id token lease_for now q (some (id, job)) =
      let job' = leased worker_id token lease_for now job in
      (ok (some job'), emit "active" (some job'.id) (some waiting) now [] (write id job' q))

  -- `claim_next`; the lock token is a fresh UUID, the argument `token`.
  unfoldable pub claim_next :
      String → String → ℕ → ℕ → JobQueue F V → Result (Option (Job F V)) × JobQueue F V
  unfolding promote_due selected_id emit
  claim_next worker_id token lease_for now q =
      if q.paused
      then (ok none, q)
      else (let due = promote_due now q in
          take worker_id token lease_for now due (found_by due.jobs (selected_id due)))

  unfoldable pub renew : String → String → ℕ → ℕ → JobQueue F V → Result (Job F V) × JobQueue F V
  unfolding require_active require_lock_token
  renew id token lease_for now q = with_job id q (λ job.
      let job' = record job { lease_expires_at = some (add_duration env now lease_for) } in
      checked (require_active text job "renew lease" >> require_lock_token text job token) q
        (ok job', write id job' q))

  abbrev pub delayed_again : ℕ → ℕ → Job F V → Job F V
  delayed_again delay now job = record job {
    state = delayed;
    options = record job.options { delay = some delay };
    scheduled_at = add_duration env now delay;
    processed_at = none;
    worker_id = none;
    lock_token = none;
    lease_expires_at = none;
    deferred_failure = none;
    failed_reason = none;
  }

  unfoldable pub delay_active :
      String → String → ℕ → ℕ → JobQueue F V → Result (Job F V) × JobQueue F V
  unfolding require_active require_lock_token emit
  delay_active id token delay now q = with_job id q (λ job.
      let job' = delayed_again delay now job in
      checked (require_active text job "delay active" >> require_lock_token text job token) q (
        ok job',
        emit "delayed" (some job'.id) (some active) now
            (("delay", timestamp_millis job'.scheduled_at) ∷ []) (write id job' q),
      ))

  abbrev pub released : ℕ → Job F V → Job F V
  released now job = record job {
    state = waiting;
    scheduled_at = now;
    processed_at = none;
    worker_id = none;
    lock_token = none;
    lease_expires_at = none;
    deferred_failure = none;
    failed_reason = none;
    enqueued_seq = 0;
  }

  unfoldable pub release_active :
      String → String → ℕ → JobQueue F V → Result (Job F V) × JobQueue F V
  unfolding require_active require_lock_token emit
  release_active id token now q = with_job id q (λ job.
      let job' = released now job in
      checked (require_active text job "release active" >> require_lock_token text job token) q
        (ok job', emit "waiting" (some job'.id) (some active) now [] (write id job' q)))

  unfoldable pub promote : String → ℕ → JobQueue F V → Result (Job F V) × JobQueue F V
  unfolding next_waiting_sequence emit
  promote id now q = with_job id q (λ job.
      let sequence = next_waiting_sequence q.sequence in
      let job' = record job { state = waiting; scheduled_at = now; enqueued_seq = sequence } in
      if same_state job.state delayed
      then (
        ok job',
        emit "waiting" (some job'.id) (some delayed) now []
            (write id job' (record q { sequence = sequence })),
      )
      else (err (job_state_conflict (text (cannot "promote" job.id job.state))), q))

  unfoldable pub reschedule : String → ℕ → ℕ → JobQueue F V → Result (Job F V) × JobQueue F V
  unfolding emit
  reschedule id delay now q =
      if delay == 0
      then (err (config_error (text zero_delay)), q)
      else with_job id q (λ job.
        let job' = record job {
          options = record job.options { delay = some delay };
          scheduled_at = add_duration env now delay;
        } in
        if same_state job.state delayed
        then (
          ok job',
          emit "delayed" (some job'.id) none now
              (("delay", timestamp_millis job'.scheduled_at) ∷ []) (write id job' q),
        )
        else (err (job_state_conflict (text (cannot "reschedule" job.id job.state))), q))

  abbrev pub with_lifo : Option Bool → Job F V → Job F V
  with_lifo none job = job
  with_lifo (some lifo) job = record job { options = record job.options { lifo = lifo } }

  -- The new priority, and a new place among the waiting jobs for one that waits.
  unfoldable pub reordered : ℕ → Option Bool → Job F V → JobQueue F V → Job F V × ℕ
  unfolding next_waiting_sequence
  reordered priority lifo job q =
      let changed = record job {
        priority = priority;
        options = record job.options { priority = priority };
      } in
      let sequence = next_waiting_sequence q.sequence in
      if same_state job.state waiting
      then (with_lifo lifo (record changed { enqueued_seq = sequence }), sequence)
      else (with_lifo lifo changed, q.sequence)

  unfoldable pub set_priority_order :
      String → ℕ → Option Bool → JobQueue F V → Result (Job F V) × JobQueue F V
  unfolding reordered validate_job_priority
  set_priority_order id priority lifo q = checked (validate_job_priority text priority) q (
      with_job id q (λ job.
        let r = reordered priority lifo job q in
        (ok r.0, write id r.0 (record q { sequence = r.1 }))))
