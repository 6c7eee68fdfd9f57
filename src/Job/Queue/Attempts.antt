-- ===== src/Job/Queue/Attempts.antt =====
-- What a failed attempt does to its job.
use Prim.Native.String.{String}
use lane.Prelude.{none, ltb, leb, Bool-cases, inl, inr, ℕ, ◌≡◌, refl, Bool, true, false, ◌&&◌, some}
use lane.Error.{ok}
use lane.Retry.{delay_for_attempt}
use lane.Job.{Job, JobEnv, active, delayed, failed, same_state}
use lane.Job.Later.{IsLater, add_duration-IsLater}
use lane.Job.Queue.{JobQueue, get, emit, is_token, require_active, require_lock_token}
use lane.Job.Queue.Finish.{fail_active_job, failed_job, should_retry, retries_exhausted}
use lane.Job.Queue.Flow.Gate.{get-put_same}

module _ (env : JobEnv) where
  open env use {F, V}

  -- A job that will be tried again: delayed, by the policy's delay for the attempt.
  pub record IsRetried (now : ℕ) (job r : Job F V) : Type 0 where
    pub waits : r.state ≡ delayed
    pub again :
        IsLater env now
          (delay_for_attempt env.float job.options.retry_policy job.attempts_made)
          r.scheduled_at
    pub not_finished : r.finished_at ≡ none

  -- A job that has failed for good.
  pub record IsFailed (now : ℕ) (job r : Job F V) : Type 0 where
    pub ended : r.state ≡ failed
    pub same_time : r.scheduled_at ≡ job.scheduled_at
    pub finished : r.finished_at ≡ some now

  -- What a failure makes of a job, either way: the reason is noted and the lease is gone.
  pub record IsReleased (error : String) (job r : Job F V) : Type 0 where
    pub id : r.id ≡ job.id
    pub attempts : r.attempts_made ≡ job.attempts_made
    pub reason : r.failed_reason ≡ some error
    pub worker : r.worker_id ≡ none
    pub token : r.lock_token ≡ none
    pub lease : r.lease_expires_at ≡ none

  -- The end of an attempt on the job `id`, by whether it is tried again.
  abbrev pub Ended :
      (retries : Bool) (id : String) (now : ℕ) (job r : Job F V) → JobQueue F V → Type 0
  Ended true id now job r q = IsRetried now job r × (get id q.jobs ≡ some r)
  Ended false id now job r q = IsFailed now job r

  failed_job-IsReleased :
      (retries : Bool) (error : String) (now : ℕ) (job : Job F V)
      → IsReleased error job (failed_job env retries error now job)
  failed_job-IsReleased retries error now job = record {
    id = refl;
    attempts = refl;
    reason = refl;
    worker = refl;
    token = refl;
    lease = refl;
  }

  failed_job-IsRetried :
      (error : String) (now : ℕ) (job : Job F V)
      → IsRetried now job (failed_job env true error now job)
  failed_job-IsRetried error now job = record {
    waits = refl;
    again =
        add_duration-IsLater env now
          (delay_for_attempt env.float job.options.retry_policy job.attempts_made);
    not_finished = refl;
  }

  -- A failure of an active job by the holder of its lock token returns the job, with the reason and
  -- without a lease. If a retry is allowed, the policy has retries and the attempts are at most
  -- their number, the job is delayed by the policy's delay for the attempt, counted from now, or
  -- due at once where the calendar cannot express that time, and the queue holds it so. In every
  -- other case the job has failed, now.
  pub fail_retries :
      (id token error : String) (now : ℕ) (allow_retry : Bool) (q : JobQueue F V) (job : Job F V)
      → get id q.jobs ≡ some job
      → same_state job.state active ≡ true
      → is_token job.lock_token token ≡ true
      → let done = fail_active_job env id token error now allow_retry q in
        let max = job.options.retry_policy.max_retries in
        (r : Job F V) × (done.0 ≡ ok r)
        × IsReleased error job r
        × Ended (allow_retry && (ltb 0 max && leb job.attempts_made max)) id now job r done.1
  unfolding fail_active_job require_active require_lock_token should_retry retries_exhausted emit
  fail_retries id token error now allow_retry q job e a t =
      let max = job.options.retry_policy.max_retries in
      elim (Bool-cases (allow_retry && (ltb 0 max && leb job.attempts_made max))) [
        | inl c ↦
            let r = failed_job env true error now job in
            rw (e, a, t, c)
              (
                r,
                refl,
                failed_job-IsReleased true error now job,
                (failed_job-IsRetried error now job, get-put_same id job r q.jobs e),
              )
        | inr c ↦
            rw (e, a, t, c)
              (
                failed_job env false error now job,
                refl,
                failed_job-IsReleased false error now job,
                record { ended = refl; same_time = refl; finished = refl },
              )
      ]
