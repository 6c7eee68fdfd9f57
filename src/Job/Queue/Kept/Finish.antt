-- ===== src/Job/Queue/Kept/Finish.antt =====
-- The end of an attempt keeps each `Kept` property of the map.
use Prim.Native.String.{String}
use lane.Prelude.{
  ℕ, ◌+◌, refl, arith, Bool, true, false, Option, none, some, [], ◌∷◌, if◌then◌else◌, ◌&&◌,
}
use lane.Error.{Result, ok, err}
use lane.Job.{Job, JobEnv, active, new, RepeatOptions, child_failed}
use lane.Job.Queue.{JobQueue, write, emit, job_event_for_state, min}
use lane.Job.Queue.Dedup.{limit_reached}
use lane.Job.Queue.Finish.{
  next_occurrence, occurrence_at, next_of, next_repeat_job, record_in_parent, release_parent,
  emit_completed, add_occurrence, after_next, completed_job, complete, failed_job, fail_parent,
  failed_in, emit_failed, fail_active_job, should_retry, ends_before, emit_exhausted,
  retries_exhausted, completed_in,
}
use lane.Job.Queue.Kept.{
  Jobs, Kept, Idle, if-kept, checked-kept, with_job-kept, retire-kept, insert_job-kept,
  emit_drained-kept,
}
use lane.Job.Queue.Kept.Parents.{
  after_inactive, record_terminal-kept, release_parent-kept, defer_parent-kept,
  continue_parent-kept, fail_waiting_parent-kept,
}
use lane.Job.Queue.Dedup.Next.{enqueue_next}
use lane.Job.Queue.Kept.Next.{enqueue_next-kept}

module _ (env : JobEnv) where
  open env use {F, V}

  -- Where an occurrence is made, nobody holds it.
  abbrev pub IdleNext : Result (Option (Job F V)) → Type 0
  IdleNext (ok (some job)) = Idle job
  IdleNext _ = Unit

  occurrence_at-Idle :
      (uuid : String) (job : Job F V) (r : RepeatOptions) (count now : ℕ) (o : Result (Option ℕ))
      → IdleNext (occurrence_at env uuid job r count now o)
  unfolding new
  occurrence_at-Idle uuid job r count now (err e) = tt
  occurrence_at-Idle uuid job r count now (ok none) = tt
  occurrence_at-Idle uuid job r count now (ok (some time)) = made (ends_before r.end_at time)
    where
      made :
          (b : Bool)
          → IdleNext
              (if b then ok none else ok (some (next_occurrence env uuid job count time now)))
      made true = tt
      made false = record {
        inactive = after_inactive time now;
        token = refl;
        lease = refl;
        worker = refl;
      }

  either-Idle :
      (b : Bool) (x y : Result (Option (Job F V)))
      → IdleNext x
      → IdleNext y
      → IdleNext (if b then x else y)
  either-Idle true x y i j = i
  either-Idle false x y i j = j

  next_of-Idle :
      (uuid : String) (job : Job F V) (now : ℕ) (o : Option RepeatOptions)
      → IdleNext (next_of env uuid job now o)
  next_of-Idle uuid job now none = tt
  next_of-Idle uuid job now (some r) =
      either-Idle (limit_reached (some r) (min (job.repeat_count + 1) 4294967295)) (ok none) _ tt
        (occurrence_at-Idle uuid job r _ now _)

  pub next_repeat_job-Idle :
      (uuid : String) (job : Job F V) (now : ℕ) → IdleNext (next_repeat_job env uuid job now)
  unfolding next_repeat_job
  next_repeat_job-Idle uuid job now = next_of-Idle uuid job now job.options.repeat

  pub failed_job-Idle :
      (b : Bool) (error : String) (now : ℕ) (job : Job F V) → Idle (failed_job env b error now job)
  failed_job-Idle true error now job = record {
    inactive = refl;
    token = refl;
    lease = refl;
    worker = refl;
  }
  failed_job-Idle false error now job = record {
    inactive = refl;
    token = refl;
    lease = refl;
    worker = refl;
  }

module _ (env : JobEnv) (I : Jobs env.F env.V → Type 0) (kept : Kept I) where
  open env use {F, V, text, string}

  pub record_in_parent-kept :
      (o : Option String) (child : Job F V) (q : JobQueue F V)
      → I q.jobs
      → I (record_in_parent env o child q).jobs
  record_in_parent-kept none child q v = v
  record_in_parent-kept (some parent) child q v = record_terminal-kept env I parent child q v

  pub release-kept :
      (o : Option String) (now : ℕ) (q : JobQueue F V)
      → I q.jobs
      → I (release_parent env o now q).jobs
  release-kept none now q v = v
  release-kept (some parent) now q v = release_parent-kept env I kept parent now q v

  emit_completed-kept :
      (job : Job F V) (value : V) (now : ℕ) (q : JobQueue F V)
      → I q.jobs
      → I (emit_completed env job value now q).jobs
  unfolding emit
  emit_completed-kept job value now q v =
      emit_drained-kept I kept now _ (release-kept job.parent_id now q v)

  add_occurrence-kept :
      (job : Job F V) (value : V) (now : ℕ) (o : Result (Option (Job F V))) (q : JobQueue F V)
      → IdleNext env o
      → I q.jobs
      → I (add_occurrence env job value now o q).1.jobs
  add_occurrence-kept job value now (err e) q i v = v
  add_occurrence-kept job value now (ok none) q i v = emit_completed-kept job value now q v
  add_occurrence-kept job value now (ok (some next)) q i v =
      emit_completed-kept job value now _ (insert_job-kept env I kept next now q i v)

  after_next-kept :
      (uuid : String) (job : Job F V) (value : V) (now : ℕ) (r : Bool × JobQueue F V)
      → I r.1.jobs
      → I (after_next env uuid job value now r).1.jobs
  after_next-kept uuid job value now (true, q) v = emit_completed-kept job value now q v
  after_next-kept uuid job value now (false, q) v =
      add_occurrence-kept job value now _ q (next_repeat_job-Idle env uuid job now) v

  -- What follows the write of the completed job.
  pub completed-kept :
      (uuid id : String) (value : V) (now : ℕ) (job : Job F V) (q : JobQueue F V)
      → I (write id job q).jobs
      → I
          (after_next env uuid job value now
            (enqueue_next env job now (completed_in env id job now q))).1.jobs
  completed-kept uuid id value now job q w = after_next-kept uuid job value now _ (
      enqueue_next-kept env I kept job now _
        (retire-kept env I kept _ _ _ id now _ (record_in_parent-kept job.parent_id job _ w)))

  pub complete-kept :
      (uuid id token : String) (value : V) (now : ℕ) (q : JobQueue F V)
      → I q.jobs
      → I (complete env uuid id token value now q).1.jobs
  unfolding complete
  complete-kept uuid id token value now q v = with_job-kept I id q _ v (λ job e.
      let done = completed_job env value now job in
      checked-kept I _ q _ v (
        completed-kept uuid id value now done q (
          kept.idled id job done q.jobs e refl
            (record { inactive = refl; token = refl; lease = refl; worker = refl }) v)))

  pub fail_parent-kept :
      (o : Option String) (job : Job F V) (now : ℕ) (q : JobQueue F V)
      → I q.jobs
      → I (fail_parent env o job now q).jobs
  fail_parent-kept none job now q v = v
  fail_parent-kept (some parent) job now q v = ground (
    arith,
    defer_parent-kept env I kept parent job.id now q v,
    continue_parent-kept I kept parent now q v,
    release_parent-kept env I kept parent now q v,
    fail_waiting_parent-kept env I kept parent (text (child_failed job.id job.failed_reason)) now q
        v,
  )

  failed_in-kept :
      (id : String) (job : Job F V) (now : ℕ) (q : JobQueue F V)
      → I q.jobs
      → I (failed_in env id job now q).jobs
  failed_in-kept id job now q v = fail_parent-kept job.parent_id job now _ (
      enqueue_next-kept env I kept job now _
        (retire-kept env I kept _ _ _ id now _ (record_in_parent-kept job.parent_id job q v)))

  emit_exhausted-kept :
      (job : Job F V) (now : ℕ) (q : JobQueue F V)
      → I q.jobs
      → I (emit_exhausted env job now q).jobs
  unfolding emit
  emit_exhausted-kept job now q v = if-kept I (retries_exhausted job) _ q v v

  emit_failed-kept :
      (b : Bool) (job : Job F V) (error : String) (now : ℕ) (q : JobQueue F V)
      → I q.jobs
      → I (emit_failed env b job error now q).jobs
  unfolding emit
  emit_failed-kept b job error now q v =
      let w =
        emit_exhausted-kept job now
          (emit (job_event_for_state job.state) (some job.id) (some active) now
            (("failedReason", string error) ∷ []) q)
          v in
      if-kept I b _ _ w (emit_drained-kept I kept now _ w)

  -- What follows the write of the failed job.
  pub failed-kept :
      (retries : Bool) (id error : String) (now : ℕ) (job : Job F V) (q : JobQueue F V)
      → I (write id job q).jobs
      → I
          (emit_failed env retries job error now
            (if retries then write id job q else failed_in env id job now (write id job q))).jobs
  failed-kept retries id error now job q w =
      emit_failed-kept retries job error now _
        (if-kept I retries (write id job q) _ w (failed_in-kept id job now (write id job q) w))

  pub fail_active_job-kept :
      (id token error : String) (now : ℕ) (allow_retry : Bool) (q : JobQueue F V)
      → I q.jobs
      → I (fail_active_job env id token error now allow_retry q).1.jobs
  unfolding fail_active_job
  fail_active_job-kept id token error now allow_retry q v = with_job-kept I id q _ v (λ job e.
      let retries = allow_retry && should_retry job in
      let job' = failed_job env retries error now job in
      checked-kept I _ q _ v (
        failed-kept retries id error now job' q
          (kept.idled id job job' q.jobs e refl (failed_job-Idle env retries error now job) v)))
