-- ===== src/Job/Queue/Kept.antt =====
-- The ways in which the operations of the queue change its map of jobs, and properties of the map
-- that outlast each of them.
pub mod Parents
pub mod Next
pub mod Entries
pub mod Sound
pub mod Elsewhere
pub mod Finish
pub mod Active
pub mod Remove
pub mod Add
pub mod Stalled
pub mod Repeats
use Prim.Native.String.{String}
use lane.Prelude.{
  ℕ, ◌≡◌, refl, Bool, true, false, Option, none, some, List, [], ◌∷◌, if◌then◌else◌, insert_at,
  erase, All,
}
use lane.Error.{Result, ok, err}
use lane.Job.{Job, JobEnv, JobState, active, same_state, JobRetention, subtract_duration}
use lane.Job.Queue.{JobQueue, get, put, with_job, found, checked, emit}
use lane.Job.Queue.Records.{
  remove_found, remove_job_record, remove_all, retain_count, expire, apply_finished_retention,
  retire, placed, insert_job, emit_job_created_events, emit_drained_event_if_needed,
  forget_released_deduplication_owner, expired_ids, surplus_ids, or_thousand,
}

abbrev pub Jobs : Type 0 → Type 0 → Type 0
Jobs F V = List (String × Job F V)

module _ {F V : Type 0} where
  -- A job that nobody holds.
  pub record Idle (job : Job F V) : Type 0 where
    pub inactive : same_state job.state active ≡ false
    pub token : job.lock_token ≡ none
    pub lease : job.lease_expires_at ≡ none
    pub worker : job.worker_id ≡ none

  -- The same job as far as its id, its state and its lease go.
  pub record Same (old job : Job F V) : Type 0 where
    pub id : job.id ≡ old.id
    pub state : job.state ≡ old.state
    pub token : job.lock_token ≡ old.lock_token
    pub lease : job.lease_expires_at ≡ old.lease_expires_at
    pub worker : job.worker_id ≡ old.worker_id

  -- A job that is active neither before nor after.
  pub record Quieted (old job : Job F V) : Type 0 where
    pub id : job.id ≡ old.id
    pub before : same_state old.state active ≡ false
    pub after : same_state job.state active ≡ false
    pub token : job.lock_token ≡ old.lock_token
    pub lease : job.lease_expires_at ≡ old.lease_expires_at
    pub worker : job.worker_id ≡ old.worker_id

  -- Each job is found under its own id.
  abbrev pub Keyed : Jobs F V → Type 0
  Keyed jobs = All (λ r. get r.1.id jobs ≡ some r.1) jobs

  pub record Kept (I : Jobs F V → Type 0) : Type 0 where
    pub keyed : (jobs : Jobs F V) → I jobs → Keyed jobs
    pub same :
        (id : String) (old job : Job F V) (jobs : Jobs F V)
        → get id jobs ≡ some old
        → Same old job
        → I jobs
        → I (put id job jobs)
    pub quieted :
        (id : String) (old job : Job F V) (jobs : Jobs F V)
        → get id jobs ≡ some old
        → Quieted old job
        → I jobs
        → I (put id job jobs)
    pub idled :
        (id : String) (old job : Job F V) (jobs : Jobs F V)
        → get id jobs ≡ some old
        → job.id ≡ old.id
        → Idle job
        → I jobs
        → I (put id job jobs)
    pub inserted :
        (job : Job F V) (jobs : Jobs F V) → Idle job → I jobs → I (insert_at job.id job jobs)
    pub erased : (id : String) (jobs : Jobs F V) → I jobs → I (erase id jobs)

module _ {F V : Type 0} (I : Jobs F V → Type 0) where
  pub if-kept : (b : Bool) (x y : JobQueue F V) → I x.jobs → I y.jobs → I (if b then x else y).jobs
  if-kept true x y v w = v
  if-kept false x y v w = w

  pub result_if-kept {ℓ} :
      {A : Type ℓ} (b : Bool) (x y : A × JobQueue F V)
      → I x.1.jobs
      → I y.1.jobs
      → I (if b then x else y).1.jobs
  result_if-kept true x y v w = v
  result_if-kept false x y v w = w

  pub checked-kept :
      (g : Result (Unit {0})) (q : JobQueue F V) (done : Result (Job F V) × JobQueue F V)
      → I q.jobs
      → I done.1.jobs
      → I (checked g q done).1.jobs
  checked-kept (err e) q done v k = v
  checked-kept (ok x) q done v k = k

  found-kept :
      (id : String) (q : JobQueue F V) (k : Job F V → Result (Job F V) × JobQueue F V)
      (o : Option (Job F V))
      → I q.jobs
      → ((job : Job F V) → o ≡ some job → I (k job).1.jobs)
      → I (found id q k o).1.jobs
  found-kept id q k none v h = v
  found-kept id q k (some job) v h = h job refl

  pub with_job-kept :
      (id : String) (q : JobQueue F V) (k : Job F V → Result (Job F V) × JobQueue F V)
      → I q.jobs
      → ((job : Job F V) → get id q.jobs ≡ some job → I (k job).1.jobs)
      → I (with_job id q k).1.jobs
  with_job-kept id q k v h = found-kept id q k (get id q.jobs) v h

module _ {F V : Type 0} (I : Jobs F V → Type 0) (kept : Kept I) where
  remove_found-kept :
      (id : String) (q : JobQueue F V) (o : Option (Job F V))
      → I q.jobs
      → I (remove_found id q o).1.jobs
  unfolding forget_released_deduplication_owner
  remove_found-kept id q none v = v
  remove_found-kept id q (some job) v = kept.erased id q.jobs v

  pub remove_job_record-kept :
      (id : String) (q : JobQueue F V) → I q.jobs → I (remove_job_record id q).1.jobs
  unfolding remove_job_record
  remove_job_record-kept id q v = remove_found-kept id q (get id q.jobs) v

  pub remove_all-kept :
      (ids : List String) (q : JobQueue F V) → I q.jobs → I (remove_all ids q).jobs
  remove_all-kept [] q v = v
  remove_all-kept (id ∷ ids) q v =
      remove_all-kept ids (remove_job_record id q).1 (remove_job_record-kept id q v)

  retain_count-kept :
      (state : JobState) (o : Option ℕ) (q : JobQueue F V)
      → I q.jobs
      → I (retain_count state o q).jobs
  retain_count-kept state none q v = v
  retain_count-kept state (some count) q v = remove_all-kept (surplus_ids state count q.jobs) q v

  pub emit_drained-kept :
      (now : ℕ) (q : JobQueue F V) → I q.jobs → I (emit_drained_event_if_needed now q).jobs
  unfolding emit_drained_event_if_needed emit
  emit_drained-kept now q v = if-kept I _ _ q v v

module _ (env : JobEnv) (I : Jobs env.F env.V → Type 0) (kept : Kept I) where
  open env use {F, V}

  expire-kept :
      (state : JobState) (r : JobRetention) (now : ℕ) (o : Option ℕ) (q : JobQueue F V)
      → I q.jobs
      → I (expire env state r now o q).jobs
  expire-kept state r now none q v = v
  expire-kept state r now (some age) q v =
      remove_all-kept I kept
        (expired_ids state (subtract_duration env now age) (or_thousand r.limit) q.jobs) q v

  pub apply_finished_retention-kept :
      (state : JobState) (r : JobRetention) (now : ℕ) (q : JobQueue F V)
      → I q.jobs
      → I (apply_finished_retention env state r now q).jobs
  unfolding apply_finished_retention
  apply_finished_retention-kept state r now q v =
      retain_count-kept I kept state r.count _ (expire-kept state r now r.age q v)

  pub retire-kept :
      (b : Bool) (o : Option JobRetention) (state : JobState) (id : String) (now : ℕ)
      (q : JobQueue F V)
      → I q.jobs
      → I (retire env b o state id now q).jobs
  retire-kept true o state id now q v = remove_job_record-kept I kept id q v
  retire-kept false none state id now q v = v
  retire-kept false (some r) state id now q v = apply_finished_retention-kept state r now q v

  pub insert_job-kept :
      (job : Job F V) (now : ℕ) (q : JobQueue F V)
      → Idle job
      → I q.jobs
      → I (insert_job env job now q).jobs
  unfolding insert_job emit_job_created_events emit forget_released_deduplication_owner
  insert_job-kept job now q i v =
      kept.inserted (placed q.sequence job) q.jobs
        (record { inactive = i.inactive; token = i.token; lease = i.lease; worker = i.worker }) v
