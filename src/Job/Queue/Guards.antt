-- ===== src/Job/Queue/Guards.antt =====
-- src/job/memory.rs: what the guards on the state and the lock token of a job refuse.
use Prim.Native.String.{String}
use lane.Prelude.{ℕ, ◌≡◌, refl, Bool, true, false, Option, none, some, Bool-cases, inl, inr}
use lane.Error.{LaneError, job_lease_conflict, Result, ok, err, ◌>>◌}
use lane.Job.{not_owner, Message, Job, JobEnv, active, same_state}
use lane.Job.Queue.{
  JobQueue, get, with_job, found, checked, is_token, require_active, require_lock_token,
}
use lane.Job.Queue.Active.{renew, delay_active, release_active}
use lane.Job.Queue.Finish.{complete, fail_active_job}

module _ {F V : Type 0} where
  pub with_job-ended :
      (R : JobQueue F V → Type 0) (id : String) (q : JobQueue F V)
      (k : Job F V → Result (Job F V) × JobQueue F V) (j : Job F V)
      → ((job : Job F V) → get id q.jobs ≡ some job → (k job).0 ≡ ok j → R (k job).1)
      → (with_job id q k).0 ≡ ok j
      → R (with_job id q k).1
  with_job-ended R id q k j h e = found-ended (get id q.jobs) refl e
    where
      found-ended :
          (o : Option (Job F V))
          → get id q.jobs ≡ o
          → (found id q k o).0 ≡ ok j
          → R (found id q k o).1
      found-ended none g e = cc
      found-ended (some job) g e = h job g e

  pub checked-ended :
      (R : JobQueue F V → Type 0) (g : Result (Unit {0})) (q : JobQueue F V)
      (done : Result (Job F V) × JobQueue F V) (j : Job F V)
      → R done.1
      → (checked g q done).0 ≡ ok j
      → R (checked g q done).1
  checked-ended R (err problem) q done j h e = cc
  checked-ended R (ok u) q done j h e = h

  -- The operation returns an error and leaves the queue as it was.
  abbrev pub Refused : Result (Job F V) × JobQueue F V → JobQueue F V → Type 0
  Refused done q = (e : LaneError) × (done ≡ (err e, q))

  pub with_job-Refused :
      (id : String) (q : JobQueue F V) (k : Job F V → Result (Job F V) × JobQueue F V)
      → ((job : Job F V) → get id q.jobs ≡ some job → Refused (k job) q)
      → Refused (with_job id q k) q
  with_job-Refused id q k h = found-refused (get id q.jobs) refl
    where
      found-refused : (o : Option (Job F V)) → get id q.jobs ≡ o → Refused (found id q k o) q
      found-refused none g = (_, refl)
      found-refused (some job) g = h job g

  pub guards-Refused :
      (text : Message → String) (action token : String) (job : Job F V) (q : JobQueue F V)
      (done : Result (Job F V) × JobQueue F V)
      → is_token job.lock_token token ≡ false
      → Refused
          (checked (require_active text job action >> require_lock_token text job token) q done)
          q
  unfolding require_active require_lock_token
  guards-Refused text action token job q done f = elim (Bool-cases (same_state job.state active)) [
    | inl t ↦ rw (t, f) (_, refl)
    | inr t ↦ rw t (_, refl)
  ]

  pub more_guards-Refused :
      (text : Message → String) (action token : String) (job : Job F V) (g : Result (Unit {0}))
      (q : JobQueue F V) (done : Result (Job F V) × JobQueue F V)
      → is_token job.lock_token token ≡ false
      → Refused
          (checked
            (require_active text job action >> require_lock_token text job token >> g)
            q
            done)
          q
  unfolding require_active require_lock_token
  more_guards-Refused text action token job g q done f =
      elim (Bool-cases (same_state job.state active)) [
        | inl t ↦ rw (t, f) (_, refl)
        | inr t ↦ rw t (_, refl)
      ]

module _ (env : JobEnv) where
  open env use {F, V, text}

  -- Whoever does not hold the lock token of an active job cannot complete it, fail it, delay it,
  -- release it or renew its lease: each call returns the lease conflict and leaves the queue as it
  -- was.
  pub wrong_token :
      (uuid id token error : String) (value : V) (duration now : ℕ) (allow_retry : Bool)
      (q : JobQueue F V) (job : Job F V)
      → get id q.jobs ≡ some job
      → same_state job.state active ≡ true
      → is_token job.lock_token token ≡ false
      → let refused : Result (Job F V) × JobQueue F V =
          (err (job_lease_conflict (text (not_owner job.id))), q) in
        (complete env uuid id token value now q ≡ refused)
        × (fail_active_job env id token error now allow_retry q ≡ refused)
        × (delay_active env id token duration now q ≡ refused)
        × (release_active env id token now q ≡ refused)
        × (renew env id token duration now q ≡ refused)
  unfolding complete fail_active_job renew delay_active release_active
  wrong_token uuid id token error value duration now allow_retry q job e a t = (
    rw (e, a, t) refl,
    rw (e, a, t) refl,
    rw (e, a, t) refl,
    rw (e, a, t) refl,
    rw (e, a, t) refl,
  )
