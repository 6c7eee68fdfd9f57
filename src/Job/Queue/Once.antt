-- ===== src/Job/Queue/Once.antt =====
-- The lock token of a claim ends at most one attempt.
use Prim.Native.String.{String}
use text.Mathlib.Text.{◌==◌ as str_eq}
use lane.Prelude.{ℕ, ◌≡◌, refl, sym, subst, Bool, true, false, ◌&&◌, some, text_refl}
use lane.Error.{ok}
use lane.Job.{Job, JobEnv}
use lane.Job.Queue.{JobQueue, get, write, emit, is_token}
use lane.Job.Queue.Active.{renew, delay_active, release_active, delayed_again, released}
use lane.Job.Queue.Finish.{complete, completed_job, fail_active_job, failed_job, should_retry}
use lane.Job.Queue.Step.{Reach}
use lane.Job.Queue.Lease.{Lasting, reach-Sound}
use lane.Job.Queue.Kept.{Idle}
use lane.Job.Queue.Kept.Entries.{get-entry}
use lane.Job.Queue.Kept.Sound.{Stable, Entry, Any, Sound, Sound-Kept}
use lane.Job.Queue.Kept.Elsewhere.{write-Sound}
use lane.Job.Queue.Kept.Finish.{completed-kept, failed-kept, failed_job-Idle}
use lane.Job.Queue.Guards.{
  Refused, with_job-ended, checked-ended, with_job-Refused, guards-Refused, more_guards-Refused,
}

module _ {F V : Type 0} where
  -- The token does not hold the job with the id.
  abbrev pub NotHeld : String → String → Job F V → Type 0
  NotHeld id token job = str_eq job.id id ≡ true → is_token job.lock_token token ≡ false

  NotHeld-Stable : (id token : String) → Stable (NotHeld id token)
  NotHeld-Stable id token = record {
    same = λ old job s p e.
        subst (λ o. is_token o token ≡ false) (sym s.token)
          (p (subst (λ i. str_eq i id ≡ true) s.id e));
    quieted = λ old job s p e.
        subst (λ o. is_token o token ≡ false) (sym s.token)
          (p (subst (λ i. str_eq i id ≡ true) s.id e));
    idle = λ job i e. subst (λ o. is_token o token ≡ false) (sym i.token) refl;
  }

  write-NotHeld :
      (id token : String) (old job : Job F V) (q : JobQueue F V)
      → get id q.jobs ≡ some old
      → job.id ≡ old.id
      → Idle job
      → Sound Any q.jobs
      → Sound (NotHeld id token) (write id job q).jobs
  write-NotHeld id token old job q g e i v =
      write-Sound Any (NotHeld id token) id old job q.jobs (NotHeld-Stable id token) (λ j f u t. cc)
        g e i v

module _ (env : JobEnv) (id token : String) where
  open env use {F, V, text}

  -- The operations that end an attempt with the token, where they succeed.
  pub data Ends (q : JobQueue F V) : JobQueue F V → Type 0 where
    completes :
        (uuid : String) (value : V) (now : ℕ) (job : Job F V)
        → (complete env uuid id token value now q).0 ≡ ok job
        → Ends q (complete env uuid id token value now q).1
    fails :
        (error : String) (now : ℕ) (allow_retry : Bool) (job : Job F V)
        → (fail_active_job env id token error now allow_retry q).0 ≡ ok job
        → Ends q (fail_active_job env id token error now allow_retry q).1
    delays :
        (delay now : ℕ) (job : Job F V)
        → (delay_active env id token delay now q).0 ≡ ok job
        → Ends q (delay_active env id token delay now q).1
    releases :
        (now : ℕ) (job : Job F V)
        → (release_active env id token now q).0 ≡ ok job
        → Ends q (release_active env id token now q).1

  Ends-NotHeld :
      {q r : JobQueue F V} → Ends q r → Sound Any q.jobs → Sound (NotHeld id token) r.jobs
  unfolding complete fail_active_job delay_active release_active emit
  Ends-NotHeld {q} (completes uuid value now j e) v =
      with_job-ended (λ r. Sound (NotHeld id token) r.jobs) id q _ j
        (λ job g.
          checked-ended (λ r. Sound (NotHeld id token) r.jobs) _ q _ j
            (completed-kept env (Sound (NotHeld id token))
              (Sound-Kept (NotHeld id token) (NotHeld-Stable id token)) uuid id value now
              (completed_job env value now job) q
              (write-NotHeld id token job (completed_job env value now job) q g refl
                (record { inactive = refl; token = refl; lease = refl; worker = refl }) v)))
        e
  Ends-NotHeld {q} (fails error now allow_retry j e) v =
      with_job-ended (λ r. Sound (NotHeld id token) r.jobs) id q _ j
        (λ job g.
          let retries = allow_retry && should_retry job in
          let done = failed_job env retries error now job in
          checked-ended (λ r. Sound (NotHeld id token) r.jobs) _ q _ j
            (failed-kept env (Sound (NotHeld id token))
              (Sound-Kept (NotHeld id token) (NotHeld-Stable id token)) retries id error now done q
              (write-NotHeld id token job done q g refl (failed_job-Idle env retries error now job)
                v)))
        e
  Ends-NotHeld {q} (delays delay now j e) v =
      with_job-ended (λ r. Sound (NotHeld id token) r.jobs) id q _ j
        (λ job g.
          checked-ended (λ r. Sound (NotHeld id token) r.jobs) _ q _ j
            (write-NotHeld id token job (delayed_again env delay now job) q g refl
              (record { inactive = refl; token = refl; lease = refl; worker = refl }) v))
        e
  Ends-NotHeld {q} (releases now j e) v =
      with_job-ended (λ r. Sound (NotHeld id token) r.jobs) id q _ j
        (λ job g.
          checked-ended (λ r. Sound (NotHeld id token) r.jobs) _ q _ j
            (write-NotHeld id token job (released env now job) q g refl
              (record { inactive = refl; token = refl; lease = refl; worker = refl }) v))
        e

  abbrev pub OtherToken : String → Type 0
  OtherToken issued = str_eq issued token ≡ false

  NotHeld-Lasting : Lasting env (NotHeld id token) OtherToken
  NotHeld-Lasting = record {
    stable = NotHeld-Stable id token;
    claim = λ worker issued lease_for now job allowed p e. allowed;
    renewal = λ at job p. p;
  }

  not_held :
      (q : JobQueue F V) (job : Job F V)
      → Sound (NotHeld id token) q.jobs
      → get id q.jobs ≡ some job
      → is_token job.lock_token token ≡ false
  not_held q job v g =
      let entry = get-entry (Entry (NotHeld id token)) id q.jobs job g v.entries in
      entry.also (subst (λ u. str_eq u id ≡ true) entry.key (text_refl id))

  -- In a sound queue, an attempt on a job ends at most once: after `complete`, `fail`, `delay_active`
  -- or `release_active` with its lock token has succeeded, and after any further operations in which
  -- no claim issues that token again, each of them, and a renewal, returns an error for that job and
  -- token and leaves the queue as it was.
  pub finalized_once :
      {q r s : JobQueue F V}
      → Sound Any q.jobs
      → Ends q r
      → Reach env OtherToken r s
      → (uuid error : String) (value : V) (duration now : ℕ) (allow_retry : Bool)
      → Refused (complete env uuid id token value now s) s
        × Refused (fail_active_job env id token error now allow_retry s) s
        × Refused (delay_active env id token duration now s) s
        × Refused (release_active env id token now s) s
        × Refused (renew env id token duration now s) s
  unfolding complete fail_active_job delay_active release_active renew
  finalized_once {s = s} v end run uuid error value duration now allow_retry =
      let w =
        reach-Sound env (NotHeld id token) OtherToken NotHeld-Lasting run (Ends-NotHeld end v) in
      (
        with_job-Refused id s _
            (λ job g. more_guards-Refused text "complete" token job _ s _ (not_held s job w g)),
        with_job-Refused id s _
            (λ job g. guards-Refused text "fail" token job s _ (not_held s job w g)),
        with_job-Refused id s _
            (λ job g. guards-Refused text "delay active" token job s _ (not_held s job w g)),
        with_job-Refused id s _
            (λ job g. guards-Refused text "release active" token job s _ (not_held s job w g)),
        with_job-Refused id s _
            (λ job g. guards-Refused text "renew lease" token job s _ (not_held s job w g)),
      )
