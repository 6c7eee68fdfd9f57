-- ===== src/Job/Queue/Lease.antt =====
-- Which jobs hold a lease: every operation keeps the map of jobs sound.
use Prim.Native.String.{String}
use lane.Prelude.{ℕ, ◌≡◌, refl, sym, ap, subst, true, Option, none, some, inl, inr, Bool-cases}
use lane.Error.{Result, ok, ◌>>◌}
use lane.Job.{Job, JobEnv, active, same_state, add_duration}
use lane.Job.Queue.{
  JobQueue, get, checked, emit, promote_due, require_active, require_lock_token, pause, resume,
}
use lane.Job.Queue.Active.{claim_next, take, leased, found_by, selected_id, renew}
use lane.Job.Queue.Step.{
  Step, Issues, Reach, here, next, claims, renews, completes, fails, delays, releases, recovers,
  adds, adds_many, upserts, removes_repeat, removes, removes_children, removes_dependency,
  removes_key, retries, cleans, drains, obliterates, promotes, promotes_due, reschedules, reorders,
  sets_data, progresses, traces, logs_line, pauses, resumes,
}
use lane.Job.Queue.Kept.{Jobs, result_if-kept, with_job-kept, checked-kept}
use lane.Job.Queue.Kept.Sound.{Stable, Sound, Sound-Kept, put-Sound}
use lane.Job.Queue.Kept.Active.{
  promote_due-kept, set_data-kept, set_progress-kept, save_stacktrace-kept, log-kept,
  delay_active-kept, release_active-kept, promote-kept, reschedule-kept, set_priority_order-kept,
}
use lane.Job.Queue.Kept.Finish.{complete-kept, fail_active_job-kept}
use lane.Job.Queue.Kept.Remove.{
  obliterate-kept, remove_deduplication_key-kept, remove-kept, clean-kept, drain-kept,
  remove_unprocessed_children-kept, remove_child_dependency-kept, retry-kept,
}
use lane.Job.Queue.Kept.Add.{add-kept, add_many-kept}
use lane.Job.Queue.Kept.Repeats.{upsert_repeat-kept, remove_repeat-kept}
use lane.Job.Queue.Kept.Stalled.{recover_stalled_jobs-kept}

module _ {F V : Type 0} (jobs : Jobs F V) where
  found_by-get :
      (o : Option String) (id : String) (job : Job F V)
      → found_by jobs o ≡ some (id, job)
      → get id jobs ≡ some job
  found_by-get none id job e = cc
  found_by-get (some x) id job e = at_id (get x jobs) refl e
    where
      at_id :
          (o : Option (Job F V))
          → get x jobs ≡ o
          → (elim o as (λ _. Option (String × Job F V)) [ none ↦ none | some j ↦ some (x, j) ])
            ≡ some (id, job)
          → get id jobs ≡ some job
      at_id none g e = cc
      at_id (some j) g e =
          let before : String × Job F V = (x, j) in
          let after : String × Job F V = (id, job) in
          let p : before ≡ after =
            ap (λ (o : Option (String × Job F V)). elim o [ none ↦ before | some r ↦ r ]) e in
          subst (λ r. get r.0 jobs ≡ some r.1) p g

module _ (env : JobEnv) (P : Job env.F env.V → Type 0) (Allowed : String → Type 0) where
  open env use {F, V, text}

  -- A property of jobs that claims with allowed tokens and renewals keep as well.
  pub record Lasting : Type 0 where
    pub stable : Stable P
    pub claim :
        (worker token : String) (lease_for now : ℕ) (job : Job F V)
        → Allowed token
        → P job
        → P (leased env worker token lease_for now job)
    pub renewal : (at : ℕ) (job : Job F V) → P job → P (record job { lease_expires_at = some at })

  module _ (lasting : Lasting) where
    claim_next-Sound :
        (worker token : String) (lease_for now : ℕ) (q : JobQueue F V)
        → Allowed token
        → Sound P q.jobs
        → Sound P (claim_next env worker token lease_for now q).1.jobs
    unfolding claim_next emit
    claim_next-Sound worker token lease_for now q allowed v =
        let due = promote_due now q in
        result_if-kept (Sound P) q.paused (ok none, q) _ v
          (take-Sound due (found_by due.jobs (selected_id due)) refl
            (promote_due-kept (Sound P) (Sound-Kept P lasting.stable) now q v))
      where
        take-Sound :
            (due : JobQueue F V) (o : Option (String × Job F V))
            → found_by due.jobs (selected_id due) ≡ o
            → Sound P due.jobs
            → Sound P (take env worker token lease_for now due o).1.jobs
        take-Sound due none e w = w
        take-Sound due (some (id, job)) e w =
            put-Sound P lasting.stable id job (leased env worker token lease_for now job) due.jobs
              (found_by-get due.jobs (selected_id due) id job e)
              (λ entry. record {
                key = entry.key;
                leased = record { token = refl; lease = refl; worker = refl };
                also = lasting.claim worker token lease_for now job allowed entry.also;
              })
              w

    with_active :
        (action : String) (job : Job F V) (g : Result (Unit {0})) (q : JobQueue F V)
        (done : Result (Job F V) × JobQueue F V)
        → Sound P q.jobs
        → (same_state job.state active ≡ true → Sound P done.1.jobs)
        → Sound P (checked (require_active text job action >> g) q done).1.jobs
    unfolding require_active
    with_active action job g q done v k = elim (Bool-cases (same_state job.state active)) [
      | inl t ↦ rw t (checked-kept (Sound P) g q done v (k t))
      | inr t ↦ rw t v
    ]

    renew-Sound :
        (id token : String) (lease_for now : ℕ) (q : JobQueue F V)
        → Sound P q.jobs
        → Sound P (renew env id token lease_for now q).1.jobs
    unfolding renew
    renew-Sound id token lease_for now q v = with_job-kept (Sound P) id q _ v (λ job e.
        with_active "renew lease" job (require_lock_token text job token) q _ v (λ a.
          put-Sound P lasting.stable id job _ q.jobs e
            (λ entry. record {
              key = entry.key;
              leased = record {
                token = entry.leased.token;
                lease = sym a;
                worker = entry.leased.worker;
              };
              also = lasting.renewal (add_duration env now lease_for) job entry.also;
            })
            v))

    step-Sound :
        {q r : JobQueue F V} (step : Step env q r)
        → Issues env Allowed step
        → Sound P q.jobs
        → Sound P r.jobs
    unfolding pause resume emit
    step-Sound {q} (claims worker token lease_for now) i v =
        claim_next-Sound worker token lease_for now q i v
    step-Sound {q} (renews id token lease_for now) i v = renew-Sound id token lease_for now q v
    step-Sound {q} (completes uuid id token value now) i v =
        complete-kept env (Sound P) (Sound-Kept P lasting.stable) uuid id token value now q v
    step-Sound {q} (fails id token error now b) i v =
        fail_active_job-kept env (Sound P) (Sound-Kept P lasting.stable) id token error now b q v
    step-Sound {q} (delays id token delay now) i v =
        delay_active-kept env (Sound P) (Sound-Kept P lasting.stable) id token delay now q v
    step-Sound {q} (releases id token now) i v =
        release_active-kept env (Sound P) (Sound-Kept P lasting.stable) id token now q v
    step-Sound {q} (recovers now) i v =
        recover_stalled_jobs-kept env (Sound P) (Sound-Kept P lasting.stable) now q v
    step-Sound {q} (adds queue uuid spec now) i v =
        add-kept env (Sound P) (Sound-Kept P lasting.stable) queue uuid spec now q v
    step-Sound {q} (adds_many queue specs now) i v =
        add_many-kept env (Sound P) (Sound-Kept P lasting.stable) queue specs now q v
    step-Sound {q} (upserts queue uuid spec now) i v =
        upsert_repeat-kept env (Sound P) (Sound-Kept P lasting.stable) queue uuid spec now q v
    step-Sound {q} (removes_repeat key now) i v =
        remove_repeat-kept env (Sound P) (Sound-Kept P lasting.stable) key now q v
    step-Sound {q} (removes id now) i v =
        remove-kept env (Sound P) (Sound-Kept P lasting.stable) id now q v
    step-Sound {q} (removes_children id now) i v =
        remove_unprocessed_children-kept env (Sound P) (Sound-Kept P lasting.stable) id now q v
    step-Sound {q} (removes_dependency id now) i v =
        remove_child_dependency-kept env (Sound P) (Sound-Kept P lasting.stable) id now q v
    step-Sound {q} (removes_key id now) i v =
        remove_deduplication_key-kept (Sound P) (Sound-Kept P lasting.stable) id now q v
    step-Sound {q} (retries id now) i v =
        retry-kept env (Sound P) (Sound-Kept P lasting.stable) id now q v
    step-Sound {q} (cleans state grace limit now) i v =
        clean-kept env (Sound P) (Sound-Kept P lasting.stable) state grace limit now q v
    step-Sound {q} (drains b now) i v =
        drain-kept env (Sound P) (Sound-Kept P lasting.stable) b now q v
    step-Sound {q} (obliterates force) i v =
        obliterate-kept (Sound P) (Sound-Kept P lasting.stable) text force q
          (record { entries = tt; distinct = tt }) v
    step-Sound {q} (promotes id now) i v =
        promote-kept env (Sound P) (Sound-Kept P lasting.stable) id now q v
    step-Sound {q} (promotes_due now) i v =
        promote_due-kept (Sound P) (Sound-Kept P lasting.stable) now q v
    step-Sound {q} (reschedules id delay now) i v =
        reschedule-kept env (Sound P) (Sound-Kept P lasting.stable) id delay now q v
    step-Sound {q} (reorders id priority lifo) i v =
        set_priority_order-kept env (Sound P) (Sound-Kept P lasting.stable) id priority lifo q v
    step-Sound {q} (sets_data id payload) i v =
        set_data-kept (Sound P) (Sound-Kept P lasting.stable) id payload q v
    step-Sound {q} (progresses id progress now) i v =
        set_progress-kept (Sound P) (Sound-Kept P lasting.stable) id progress now q v
    step-Sound {q} (traces id stacktrace reason) i v =
        save_stacktrace-kept (Sound P) (Sound-Kept P lasting.stable) id stacktrace reason q v
    step-Sound {q} (logs_line id line keep now) i v =
        log-kept (Sound P) (Sound-Kept P lasting.stable) id line keep now q v
    step-Sound (pauses now) i v = v
    step-Sound (resumes now) i v = v

    pub reach-Sound : {q r : JobQueue F V} → Reach env Allowed q r → Sound P q.jobs → Sound P r.jobs
    reach-Sound here v = v
    reach-Sound (next run step i) v = step-Sound step i (reach-Sound run v)
