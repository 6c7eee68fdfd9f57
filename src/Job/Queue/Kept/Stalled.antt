-- ===== src/Job/Queue/Kept/Stalled.antt =====
-- The recovery of stalled jobs keeps each `Kept` property of the map.
use Prim.Native.String.{String}
use lane.Prelude.{ℕ, ◌≡◌, refl, Bool, false, Option, none, some, List, [], ◌∷◌}
use lane.Job.{Job, JobEnv, failed, failed_retention, removes_failed_immediately}
use lane.Job.Queue.{JobQueue, get, emit, next_waiting_sequence}
use lane.Job.Queue.Stalled.{
  Recovered, fails_stalled, parent_step, for_parents, remove_failed, failed_stalled,
  requeued_stalled, recover_job, recover_each, settle_failures, settle_parents, emit_recovered,
  finish_recovery, stalled_jobs, recover_stalled_jobs, fails_parent, releases_parent,
  continues_parent, defers_parent,
}
use lane.Job.Queue.Kept.{Jobs, Kept, if-kept, result_if-kept, remove_job_record-kept, retire-kept}
use lane.Job.Queue.Kept.Parents.{
  release_parent-kept, defer_parent-kept, continue_parent-kept, fail_waiting_parent-kept,
}
use lane.Job.Queue.Kept.Next.{enqueue_next-kept}
use lane.Job.Queue.Kept.Finish.{record_in_parent-kept}

module _ {F V : Type 0} (I : Jobs F V → Type 0) (kept : Kept I) where
  parent_step-kept :
      (act : String → Job F V → JobQueue F V → JobQueue F V) (job : Job F V) (o : Option String)
      (q : JobQueue F V)
      → ((parent : String) (job : Job F V) (q : JobQueue F V)
          → I q.jobs
          → I (act parent job q).jobs)
      → I q.jobs
      → I (parent_step act job o q).jobs
  parent_step-kept act job none q k v = v
  parent_step-kept act job (some parent) q k v = k parent job q v

  for_parents-kept :
      (test : Job F V → Bool) (act : String → Job F V → JobQueue F V → JobQueue F V)
      (jobs : List (Job F V)) (q : JobQueue F V)
      → ((parent : String) (job : Job F V) (q : JobQueue F V)
          → I q.jobs
          → I (act parent job q).jobs)
      → I q.jobs
      → I (for_parents test act jobs q).jobs
  for_parents-kept test act [] q k v = v
  for_parents-kept test act (job ∷ jobs) q k v =
      for_parents-kept test act jobs _ k
        (if-kept I (test job) _ q (parent_step-kept act job job.parent_id q k v) v)

  remove_failed-kept :
      (jobs : List (Job F V)) (q : JobQueue F V) → I q.jobs → I (remove_failed jobs q).jobs
  remove_failed-kept [] q v = v
  remove_failed-kept (job ∷ jobs) q v = remove_failed-kept jobs _ (
      if-kept I (removes_failed_immediately job.options) _ q
        (remove_job_record-kept I kept job.id q v) v)

module _ (env : JobEnv) (I : Jobs env.F env.V → Type 0) (kept : Kept I) where
  open env use {F, V, text}

  recover_job-kept :
      (id : String) (now : ℕ) (o : Option (Job F V)) (r : Recovered F V × JobQueue F V)
      → get id r.1.jobs ≡ o
      → I r.1.jobs
      → I (recover_job env id now o r).1.jobs
  recover_job-kept id now none (r, q) e v = v
  recover_job-kept id now (some job) (r, q) e v =
      result_if-kept I (fails_stalled job) _ _
        (kept.idled id job (failed_stalled env now job) q.jobs e refl
          (record { inactive = refl; token = refl; lease = refl; worker = refl }) v)
        (kept.idled id job (requeued_stalled env (next_waiting_sequence q.sequence) job) q.jobs e
          refl (record { inactive = refl; token = refl; lease = refl; worker = refl }) v)

  recover_each-kept :
      (jobs : List (Job F V)) (now : ℕ) (r : Recovered F V × JobQueue F V)
      → I r.1.jobs
      → I (recover_each env jobs now r).1.jobs
  recover_each-kept [] now (r, q) v = v
  recover_each-kept (job ∷ jobs) now (r, q) v =
      recover_each-kept jobs now _ (recover_job-kept job.id now (get job.id q.jobs) (r, q) refl v)

  settle_failures-kept :
      (jobs : List (Job F V)) (now : ℕ) (q : JobQueue F V)
      → I q.jobs
      → I (settle_failures env jobs now q).jobs
  settle_failures-kept [] now q v = v
  settle_failures-kept (job ∷ jobs) now q v = settle_failures-kept jobs now _ (
      retire-kept env I kept false (failed_retention job.options) failed job.id now _ (
        enqueue_next-kept env I kept job now _
          (record_in_parent-kept env I kept job.parent_id job q v)))

  settle_parents-kept :
      (jobs : List (Job F V)) (now : ℕ) (q : JobQueue F V)
      → I q.jobs
      → I (settle_parents env jobs now q).jobs
  settle_parents-kept jobs now q v =
      for_parents-kept I kept fails_parent _ jobs _
        (λ parent job q w. fail_waiting_parent-kept env I kept parent _ now q w)
        (for_parents-kept I kept releases_parent _ jobs _
          (λ parent job q w. release_parent-kept env I kept parent now q w)
          (for_parents-kept I kept continues_parent _ jobs _
            (λ parent job q w. continue_parent-kept I kept parent now q w)
            (for_parents-kept I kept defers_parent _ jobs q
              (λ parent job q w. defer_parent-kept env I kept parent job.id now q w) v)))

  emit_recovered-kept :
      (jobs : List (Job F V)) (now : ℕ) (q : JobQueue F V)
      → I q.jobs
      → I (emit_recovered env jobs now q).jobs
  unfolding emit
  emit_recovered-kept [] now q v = v
  emit_recovered-kept (job ∷ jobs) now q v = emit_recovered-kept jobs now _ v

  pub finish_recovery-kept :
      (now : ℕ) (r : Recovered F V × JobQueue F V) → I r.1.jobs → I (finish_recovery env now r).jobs
  finish_recovery-kept now ((failures, events), q) v = emit_recovered-kept events now _ (
      settle_parents-kept failures now _
        (settle_failures-kept failures now _ (remove_failed-kept I kept failures q v)))

  pub recover_stalled_jobs-kept :
      (now : ℕ) (q : JobQueue F V) → I q.jobs → I (recover_stalled_jobs env now q).1.jobs
  unfolding recover_stalled_jobs
  recover_stalled_jobs-kept now q v =
      finish_recovery-kept now (recover_each env (stalled_jobs now q) now (([], []), q))
        (recover_each-kept (stalled_jobs now q) now (([], []), q) v)
