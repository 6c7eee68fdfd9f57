-- ===== src/Job/Queue/Kept/Active.antt =====
-- The operations on single jobs, and the promotion of due jobs, keep each `Kept` property of the
-- map. Claims and renewals make leases, so each property has lemmas of its own for them.
use Prim.Native.String.{String}
use lane.Prelude.{
  ℕ, ◌≡◌, refl, arith, Bool, true, false, Option, none, some, List, [], ◌∷◌, All, filter,
  Bool-cases, inl, inr, if◌then◌else◌, ◌==◌,
}
use lane.Prelude.Sort.{sort_by, All-sort_by}
use lane.Job.{Job, JobEnv, waiting, delayed, active, same_state}
use lane.Job.Queue.{
  JobQueue, get, write, emit, promote_due, promote_each, promote_one, is_due, due_before, values,
}
use lane.Job.Queue.Active.{
  delay_active, delayed_again, release_active, released, promote, reschedule, set_priority_order,
  reordered, with_lifo, set_data, set_progress, save_stacktrace, log,
}
use lane.Job.Queue.Promotion.{due_inactive, Quiet, promote_one-AllQuiet, due-Quiet}
use lane.Job.Queue.Kept.{Jobs, Kept, Same, result_if-kept, checked-kept, with_job-kept}

module _ {F V : Type 0} (I : Jobs F V → Type 0) (kept : Kept I) where
  promote_one-kept :
      (now : ℕ) (id : String) (o : Option (Job F V)) (q : JobQueue F V)
      → get id q.jobs ≡ o
      → ((job : Job F V) → o ≡ some job → same_state job.state active ≡ false)
      → I q.jobs
      → I (promote_one now id o q).jobs
  unfolding emit
  promote_one-kept now id none q e d v = v
  promote_one-kept now id (some job) q e d v =
      kept.quieted id job _ q.jobs e
        (record {
          id = refl;
          before = d job refl;
          after = refl;
          token = refl;
          lease = refl;
          worker = refl;
        })
        v

  promote_each-kept :
      (now : ℕ) (dues : List (Job F V)) (q : JobQueue F V)
      → All (Quiet q.jobs) dues
      → I q.jobs
      → I (promote_each now dues q).jobs
  unfolding promote_each
  promote_each-kept now [] q h v = v
  promote_each-kept now (d ∷ dues) q h v =
      promote_each-kept now dues _ (promote_one-AllQuiet now d.id (get d.id q.jobs) dues _ h.1)
        (promote_one-kept now d.id (get d.id q.jobs) _ refl h.0 v)

  pub promote_due-kept : (now : ℕ) (q : JobQueue F V) → I q.jobs → I (promote_due now q).jobs
  unfolding promote_due
  promote_due-kept now q v =
      promote_each-kept now (sort_by due_before (filter (is_due now) (values q.jobs))) q
        (All-sort_by (Quiet q.jobs) due_before (filter (is_due now) (values q.jobs))
          (due-Quiet now q.jobs q.jobs (kept.keyed q.jobs v)))
        v

  same_write :
      (id : String) (old job : Job F V) (q : JobQueue F V)
      → get id q.jobs ≡ some old
      → Same old job
      → I q.jobs
      → I (write id job q).jobs
  same_write id old job q e s v = kept.same id old job q.jobs e s v

  pub set_data-kept :
      (id : String) (payload : V) (q : JobQueue F V) → I q.jobs → I (set_data id payload q).1.jobs
  unfolding set_data
  set_data-kept id payload q v = with_job-kept I id q _ v (λ job e.
      kept.same id job _ q.jobs e
        (record { id = refl; state = refl; token = refl; lease = refl; worker = refl }) v)

  pub set_progress-kept :
      (id : String) (progress : V) (now : ℕ) (q : JobQueue F V)
      → I q.jobs
      → I (set_progress id progress now q).1.jobs
  unfolding set_progress emit
  set_progress-kept id progress now q v = with_job-kept I id q _ v (λ job e.
      kept.same id job _ q.jobs e
        (record { id = refl; state = refl; token = refl; lease = refl; worker = refl }) v)

  pub save_stacktrace-kept :
      (id : String) (trace : List String) (reason : String) (q : JobQueue F V)
      → I q.jobs
      → I (save_stacktrace id trace reason q).1.jobs
  unfolding save_stacktrace
  save_stacktrace-kept id trace reason q v = with_job-kept I id q _ v (λ job e.
      kept.same id job _ q.jobs e
        (record { id = refl; state = refl; token = refl; lease = refl; worker = refl }) v)

  pub log-kept :
      (id line : String) (keep now : ℕ) (q : JobQueue F V)
      → I q.jobs
      → I (log id line keep now q).1.jobs
  unfolding log
  log-kept id line keep now q v = with_job-kept I id q _ v (λ job e.
      kept.same id job _ q.jobs e
        (record { id = refl; state = refl; token = refl; lease = refl; worker = refl }) v)

module _ (env : JobEnv) (I : Jobs env.F env.V → Type 0) (kept : Kept I) where
  open env use {F, V}

  pub delay_active-kept :
      (id token : String) (delay now : ℕ) (q : JobQueue F V)
      → I q.jobs
      → I (delay_active env id token delay now q).1.jobs
  unfolding delay_active emit
  delay_active-kept id token delay now q v = with_job-kept I id q _ v (λ job e.
      checked-kept I _ q _ v (
        kept.idled id job (delayed_again env delay now job) q.jobs e refl
          (record { inactive = refl; token = refl; lease = refl; worker = refl }) v))

  pub release_active-kept :
      (id token : String) (now : ℕ) (q : JobQueue F V)
      → I q.jobs
      → I (release_active env id token now q).1.jobs
  unfolding release_active emit
  release_active-kept id token now q v = with_job-kept I id q _ v (λ job e. checked-kept I _ q _ v (
      kept.idled id job (released env now job) q.jobs e refl
        (record { inactive = refl; token = refl; lease = refl; worker = refl }) v))

  delayed_or :
      {A : Type 0} (job : Job F V) (x y : A × JobQueue F V)
      → (same_state job.state delayed ≡ true → I x.1.jobs)
      → I y.1.jobs
      → I (if same_state job.state delayed then x else y).1.jobs
  delayed_or job x y k w = branch (same_state job.state delayed) k
    where
      branch : (b : Bool) → (b ≡ true → I x.1.jobs) → I (if b then x else y).1.jobs
      branch true k = k refl
      branch false k = w

  pub promote-kept :
      (id : String) (now : ℕ) (q : JobQueue F V) → I q.jobs → I (promote env id now q).1.jobs
  unfolding promote emit
  promote-kept id now q v = with_job-kept I id q _ v (λ job e.
      delayed_or job _ _
        (λ d.
          kept.quieted id job _ q.jobs e
            (record {
              id = refl;
              before = due_inactive job.state true (ground (arith, d));
              after = refl;
              token = refl;
              lease = refl;
              worker = refl;
            })
            v)
        v)

  pub reschedule-kept :
      (id : String) (delay now : ℕ) (q : JobQueue F V)
      → I q.jobs
      → I (reschedule env id delay now q).1.jobs
  unfolding reschedule emit
  reschedule-kept id delay now q v = result_if-kept I (delay == 0) _ _ v (
      with_job-kept I id q _ v (λ job e.
        result_if-kept I (same_state job.state delayed) _ _
          (kept.same id job _ q.jobs e
            (record { id = refl; state = refl; token = refl; lease = refl; worker = refl }) v)
          v))

  with_lifo-Same :
      (o : Option Bool) (old job : Job F V) → Same old job → Same old (with_lifo env o job)
  with_lifo-Same none old job s = s
  with_lifo-Same (some lifo) old job s = record {
    id = s.id;
    state = s.state;
    token = s.token;
    lease = s.lease;
    worker = s.worker;
  }

  reordered-Same :
      (priority : ℕ) (lifo : Option Bool) (job : Job F V) (q : JobQueue F V)
      → Same job (reordered env priority lifo job q).0
  unfolding reordered
  reordered-Same priority lifo job q = elim (Bool-cases (same_state job.state waiting)) [
    | inl e ↦ rw e (
        with_lifo-Same lifo job _
          (record { id = refl; state = refl; token = refl; lease = refl; worker = refl }))
    | inr e ↦ rw e (
        with_lifo-Same lifo job _
          (record { id = refl; state = refl; token = refl; lease = refl; worker = refl }))
  ]

  pub set_priority_order-kept :
      (id : String) (priority : ℕ) (lifo : Option Bool) (q : JobQueue F V)
      → I q.jobs
      → I (set_priority_order env id priority lifo q).1.jobs
  unfolding set_priority_order
  set_priority_order-kept id priority lifo q v = checked-kept I _ q _ v (
      with_job-kept I id q _ v
        (λ job e. kept.same id job _ q.jobs e (reordered-Same priority lifo job q) v))
