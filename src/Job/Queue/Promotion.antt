-- ===== src/Job/Queue/Promotion.antt =====
-- Look-ups and writes in the map of jobs, and the promotion of the jobs that are due.
use Prim.Native.String.{String}
use text.Mathlib.Text.{◌==◌ as str_eq}
use lane.Prelude.{
  is_some, ℕ, ◌≡◌, refl, leb, sym, ap, subst, ◌∙◌, Bool, true, false, ◌⊎◌, ◌&&◌, Option, none, some,
  List, [], ◌∷◌, All, filter, Bool-cases, inl, inr, if◌then◌else◌,
}
use lane.Job.{
  Job, JobState, waiting, delayed, active, waiting_children, completed, failed, same_state,
}
use lane.Job.Queue.{JobQueue, get, put, emit, promote_one, is_due, values}

pub due_inactive :
    (s : JobState) (b : Bool) → same_state s delayed && b ≡ true → same_state s active ≡ false
due_inactive waiting b h = refl
due_inactive delayed b h = refl
due_inactive active b h = cc
due_inactive waiting_children b h = refl
due_inactive completed b h = refl
due_inactive failed b h = refl

module _ {F V : Type 0} where
  -- A job has a worker, a lock token and a lease exactly while it is active.
  pub record Leased (job : Job F V) : Type 0 where
    pub token : is_some job.lock_token ≡ same_state job.state active
    pub lease : is_some job.lease_expires_at ≡ same_state job.state active
    pub worker : is_some job.worker_id ≡ same_state job.state active

  here_or :
      (c : Bool) (i job j : Job F V) (m : Option (Job F V))
      → (if c then some job else m) ≡ some j
      → (job ≡ j) ⊎ ((if c then some i else m) ≡ some j)
  here_or true i job j m e = inl (ap (λ o. elim o [ none ↦ job | some y ↦ y ]) e)
  here_or false i job j m e = inr e

  later_or :
      (c : Bool) (i job j : Job F V) (m n : Option (Job F V))
      → (n ≡ some j → (job ≡ j) ⊎ (m ≡ some j))
      → (if c then some i else n) ≡ some j
      → (job ≡ j) ⊎ ((if c then some i else m) ≡ some j)
  later_or true i job j m n k e = inr e
  later_or false i job j m n k e = k e

  -- A look-up after a write finds the job that was written, or what it found before.
  get-put :
      (x id : String) (jobs : List (String × Job F V)) (job j : Job F V)
      → get x (put id job jobs) ≡ some j
      → (job ≡ j) ⊎ (get x jobs ≡ some j)
  get-put x id [] job j e = cc
  get-put x id ((k, i) ∷ jobs) job j e = split (str_eq k id) (get-put x id jobs job j) e
    where
      split :
          (b : Bool)
          → (get x (put id job jobs) ≡ some j → (job ≡ j) ⊎ (get x jobs ≡ some j))
          → get x (if b then (k, job) ∷ jobs else (k, i) ∷ put id job jobs) ≡ some j
          → (job ≡ j) ⊎ (get x ((k, i) ∷ jobs) ≡ some j)
      split true later e = here_or (str_eq k x) i job j (get x jobs) e
      split false later e =
          later_or (str_eq k x) i job j (get x jobs) (get x (put id job jobs)) later e

  -- No active job is found under the id.
  abbrev pub Quiet : List (String × Job F V) → Job F V → Type 0
  Quiet jobs due = (j : Job F V) → get due.id jobs ≡ some j → same_state j.state active ≡ false

  put-Quiet :
      (id : String) (jobs : List (String × Job F V)) (job due : Job F V)
      → same_state job.state active ≡ false
      → Quiet jobs due
      → Quiet (put id job jobs) due
  put-Quiet id jobs job due f h j e = elim (get-put due.id id jobs job j e) [
    | inl p ↦ subst (λ i. same_state i.state active ≡ false) p f
    | inr g ↦ h j g
  ]

  put-AllQuiet :
      (id : String) (jobs : List (String × Job F V)) (job : Job F V) (dues : List (Job F V))
      → same_state job.state active ≡ false
      → All (Quiet jobs) dues
      → All (Quiet (put id job jobs)) dues
  put-AllQuiet id jobs job [] f h = tt
  put-AllQuiet id jobs job (d ∷ dues) f h =
      (put-Quiet id jobs job d f h.0, put-AllQuiet id jobs job dues f h.1)

  pub promote_one-AllQuiet :
      (now : ℕ) (id : String) (o : Option (Job F V)) (dues : List (Job F V)) (q : JobQueue F V)
      → All (Quiet q.jobs) dues
      → All (Quiet (promote_one now id o q).jobs) dues
  unfolding emit
  promote_one-AllQuiet now id none dues q h = h
  promote_one-AllQuiet now id (some job) dues q h = put-AllQuiet id q.jobs _ dues refl h

  -- The map holds each job under the job's own id, once.
  abbrev pub Keyed : JobQueue F V → Type 0
  Keyed q = All (λ r. get r.1.id q.jobs ≡ some r.1) q.jobs

  pub due-Quiet :
      (now : ℕ) (all jobs : List (String × Job F V))
      → All (λ r. get r.1.id all ≡ some r.1) jobs
      → All (Quiet all) (filter (is_due now) (values jobs))
  due-Quiet now all [] h = tt
  due-Quiet now all ((k, job) ∷ jobs) h = elim (Bool-cases (is_due now job)) [
    | inl e ↦ rw e (
      (λ j g.
          subst (λ i. same_state i.state active ≡ false)
            (ap (λ o. elim o [ none ↦ job | some y ↦ y ]) (sym h.0 ∙ g))
            (due_inactive job.state (leb job.scheduled_at now) e)),
      due-Quiet now all jobs h.1,
    )
    | inr e ↦ rw e (due-Quiet now all jobs h.1)
  ]
