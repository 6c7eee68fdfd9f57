-- ===== src/Job/Queue/Claim.antt =====
-- Which job `claim_next` hands out.
use Prim.Native.Nat.{compare, Ordering}
use Prim.Native.String.{String}
use lane.Prelude.{
  ◌+◌, min, ℕ, ◌≤◌, ◌≡◌, ◌≢◌, refl, sym, subst, arith, Bool, true, false, Option, none, some, List,
  [], ◌∷◌, All, filter, Bool-cases, inl, inr, if◌then◌else◌,
}
use lane.Prelude.Sort.{pop_first, choose, Taken, All-pop_first}
use lane.Error.{Result, ok, err}
use lane.PriorityQueue.{then_with}
use lane.Job.{Job, JobEnv, active, add_duration}
use lane.Job.Later.{IsLater, add_duration-IsLater}
use lane.Job.Queue.Flow.Gate.{get-put_same}
use lane.Job.Queue.{emit, JobQueue, get, values, promote_due, compare_claim_order, not_after}
use lane.Job.Queue.Active.{
  claim_next, take, leased, found_by, selected_id, claims_before, is_waiting, first_id,
}
use lane.Job.Queue.Kept.Active.{promote_due-kept}
use lane.Job.Queue.Kept.Sound.{Any, Any-Stable, Sound, Sound-Kept}

then_low : (m n : ℕ) (o : Ordering) → not_after (then_with (compare m n) o) ≡ true → m ≤ n
then_low m n o h = ground arith

then_high : (m n : ℕ) (o : Ordering) → not_after (then_with (compare m n) o) ≡ false → n ≤ m
then_high m n o h = ground arith

module _ {F V : Type 0} where
  abbrev Lowest : List (Job F V) → Option (Job F V × List (Job F V)) → Type 0
  Lowest xs none = xs ≡ []
  Lowest xs (some (m, rest)) = All (λ x. m.priority ≤ x.priority) xs

  lower-All :
      (m n : Job F V) (xs : List (Job F V))
      → m.priority ≤ n.priority
      → All (λ x. n.priority ≤ x.priority) xs
      → All (λ x. m.priority ≤ x.priority) xs
  lower-All m n [] h a = tt
  lower-All m n (x ∷ xs) h a = (omega (arith, h, a.0), lower-All m n xs h a.1)

  before-low : (a b : Job F V) → claims_before a b ≡ true → a.priority ≤ b.priority
  unfolding compare_claim_order
  before-low a b h = then_low a.priority b.priority _ h

  before-high : (a b : Job F V) → claims_before a b ≡ false → b.priority ≤ a.priority
  unfolding compare_claim_order
  before-high a b h = then_high a.priority b.priority _ h

  choose-Lowest :
      (x : Job F V) (xs : List (Job F V)) (o : Option (Job F V × List (Job F V)))
      → Lowest xs o
      → Lowest (x ∷ xs) (choose claims_before x xs o)
  choose-Lowest x xs none h = rw h (omega arith, tt)
  choose-Lowest x xs (some (m, rest)) h = elim (Bool-cases (claims_before x m)) [
    | inl e ↦ rw e (omega arith, lower-All x m xs (before-low x m e) h)
    | inr e ↦ rw e (before-high x m e, h)
  ]

  pop_first-Lowest : (xs : List (Job F V)) → Lowest xs (pop_first claims_before xs)
  unfolding pop_first
  pop_first-Lowest [] = refl
  pop_first-Lowest (x ∷ xs) = choose-Lowest x xs (pop_first claims_before xs) (pop_first-Lowest xs)

  -- A job of the map under its id that waits.
  abbrev Ready : List (String × Job F V) → Job F V → Type 0
  Ready jobs job = (get job.id jobs ≡ some job) × (is_waiting job ≡ true)

  Keyed-Ready :
      (all jobs : List (String × Job F V))
      → All (λ r. get r.1.id all ≡ some r.1) jobs
      → All (Ready all) (filter is_waiting (values jobs))
  Keyed-Ready all [] h = tt
  Keyed-Ready all ((k, job) ∷ jobs) h = elim (Bool-cases (is_waiting job)) [
    | inl e ↦ rw e ((h.0, e), Keyed-Ready all jobs h.1)
    | inr e ↦ rw e (Keyed-Ready all jobs h.1)
  ]

  lowest_waiting :
      (p : ℕ) (jobs : List (String × Job F V))
      → All (λ x. p ≤ x.priority) (filter is_waiting (values jobs))
      → All (λ r. is_waiting r.1 ≡ true → p ≤ r.1.priority) jobs
  lowest_waiting p [] h = tt
  lowest_waiting p ((k, job) ∷ jobs) h = chosen (is_waiting job) (lowest_waiting p jobs) h
    where
      chosen :
          (b : Bool)
          → (All (λ x. p ≤ x.priority) (filter is_waiting (values jobs))
              → All (λ r. is_waiting r.1 ≡ true → p ≤ r.1.priority) jobs)
          → All
              (λ x. p ≤ x.priority)
              (if b then job ∷ filter is_waiting (values jobs) else filter is_waiting (values jobs))
          → (b ≡ true → p ≤ job.priority) × All (λ r. is_waiting r.1 ≡ true → p ≤ r.1.priority) jobs
      chosen true later h = ((λ e. h.0), later h.1)
      chosen false later h = ((λ e. cc), later h)

  none_waiting :
      (jobs : List (String × Job F V))
      → filter is_waiting (values jobs) ≡ []
      → All (λ r. is_waiting r.1 ≡ false) jobs
  none_waiting [] h = tt
  none_waiting ((k, job) ∷ jobs) h = chosen (is_waiting job) (none_waiting jobs) h
    where
      chosen :
          (b : Bool)
          → (filter is_waiting (values jobs) ≡ [] → All (λ r. is_waiting r.1 ≡ false) jobs)
          → (if b then job ∷ filter is_waiting (values jobs) else filter is_waiting (values jobs))
            ≡ []
          → (b ≡ false) × All (λ r. is_waiting r.1 ≡ false) jobs
      chosen true later h = cc
      chosen false later h = (refl, later h)

module _ (env : JobEnv) where
  open env use {F, V}

  -- The lease of `job` to a worker for a time: the job as it was, but active and with its holder.
  pub record IsLease (worker token : String) (lease_for now : ℕ) (job claimed : Job F V)
      : Type 0 where
    pub id : claimed.id ≡ job.id
    pub payload : claimed.payload ≡ job.payload
    pub active_now : claimed.state ≡ active
    pub worker_id : claimed.worker_id ≡ some worker
    pub lock_token : claimed.lock_token ≡ some token
    pub attempt : claimed.attempts_made ≡ min (job.attempts_made + 1) 4294967295
    pub expires : ℕ
    pub lease : claimed.lease_expires_at ≡ some expires
    pub later : IsLater env now lease_for expires

  -- What a claim from the jobs of `due` gives: nothing and no change if none waits; otherwise the
  -- lease of a waiting job that no waiting job precedes in priority, which is written back under
  -- its id.
  abbrev pub Claimed :
      (worker token : String) (lease_for now : ℕ)
      → JobQueue F V
      → Result (Option (Job F V)) × JobQueue F V
      → Type 0
  Claimed worker token lease_for now due (err e, after) = due.jobs ≢ due.jobs
  Claimed worker token lease_for now due (ok none, after) =
      All (λ r. is_waiting r.1 ≡ false) due.jobs × (after ≡ due)
  Claimed worker token lease_for now due (ok (some claimed), after) =
      (job : Job F V) × (get job.id due.jobs ≡ some job)
      × (is_waiting job ≡ true)
      × (All (λ r. is_waiting r.1 ≡ true → job.priority ≤ r.1.priority) due.jobs)
      × IsLease worker token lease_for now job claimed
      × (get job.id after.jobs ≡ some claimed)

  leased-IsLease :
      (worker token : String) (lease_for now : ℕ) (job : Job F V)
      → IsLease worker token lease_for now job (leased env worker token lease_for now job)
  leased-IsLease worker token lease_for now job = record {
    id = refl;
    payload = refl;
    active_now = refl;
    worker_id = refl;
    lock_token = refl;
    attempt = refl;
    expires = add_duration env now lease_for;
    lease = refl;
    later = add_duration-IsLater env now lease_for;
  }

  take-Claimed :
      (worker token : String) (lease_for now : ℕ) (due : JobQueue F V)
      (o : Option (Job F V × List (Job F V)))
      → Lowest (filter is_waiting (values due.jobs)) o
      → Taken (Ready due.jobs) o
      → Claimed worker token lease_for now due
          (take env worker token lease_for now due (found_by due.jobs (first_id o)))
  unfolding emit
  take-Claimed worker token lease_for now due none h t = (none_waiting due.jobs h, refl)
  take-Claimed worker token lease_for now due (some (m, rest)) h t =
      subst
        (λ o. Claimed worker token lease_for now due (
          take env worker token lease_for now due
            (elim o [ none ↦ none | some job ↦ some (m.id, job) ])))
        (sym t.0.0)
        (
          m,
          t.0.0,
          t.0.1,
          lowest_waiting m.priority due.jobs h,
          leased-IsLease worker token lease_for now m,
          get-put_same m.id m (leased env worker token lease_for now m) due.jobs t.0.0,
        )

  not_paused :
      (worker token : String) (lease_for now : ℕ) (due : JobQueue F V) (b : Bool)
      (x y : Result (Option (Job F V)) × JobQueue F V)
      → b ≡ false
      → Claimed worker token lease_for now due y
      → Claimed worker token lease_for now due (if b then x else y)
  not_paused worker token lease_for now due true x y e c = cc
  not_paused worker token lease_for now due false x y e c = c

  -- A claim on a sound queue that is not paused promotes the jobs that are due. Then, if no job
  -- waits, it returns nothing and changes nothing more. Otherwise it returns a job that was waiting
  -- and whose priority value is the lowest of all that wait, now active, with the worker, the token,
  -- one more attempt and a lease for the time asked, and the queue holds it so under its id. The
  -- lease is over at once where the calendar cannot express its end. A claim never fails.
  pub claim_next-Claimed :
      (worker token : String) (lease_for now : ℕ) (q : JobQueue F V)
      → q.paused ≡ false
      → Sound Any q.jobs
      → Claimed worker token lease_for now
          (promote_due now q)
          (claim_next env worker token lease_for now q)
  unfolding claim_next selected_id
  claim_next-Claimed worker token lease_for now q p v =
      let kept = Sound-Kept Any Any-Stable in
      let k = kept.keyed _ (promote_due-kept (Sound Any) kept now q v) in
      let due = promote_due now q in
      let ready = filter is_waiting (values due.jobs) in
      not_paused worker token lease_for now due q.paused (ok none, q) _ p
        (take-Claimed worker token lease_for now due (pop_first claims_before ready)
          (pop_first-Lowest ready)
          (All-pop_first (Ready due.jobs) claims_before ready (Keyed-Ready due.jobs due.jobs k)))
