-- ===== src/Job/Queue/Kept/Next.antt =====
-- The insertion of the job or flow stored for a deduplication id keeps each `Kept` property.
use Prim.Native.String.{String}
use lane.Prelude.{
  ℕ, ◌≡◌, refl, arith, Bool, true, false, Option, none, some, List, [], ◌∷◌, All, map, is_some,
  if◌then◌else◌, ◌||◌,
}
use lane.Job.{Job, JobFlow, JobEnv, same_state, active, waiting_children, JobState}
use lane.Job.Queue.{JobQueue, get}
use lane.Job.Queue.Records.{job_deduplication_id}
use lane.Job.Queue.Dedup.{no_ids}
use lane.Job.Queue.Dedup.Next.{
  store_next, store_deduplicated_next, store_flow, store_deduplicated_next_flow, unexpire, list_in,
  list_child, listed, prepare_deduplicated_next_job, prepared_child, prepared_parent,
  prepare_deduplicated_next_flow, insert_next, take_next, enqueue_for, enqueue_deduplicated_next,
  insert_jobs, take_flow, enqueue_flow_for, enqueue_deduplicated_next_flow, or_flow, enqueue_next,
  in_series, any_stored,
}
use lane.Job.Queue.Kept.{Jobs, Kept, Idle, result_if-kept, insert_job-kept}
use lane.Job.Queue.Kept.Parents.{after_inactive}

module _ {F V : Type 0} (I : Jobs F V → Type 0) (kept : Kept I) where
  unexpire-kept :
      (id : String) (o : Option (Job F V)) (jobs : Jobs F V)
      → get id jobs ≡ o
      → I jobs
      → I (unexpire id o jobs)
  unexpire-kept id none jobs e v = v
  unexpire-kept id (some owner) jobs e v =
      kept.same id owner (record owner { deduplication_expires_at = none }) jobs e
        (record { id = refl; state = refl; token = refl; lease = refl; worker = refl }) v

  store_next-kept :
      (o : Option String) (candidate existing : Job F V) (q : JobQueue F V)
      → I q.jobs
      → I (store_next o candidate existing q).1.jobs
  store_next-kept none candidate existing q v = v
  store_next-kept (some id) candidate existing q v =
      unexpire-kept existing.id (get existing.id q.jobs) q.jobs refl v

  pub store_deduplicated_next-kept :
      (candidate existing : Job F V) (q : JobQueue F V)
      → I q.jobs
      → I (store_deduplicated_next candidate existing q).1.jobs
  unfolding store_deduplicated_next
  store_deduplicated_next-kept candidate existing q v =
      ground (arith, store_next-kept (job_deduplication_id candidate) candidate existing q v)

  store_flow-kept :
      (o : Option String) (candidate : JobFlow F V) (existing : Job F V) (q : JobQueue F V)
      → I q.jobs
      → I (store_flow o candidate existing q).1.jobs
  store_flow-kept none candidate existing q v = v
  store_flow-kept (some id) candidate existing q v =
      unexpire-kept existing.id (get existing.id q.jobs) q.jobs refl v

  pub store_deduplicated_next_flow-kept :
      (candidate : JobFlow F V) (existing : Job F V) (q : JobQueue F V)
      → I q.jobs
      → I (store_deduplicated_next_flow candidate existing q).1.jobs
  unfolding store_deduplicated_next_flow
  store_deduplicated_next_flow-kept candidate existing q v =
      ground (arith, store_flow-kept (job_deduplication_id candidate.parent) candidate existing q v)

  list_in-kept :
      (id parent_id : String) (o : Option (Job F V)) (q : JobQueue F V)
      → get parent_id q.jobs ≡ o
      → I q.jobs
      → I (list_in id parent_id o q).jobs
  list_in-kept id parent_id none q e v = v
  list_in-kept id parent_id (some parent) q e v =
      kept.same parent_id parent (record parent { child_ids = listed id parent.child_ids }) q.jobs e
        (record { id = refl; state = refl; token = refl; lease = refl; worker = refl }) v

  pub list_child-kept :
      (id : String) (o : Option String) (q : JobQueue F V) → I q.jobs → I (list_child id o q).jobs
  list_child-kept id none q v = v
  list_child-kept id (some parent_id) q v =
      list_in-kept id parent_id (get parent_id q.jobs) q refl v

module _ (env : JobEnv) where
  open env use {F, V}

  prepared-Idle : (job : Job F V) (now : ℕ) → Idle (prepare_deduplicated_next_job env job now)
  unfolding prepare_deduplicated_next_job
  prepared-Idle job now = record {
    inactive = after_inactive _ now;
    token = refl;
    lease = refl;
    worker = refl;
  }

  in_series-Idle : (owner next : Job F V) (o : Option ℕ) → Idle next → Idle (in_series owner o next)
  in_series-Idle owner next none i = i
  in_series-Idle owner next (some count) i = record {
    inactive = i.inactive;
    token = i.token;
    lease = i.lease;
    worker = i.worker;
  }

  prepared_parent-Idle :
      (parent : Job F V) (ids : List String) (now : ℕ) → Idle (prepared_parent env parent ids now)
  prepared_parent-Idle parent ids now =
      let i = prepared-Idle parent now in
      record {
        inactive = blocked_or (no_ids ids) _ i.inactive;
        token = i.token;
        lease = i.lease;
        worker = i.worker;
      }
    where
      blocked_or :
          (b : Bool) (s : JobState)
          → same_state s active ≡ false
          → same_state (if b then s else waiting_children) active ≡ false
      blocked_or true s h = h
      blocked_or false s h = refl

  prepared_child-Idle :
      (id : String) (now : ℕ) (children : List (Job F V))
      → All Idle (map (prepared_child env id now) children)
  prepared_child-Idle id now [] = tt
  prepared_child-Idle id now (child ∷ children) =
      let i = prepared-Idle child now in
      (
        record { inactive = i.inactive; token = i.token; lease = i.lease; worker = i.worker },
        prepared_child-Idle id now children,
      )

module _ (env : JobEnv) (I : Jobs env.F env.V → Type 0) (kept : Kept I) where
  open env use {F, V}

  insert_next-kept :
      (owner next : Job F V) (now : ℕ) (o : Option (Option ℕ)) (q : JobQueue F V)
      → I q.jobs
      → I (insert_next env owner next now o q).1.jobs
  insert_next-kept owner next now none q v = v
  insert_next-kept owner next now (some count) q v =
      result_if-kept I (is_some (get next.id q.jobs)) (false, q) _ v
        (insert_job-kept env I kept _ now _
          (in_series-Idle env owner _ count (prepared-Idle env next now))
          (list_child-kept I kept next.id next.parent_id q v))

  take_next-kept :
      (owner : Job F V) (id : String) (now : ℕ) (o : Option (Job F V)) (q : JobQueue F V)
      → I q.jobs
      → I (take_next env owner id now o q).1.jobs
  take_next-kept owner id now none q v = v
  take_next-kept owner id now (some next) q v = insert_next-kept owner next now _ _ v

  enqueue_for-kept :
      (owner : Job F V) (now : ℕ) (o : Option String) (q : JobQueue F V)
      → I q.jobs
      → I (enqueue_for env owner now o q).1.jobs
  enqueue_for-kept owner now none q v = v
  enqueue_for-kept owner now (some id) q v = take_next-kept owner id now _ q v

  enqueue_deduplicated_next-kept :
      (owner : Job F V) (now : ℕ) (q : JobQueue F V)
      → I q.jobs
      → I (enqueue_deduplicated_next env owner now q).1.jobs
  unfolding enqueue_deduplicated_next
  enqueue_deduplicated_next-kept owner now q v = enqueue_for-kept owner now _ q v

  insert_jobs-kept :
      (jobs : List (Job F V)) (now : ℕ) (q : JobQueue F V)
      → All Idle jobs
      → I q.jobs
      → I (insert_jobs env jobs now q).jobs
  insert_jobs-kept [] now q i v = v
  insert_jobs-kept (job ∷ jobs) now q i v =
      insert_jobs-kept jobs now _ i.1 (insert_job-kept env I kept job now q i.0 v)

  take_flow-kept :
      (id : String) (now : ℕ) (o : Option (JobFlow F V)) (q : JobQueue F V)
      → I q.jobs
      → I (take_flow env id now o q).1.jobs
  unfolding prepare_deduplicated_next_flow
  take_flow-kept id now none q v = v
  take_flow-kept id now (some flow) q v =
      result_if-kept I (is_some (get flow.parent.id q.jobs) || any_stored flow.children q.jobs)
        (false, _) _ v
        (insert_jobs-kept _ now _ (prepared_child-Idle env flow.parent.id now flow.children)
          (insert_job-kept env I kept _ now _ (prepared_parent-Idle env flow.parent _ now) v))

  enqueue_flow_for-kept :
      (now : ℕ) (o : Option String) (q : JobQueue F V)
      → I q.jobs
      → I (enqueue_flow_for env now o q).1.jobs
  enqueue_flow_for-kept now none q v = v
  enqueue_flow_for-kept now (some id) q v = take_flow-kept id now _ q v

  or_flow-kept :
      (owner : Job F V) (now : ℕ) (r : Bool × JobQueue F V)
      → I r.1.jobs
      → I (or_flow env owner now r).1.jobs
  unfolding enqueue_deduplicated_next_flow
  or_flow-kept owner now (true, q) v = v
  or_flow-kept owner now (false, q) v = enqueue_flow_for-kept now _ q v

  pub enqueue_next-kept :
      (owner : Job F V) (now : ℕ) (q : JobQueue F V)
      → I q.jobs
      → I (enqueue_next env owner now q).1.jobs
  enqueue_next-kept owner now q v =
      or_flow-kept owner now _ (enqueue_deduplicated_next-kept owner now q v)
