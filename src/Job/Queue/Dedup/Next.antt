-- ===== src/Job/Queue/Dedup/Next.antt =====
-- src/job/memory.rs: the job or flow that is stored for after the active owner of a deduplication
-- id, and its insertion when the owner ends.
use Prim.Native.String.{String}
use lane.Prelude.{
  ℕ, ◌+◌, ◌++◌, Bool, true, false, not, ◌||◌, Option, none, some, List, [], ◌∷◌, map, min,
  if◌then◌else◌, is_some, same_option, lookup, erase, insert_at, has_text,
}
use lane.Job.{Job, JobFlow, JobEnv, waiting_children, add_duration, deduplication_expiration}
use lane.Job.Queue.{JobQueue, get, put, write}
use lane.Job.Queue.Records.{job_deduplication_id, insert_job}
use lane.Job.Queue.Dedup.{
  limit_reached, deduplication_stores_next_if_active, deduplication_stores_next_flow_if_active,
  no_ids,
}
use lane.Job.Queue.Flow.Parents.{state_after_dependencies}

abbrev pub listed : String → List String → List String
listed id ids = if has_text id ids then ids else ids ++ id ∷ []

module _ {F V : Type 0} where
  abbrev pub unexpire :
      String → Option (Job F V) → List (String × Job F V) → List (String × Job F V)
  unexpire id none jobs = jobs
  unexpire id (some owner) jobs = put id (record owner { deduplication_expires_at = none }) jobs

  abbrev pub store_next : Option String → Job F V → Job F V → JobQueue F V → Bool × JobQueue F V
  store_next none candidate existing q = (false, q)
  store_next (some id) candidate existing q = (
    true,
    record q {
      deduplication_next = insert_at id candidate q.deduplication_next;
      deduplication_next_flows = erase id q.deduplication_next_flows;
      jobs = unexpire existing.id (get existing.id q.jobs) q.jobs;
    },
  )

  unfoldable pub store_deduplicated_next : Job F V → Job F V → JobQueue F V → Bool × JobQueue F V
  unfolding deduplication_stores_next_if_active job_deduplication_id
  store_deduplicated_next candidate existing q =
      if deduplication_stores_next_if_active candidate existing
      then store_next (job_deduplication_id candidate) candidate existing q
      else (false, q)

  abbrev pub store_flow : Option String → JobFlow F V → Job F V → JobQueue F V → Bool × JobQueue F V
  store_flow none candidate existing q = (false, q)
  store_flow (some id) candidate existing q = (
    true,
    record q {
      deduplication_next_flows = insert_at id candidate q.deduplication_next_flows;
      deduplication_next = erase id q.deduplication_next;
      jobs = unexpire existing.id (get existing.id q.jobs) q.jobs;
    },
  )

  unfoldable pub store_deduplicated_next_flow :
      JobFlow F V → Job F V → JobQueue F V → Bool × JobQueue F V
  unfolding deduplication_stores_next_flow_if_active job_deduplication_id
  store_deduplicated_next_flow candidate existing q =
      if deduplication_stores_next_flow_if_active candidate existing
      then store_flow (job_deduplication_id candidate.parent) candidate existing q
      else (false, q)

  -- The repeat count of the next job, `none` inside where the owner has no repeat key.
  abbrev pub next_count : Job F V → Job F V → Option String → Option (Option ℕ)
  next_count owner candidate none = some none
  next_count owner candidate (some key) =
      let count = min (owner.repeat_count + 1) 4294967295 in
      if not (same_option candidate.repeat_key (some key))
        || limit_reached owner.options.repeat count
      then none
      else some (some count)

  unfoldable pub repeat_keep_last_next_count : Job F V → Job F V → Option (Option ℕ)
  repeat_keep_last_next_count owner candidate = next_count owner candidate owner.repeat_key

  abbrev pub in_series : Job F V → Option ℕ → Job F V → Job F V
  in_series owner none next = next
  in_series owner (some count) next = record next {
    repeat_key = owner.repeat_key;
    repeat_count = count;
  }

  abbrev pub list_in : String → String → Option (Job F V) → JobQueue F V → JobQueue F V
  list_in id parent_id none q = q
  list_in id parent_id (some parent) q =
      write parent_id (record parent { child_ids = listed id parent.child_ids }) q

  -- The parent of the next job lists it.
  abbrev pub list_child : String → Option String → JobQueue F V → JobQueue F V
  list_child id none q = q
  list_child id (some parent_id) q = list_in id parent_id (get parent_id q.jobs) q

  abbrev pub any_stored : List (Job F V) → List (String × Job F V) → Bool
  any_stored [] jobs = false
  any_stored (child ∷ children) jobs = is_some (get child.id jobs) || any_stored children jobs

module _ (env : JobEnv) where
  open env use {F, V, string}

  abbrev pub after_delay : Option ℕ → ℕ → ℕ
  after_delay none now = now
  after_delay (some delay) now = add_duration env now delay

  unfoldable pub prepare_deduplicated_next_job : Job F V → ℕ → Job F V
  unfolding state_after_dependencies deduplication_expiration
  prepare_deduplicated_next_job job now =
      let scheduled_at = after_delay job.options.delay now in
      record job {
        created_at = now;
        scheduled_at = scheduled_at;
        state = state_after_dependencies scheduled_at now;
        attempts_made = 0;
        stalled_count = 0;
        processed_at = none;
        finished_at = none;
        worker_id = none;
        lock_token = none;
        lease_expires_at = none;
        deferred_failure = none;
        failed_reason = none;
        return_value = none;
        progress = none;
        logs = [];
        deduplication_expires_at = deduplication_expiration env job.options now;
      }

  abbrev pub prepared_child : String → ℕ → Job F V → Job F V
  prepared_child parent_id now child = record (prepare_deduplicated_next_job child now) {
    parent_id = some parent_id;
    child_ids = [];
  }

  abbrev pub prepared_parent : Job F V → List String → ℕ → Job F V
  prepared_parent parent ids now =
      let next = prepare_deduplicated_next_job parent now in
      record next { child_ids = ids; state = if no_ids ids then next.state else waiting_children }

  unfoldable pub prepare_deduplicated_next_flow : JobFlow F V → ℕ → JobFlow F V
  prepare_deduplicated_next_flow flow now = record {
    parent = prepared_parent flow.parent (map (λ (j : Job F V). j.id) flow.children) now;
    children = map (prepared_child flow.parent.id now) flow.children;
  }

  abbrev pub insert_next :
      Job F V → Job F V → ℕ → Option (Option ℕ) → JobQueue F V → Bool × JobQueue F V
  insert_next owner next now none q = (false, q)
  insert_next owner next now (some count) q =
      let job = in_series owner count (prepare_deduplicated_next_job next now) in
      if is_some (get next.id q.jobs)
      then (false, q)
      else (true, insert_job env job now (list_child next.id next.parent_id q))

  abbrev pub take_next :
      Job F V → String → ℕ → Option (Job F V) → JobQueue F V → Bool × JobQueue F V
  take_next owner id now none q = (false, q)
  take_next owner id now (some next) q =
      insert_next owner next now (repeat_keep_last_next_count owner next)
        (record q { deduplication_next = erase id q.deduplication_next })

  abbrev pub enqueue_for : Job F V → ℕ → Option String → JobQueue F V → Bool × JobQueue F V
  enqueue_for owner now none q = (false, q)
  enqueue_for owner now (some id) q = take_next owner id now (lookup id q.deduplication_next) q

  -- The Boolean says whether a job was inserted.
  unfoldable pub enqueue_deduplicated_next : Job F V → ℕ → JobQueue F V → Bool × JobQueue F V
  enqueue_deduplicated_next owner now q = enqueue_for owner now (job_deduplication_id owner) q

  abbrev pub insert_jobs : List (Job F V) → ℕ → JobQueue F V → JobQueue F V
  insert_jobs [] now q = q
  insert_jobs (job ∷ jobs) now q = insert_jobs jobs now (insert_job env job now q)

  abbrev pub take_flow : String → ℕ → Option (JobFlow F V) → JobQueue F V → Bool × JobQueue F V
  take_flow id now none q = (false, q)
  take_flow id now (some flow) q =
      let next = prepare_deduplicated_next_flow flow now in
      let q' : JobQueue F V = record q {
        deduplication_next_flows = erase id q.deduplication_next_flows;
      } in
      if is_some (get flow.parent.id q.jobs) || any_stored flow.children q.jobs
      then (false, q')
      else (true, insert_jobs next.children now (insert_job env next.parent now q'))

  abbrev pub enqueue_flow_for : ℕ → Option String → JobQueue F V → Bool × JobQueue F V
  enqueue_flow_for now none q = (false, q)
  enqueue_flow_for now (some id) q = take_flow id now (lookup id q.deduplication_next_flows) q

  unfoldable pub enqueue_deduplicated_next_flow : Job F V → ℕ → JobQueue F V → Bool × JobQueue F V
  enqueue_deduplicated_next_flow owner now q = enqueue_flow_for now (job_deduplication_id owner) q

  -- The next job where there is one, the next flow otherwise.
  abbrev pub or_flow : Job F V → ℕ → Bool × JobQueue F V → Bool × JobQueue F V
  or_flow owner now (true, q) = (true, q)
  or_flow owner now (false, q) = enqueue_deduplicated_next_flow owner now q

  abbrev pub enqueue_next : Job F V → ℕ → JobQueue F V → Bool × JobQueue F V
  enqueue_next owner now q = or_flow owner now (enqueue_deduplicated_next owner now q)
