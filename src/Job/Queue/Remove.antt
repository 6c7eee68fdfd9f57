-- ===== src/Job/Queue/Remove.antt =====
-- src/job/memory.rs: the operations that take jobs out of the queue.
use Prim.Native.Nat.{compare, Ordering}
use Prim.Native.String.{String, compare as compare_text}
use lane.Prelude.{
  ℕ, Bool, true, false, not, ◌&&◌, ◌||◌, Option, none, some, List, [], ◌∷◌, filter, take, length,
  leb, if◌then◌else◌, is_some, erase, erase_text, has_text, ◌==◌,
}
use lane.Prelude.Sort.{sort_by}
use lane.Error.{Result, ok, err, job_not_found, job_state_conflict, job_lease_conflict}
use lane.PriorityQueue.{then_with}
use lane.Job.{
  Job, JobEnv, JobState, waiting, delayed, active, same_state, state_rank, subtract_duration,
  not_removable, active_jobs, Message,
}
use lane.Job.Queue.{JobQueue, get, values, write, emit, not_after, str_eq}
use lane.Job.Queue.Records.{remove_job_record, emit_removed_event}
use lane.Job.Queue.Flow.{clear_child_dependency_side_index, has_child_dependency_side_index}
use lane.Job.Queue.Flow.Parents.{release_parent_if_ready}
use lane.Job.Queue.Dedup.{find_active_deduplication_id, is_delayed_repeat_owner}
use lane.Job.Queue.Finish.{release_parent}

abbrev pub or_time : Option ℕ → ℕ → ℕ
or_time none t = t
or_time (some s) t = s

module _ {F V : Type 0} where
  unfoldable pub require_removable : (Message → String) → Job F V → Result (Unit {0})
  require_removable text job =
      if same_state job.state active && is_some job.lock_token
      then err (job_lease_conflict (text (not_removable job.id)))
      else ok tt

  unfoldable pub job_reference_time : Job F V → ℕ
  job_reference_time job = or_time job.finished_at (or_time job.processed_at job.scheduled_at)

  unfoldable pub compare_list_order : Job F V → Job F V → Ordering
  compare_list_order a b = then_with (compare (state_rank a.state) (state_rank b.state)) (
      then_with (compare a.priority b.priority) (
        then_with (compare a.scheduled_at b.scheduled_at)
          (then_with (compare a.created_at b.created_at) (compare_text a.id b.id))))

  abbrev pub lists_before : Job F V → Job F V → Bool
  lists_before a b = not_after (compare_list_order a b)

  abbrev pub is_cleaned : JobState → ℕ → Job F V → Bool
  is_cleaned state cutoff job =
      same_state job.state state
      && leb (job_reference_time job) cutoff
      && (not (same_state state active) || not (is_some job.lock_token))

  abbrev pub cleaned_before : Job F V → Job F V → Bool
  cleaned_before a b =
      not_after
        (then_with (compare (job_reference_time a) (job_reference_time b)) (compare_text a.id b.id))

  unfoldable pub cleaned_jobs : JobState → ℕ → ℕ → JobQueue F V → List (Job F V)
  unfolding job_reference_time sort_by
  cleaned_jobs state cutoff limit q =
      take limit (sort_by cleaned_before (filter (is_cleaned state cutoff) (values q.jobs)))

  abbrev pub is_drained : Bool → List (String × Job F V) → Job F V → Bool
  is_drained include_delayed jobs job =
      same_state job.state waiting
      || (include_delayed && same_state job.state delayed && not (is_delayed_repeat_owner jobs job))

  unfoldable pub drained_jobs : Bool → JobQueue F V → List (Job F V)
  unfolding compare_list_order is_delayed_repeat_owner sort_by
  drained_jobs include_delayed q =
      sort_by lists_before (filter (is_drained include_delayed q.jobs) (values q.jobs))

  abbrev pub remove_jobs : List (Job F V) → JobQueue F V → JobQueue F V
  remove_jobs [] q = q
  remove_jobs (job ∷ jobs) q = remove_jobs jobs (remove_job_record job.id q).1

  abbrev pub any_active : List (Job F V) → Bool
  any_active [] = false
  any_active (job ∷ jobs) = same_state job.state active || any_active jobs

  abbrev pub obliterated : JobQueue F V → JobQueue F V
  obliterated q = record q {
    paused = false;
    jobs = [];
    flow_dependencies = [];
    deduplication_next = [];
    deduplication_next_flows = [];
    released_deduplication_owners = [];
  }

  unfoldable pub obliterate : (Message → String) → Bool → JobQueue F V → Result ℕ × JobQueue F V
  obliterate text force q =
      if any_active (values q.jobs) && not force
      then (err (job_state_conflict (text active_jobs)), record q { paused = true })
      else (ok (length q.jobs), obliterated q)

  abbrev pub release_owner : String → Option (Job F V) → JobQueue F V → Bool × JobQueue F V
  release_owner id none q = (false, q)
  release_owner id (some owner) q = (
    true,
    record q {
      released_deduplication_owners = (id, owner.id) ∷ q.released_deduplication_owners;
      deduplication_next = erase id q.deduplication_next;
      deduplication_next_flows = erase id q.deduplication_next_flows;
    },
  )

  unfoldable pub remove_deduplication_key : String → ℕ → JobQueue F V → Bool × JobQueue F V
  unfolding find_active_deduplication_id
  remove_deduplication_key id now q =
      if str_eq id ""
      then (false, q)
      else release_owner id
          (find_active_deduplication_id q.jobs q.released_deduplication_owners id now) q

module _ (env : JobEnv) where
  open env use {F, V, text, number}

  abbrev pub removed_events : Job F V → ℕ → JobQueue F V → JobQueue F V
  removed_events job now q = emit_removed_event job now (release_parent env job.parent_id now q)

  abbrev pub remove_if :
      Result (Unit {0})
      → Job F V
      → String
      → ℕ
      → JobQueue F V
      → Result (Option (Job F V)) × JobQueue F V
  remove_if (err e) job id now q = (err e, q)
  remove_if (ok u) job id now q = (ok (some job), removed_events job now (remove_job_record id q).1)

  abbrev pub remove_checked :
      String → ℕ → Option (Job F V) → JobQueue F V → Result (Option (Job F V)) × JobQueue F V
  remove_checked id now none q = (ok none, q)
  remove_checked id now (some job) q = remove_if (require_removable text job) job id now q

  -- The look-up, the guard and the removal see the same job, so it is looked up once.
  unfoldable pub remove : String → ℕ → JobQueue F V → Result (Option (Job F V)) × JobQueue F V
  unfolding require_removable remove_job_record emit_removed_event
  remove id now q = remove_checked id now (get id q.jobs) q

  abbrev pub release_parents : List (Job F V) → ℕ → JobQueue F V → JobQueue F V
  release_parents [] now q = q
  release_parents (job ∷ jobs) now q =
      release_parents jobs now (release_parent env job.parent_id now q)

  unfoldable pub clean : JobState → ℕ → ℕ → ℕ → JobQueue F V → List (Job F V) × JobQueue F V
  unfolding cleaned_jobs emit remove_job_record
  clean state grace limit now q =
      let jobs = cleaned_jobs state (subtract_duration env now grace) limit q in
      if limit == 0 then ([], q) else (
        jobs,
        emit "cleaned" none none now (("count", number (length jobs)) ∷ [])
            (release_parents jobs now (remove_jobs jobs q)),
      )

  unfoldable pub drain : Bool → ℕ → JobQueue F V → List (Job F V) × JobQueue F V
  unfolding drained_jobs remove_job_record
  drain include_delayed now q =
      let jobs = drained_jobs include_delayed q in
      (jobs, release_parents jobs now (remove_jobs jobs q))

  abbrev pub orphaned : Job F V → Job F V
  orphaned child = record child { parent_id = none }

  abbrev pub orphan : String → Option (Job F V) → JobQueue F V → JobQueue F V
  orphan child none q = q
  orphan child (some job) q = write child (orphaned job) q

  abbrev pub unlist : String → String → Job F V → JobQueue F V → JobQueue F V
  unlist parent_id child parent q =
      clear_child_dependency_side_index parent_id child
        (write parent_id (record parent { child_ids = erase_text child parent.child_ids }) q)

  abbrev pub remove_from :
      String → String → ℕ → Option (Job F V) → JobQueue F V → Result Bool × JobQueue F V
  remove_from child parent_id now none q = (err (job_not_found parent_id), q)
  remove_from child parent_id now (some parent) q =
      let unlisted = unlist parent_id child parent q in
      if has_text child parent.child_ids || has_child_dependency_side_index parent_id child q
      then (
        ok true,
        release_parent_if_ready env parent_id now (orphan child (get child unlisted.jobs) unlisted),
      )
      else (ok false, q)

  abbrev pub remove_child : String → ℕ → Option String → JobQueue F V → Result Bool × JobQueue F V
  remove_child child now none q = (ok false, q)
  remove_child child now (some parent_id) q =
      remove_from child parent_id now (get parent_id q.jobs) q

  abbrev pub remove_child_of :
      String → ℕ → Option (Job F V) → JobQueue F V → Result Bool × JobQueue F V
  remove_child_of child now none q = (err (job_not_found child), q)
  remove_child_of child now (some job) q = remove_child child now job.parent_id q

  unfoldable pub remove_child_dependency : String → ℕ → JobQueue F V → Result Bool × JobQueue F V
  unfolding clear_child_dependency_side_index has_child_dependency_side_index
      release_parent_if_ready
  remove_child_dependency child now q = remove_child_of child now (get child q.jobs) q
