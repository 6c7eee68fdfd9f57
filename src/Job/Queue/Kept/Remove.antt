-- ===== src/Job/Queue/Kept/Remove.antt =====
-- Removals, retries and the recovery of stalled jobs keep each `Kept` property of the map.
use Prim.Native.String.{String}
use lane.Prelude.{
  ℕ, ◌≡◌, refl, arith, Bool, false, Option, none, some, List, [], ◌∷◌, has_text, ◌==◌, ◌||◌, length,
}
use lane.Error.{Result, ok, err}
use lane.Job.{Job, JobEnv, JobState, Message, subtract_duration}
use lane.Job.Queue.{JobQueue, get, emit, str_eq}
use lane.Job.Queue.Records.{remove_job_record, emit_removed_event}
use lane.Job.Queue.Flow.{clear_child_dependency_side_index, has_child_dependency_side_index}
use lane.Job.Queue.Remove.{
  remove, remove_checked, require_removable, remove_jobs, release_parents, clean, drain, obliterate,
  remove_deduplication_key, release_owner, orphan, unlist, remove_from, remove_child,
  remove_child_of, remove_child_dependency, remove_if, cleaned_jobs, drained_jobs,
}
use lane.Job.Queue.Children.{
  remove_each, remove_event, remove_children, remove_unprocessed_children, collect, collected_ids,
}
use lane.Job.Queue.Retry.{retry, retried, restore_parent}
use lane.Job.Queue.Kept.{
  Jobs, Kept, result_if-kept, checked-kept, with_job-kept, remove_job_record-kept,
}
use lane.Job.Queue.Kept.Parents.{release_parent-kept, restore_parent-kept}
use lane.Job.Queue.Kept.Finish.{release-kept}

module _ {F V : Type 0} (I : Jobs F V → Type 0) (kept : Kept I) where
  remove_jobs-kept :
      (jobs : List (Job F V)) (q : JobQueue F V) → I q.jobs → I (remove_jobs jobs q).jobs
  remove_jobs-kept [] q v = v
  remove_jobs-kept (job ∷ jobs) q v =
      remove_jobs-kept jobs _ (remove_job_record-kept I kept job.id q v)

  remove_event-kept :
      (now : ℕ) (r : Option (Job F V) × JobQueue F V) → I r.1.jobs → I (remove_event now r).jobs
  unfolding emit_removed_event emit
  remove_event-kept now (none, q) v = v
  remove_event-kept now (some job, q) v = v

  remove_each-kept :
      (now : ℕ) (ids : List String) (q : JobQueue F V) → I q.jobs → I (remove_each now ids q).1.jobs
  unfolding remove_each
  remove_each-kept now [] q v = v
  remove_each-kept now (id ∷ ids) q v =
      remove_each-kept now ids _
        (remove_event-kept now (remove_job_record id q) (remove_job_record-kept I kept id q v))

  pub obliterate-kept :
      (text : Message → String) (force : Bool) (q : JobQueue F V)
      → I []
      → I q.jobs
      → I (obliterate text force q).1.jobs
  unfolding obliterate
  obliterate-kept text force q n v = ground arith

  release_owner-kept :
      (id : String) (o : Option (Job F V)) (q : JobQueue F V)
      → I q.jobs
      → I (release_owner id o q).1.jobs
  release_owner-kept id none q v = v
  release_owner-kept id (some owner) q v = v

  pub remove_deduplication_key-kept :
      (id : String) (now : ℕ) (q : JobQueue F V)
      → I q.jobs
      → I (remove_deduplication_key id now q).1.jobs
  unfolding remove_deduplication_key
  remove_deduplication_key-kept id now q v =
      result_if-kept I (str_eq id "") (false, q) _ v (release_owner-kept id _ q v)

module _ (env : JobEnv) (I : Jobs env.F env.V → Type 0) (kept : Kept I) where
  open env use {F, V, text}

  orphan-kept :
      (child : String) (o : Option (Job F V)) (q : JobQueue F V)
      → get child q.jobs ≡ o
      → I q.jobs
      → I (orphan env child o q).jobs
  orphan-kept child none q e v = v
  orphan-kept child (some job) q e v =
      kept.same child job _ q.jobs e
        (record { id = refl; state = refl; token = refl; lease = refl; worker = refl }) v

  unlist-kept :
      (parent_id child : String) (parent : Job F V) (q : JobQueue F V)
      → get parent_id q.jobs ≡ some parent
      → I q.jobs
      → I (unlist env parent_id child parent q).jobs
  unfolding clear_child_dependency_side_index
  unlist-kept parent_id child parent q e v =
      kept.same parent_id parent _ q.jobs e
        (record { id = refl; state = refl; token = refl; lease = refl; worker = refl }) v

  restore-kept :
      (o : Option String) (id : String) (now : ℕ) (q : JobQueue F V)
      → I q.jobs
      → I (restore_parent env o id now q).jobs
  restore-kept none id now q v = v
  restore-kept (some parent) id now q v = restore_parent-kept I kept parent id now q v

  remove_if-kept :
      (g : Result (Unit {0})) (job : Job F V) (id : String) (now : ℕ) (q : JobQueue F V)
      → I q.jobs
      → I (remove_if env g job id now q).1.jobs
  unfolding emit_removed_event emit
  remove_if-kept (err e) job id now q v = v
  remove_if-kept (ok u) job id now q v =
      release-kept env I kept job.parent_id now _ (remove_job_record-kept I kept id q v)

  pub remove_checked-kept :
      (id : String) (now : ℕ) (o : Option (Job F V)) (q : JobQueue F V)
      → I q.jobs
      → I (remove_checked env id now o q).1.jobs
  remove_checked-kept id now none q v = v
  remove_checked-kept id now (some job) q v =
      remove_if-kept (require_removable text job) job id now q v

  pub remove-kept :
      (id : String) (now : ℕ) (q : JobQueue F V) → I q.jobs → I (remove env id now q).1.jobs
  unfolding remove
  remove-kept id now q v = remove_checked-kept id now (get id q.jobs) q v

  release_parents-kept :
      (jobs : List (Job F V)) (now : ℕ) (q : JobQueue F V)
      → I q.jobs
      → I (release_parents env jobs now q).jobs
  release_parents-kept [] now q v = v
  release_parents-kept (job ∷ jobs) now q v =
      release_parents-kept jobs now _ (release-kept env I kept job.parent_id now q v)

  remove_together-kept :
      (jobs : List (Job F V)) (now : ℕ) (q : JobQueue F V)
      → I q.jobs
      → I (release_parents env jobs now (remove_jobs jobs q)).jobs
  remove_together-kept jobs now q v =
      release_parents-kept jobs now (remove_jobs jobs q) (remove_jobs-kept I kept jobs q v)

  pub clean-kept :
      (state : JobState) (grace limit now : ℕ) (q : JobQueue F V)
      → I q.jobs
      → I (clean env state grace limit now q).1.jobs
  unfolding clean emit
  clean-kept state grace limit now q v =
      result_if-kept I (limit == 0) ([], q) _ v
        (remove_together-kept (cleaned_jobs state (subtract_duration env now grace) limit q) now q
          v)

  pub drain-kept :
      (include_delayed : Bool) (now : ℕ) (q : JobQueue F V)
      → I q.jobs
      → I (drain env include_delayed now q).1.jobs
  unfolding drain
  drain-kept include_delayed now q v = remove_together-kept (drained_jobs include_delayed q) now q v

  remove_children-kept :
      (id : String) (now : ℕ) (o : Option (Job F V)) (q : JobQueue F V)
      → I q.jobs
      → I (remove_children env id now o q).1.jobs
  remove_children-kept id now none q v = v
  remove_children-kept id now (some parent) q v =
      let ids = collected_ids (collect (length q.jobs) q.jobs parent.child_ids ([], [])) in
      release_parent-kept env I kept id now (remove_each now ids q).1
        (remove_each-kept I kept now ids q v)

  pub remove_unprocessed_children-kept :
      (id : String) (now : ℕ) (q : JobQueue F V)
      → I q.jobs
      → I (remove_unprocessed_children env id now q).1.jobs
  unfolding remove_unprocessed_children
  remove_unprocessed_children-kept id now q v = remove_children-kept id now (get id q.jobs) q v

  remove_from-kept :
      (child parent_id : String) (now : ℕ) (o : Option (Job F V)) (q : JobQueue F V)
      → get parent_id q.jobs ≡ o
      → I q.jobs
      → I (remove_from env child parent_id now o q).1.jobs
  remove_from-kept child parent_id now none q e v = v
  remove_from-kept child parent_id now (some parent) q e v =
      result_if-kept I
        (has_text child parent.child_ids || has_child_dependency_side_index parent_id child q) _
        (ok false, q)
        (release_parent-kept env I kept parent_id now _
          (orphan-kept child _ _ refl (unlist-kept parent_id child parent q e v)))
        v

  remove_child_of-kept :
      (child : String) (now : ℕ) (o : Option (Job F V)) (q : JobQueue F V)
      → I q.jobs
      → I (remove_child_of env child now o q).1.jobs
  remove_child_of-kept child now none q v = v
  remove_child_of-kept child now (some job) q v = child-kept job.parent_id
    where
      child-kept : (o : Option String) → I (remove_child env child now o q).1.jobs
      child-kept none = v
      child-kept (some parent_id) = remove_from-kept child parent_id now _ q refl v

  pub remove_child_dependency-kept :
      (child : String) (now : ℕ) (q : JobQueue F V)
      → I q.jobs
      → I (remove_child_dependency env child now q).1.jobs
  unfolding remove_child_dependency
  remove_child_dependency-kept child now q v = remove_child_of-kept child now (get child q.jobs) q v

  pub retry-kept :
      (id : String) (now : ℕ) (q : JobQueue F V) → I q.jobs → I (retry env id now q).1.jobs
  unfolding retry emit
  retry-kept id now q v = with_job-kept I id q _ v (λ job e. checked-kept I _ q _ v (
      restore-kept job.parent_id id now _ (
        kept.idled id job (retried env _ now job) q.jobs e refl
          (record { inactive = refl; token = refl; lease = refl; worker = refl }) v)))
