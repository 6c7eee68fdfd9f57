-- ===== src/Job/Queue/Kept/Add.antt =====
-- Additions keep each `Kept` property of the map.
use Prim.Native.String.{String}
use lane.Prelude.{ℕ, ◌≡◌, refl, arith, Option, none, some, List, [], ◌∷◌, All, map}
use lane.Error.{Result, ok, err}
use lane.Job.{Job, JobEnv, JobSpec, new}
use lane.Job.Queue.{JobQueue, get, emit}
use lane.Job.Queue.Records.{job_deduplication_id, remove_job_record, emit_removed_event}
use lane.Job.Queue.Dedup.{
  extend_found, extend_deduplication_expiration, preserve_replacement_deduplication_expiration,
  deduplication_replaces_delayed_owner, deduplication_duplicate_emits_events,
}
use lane.Job.Queue.Dedup.Next.{store_deduplicated_next}
use lane.Job.Queue.Add.{
  emit_deduplication_events, emit_for, emit_deduplicated_events,
  emit_replaced_deduplicated_owner_events, validate_all, or_insert, replaced_events, replace_owner,
  keep_owner, add_owned, or_add, add_created, created, valid_or, add, add_each, add_many,
}
use lane.Job.Queue.Kept.{
  Jobs, Kept, Idle, if-kept, result_if-kept, remove_job_record-kept, insert_job-kept,
}
use lane.Job.Queue.Kept.Next.{store_deduplicated_next-kept}

module _ (env : JobEnv) where
  open env use {F, V}

  pub created-Idle :
      (queue uuid : String) (spec : JobSpec F V) (now : ℕ) → Idle (created env queue uuid spec now)
  unfolding new
  created-Idle queue uuid spec now = record {
    inactive = ground arith;
    token = refl;
    lease = refl;
    worker = refl;
  }

  created-All :
      (queue : String) (specs : List (String × JobSpec F V)) (now : ℕ)
      → All Idle (map (λ (s : String × JobSpec F V). created env queue s.0 s.1 now) specs)
  created-All queue [] now = tt
  created-All queue ((uuid, spec) ∷ specs) now =
      (created-Idle queue uuid spec now, created-All queue specs now)

module _ (env : JobEnv) (I : Jobs env.F env.V → Type 0) (kept : Kept I) where
  open env use {F, V}

  emit_for-kept :
      (o : Option String) (job : Job F V) (other : String) (now : ℕ) (q : JobQueue F V)
      → I q.jobs
      → I (emit_for env o job other now q).jobs
  unfolding emit_deduplication_events emit
  emit_for-kept none job other now q v = v
  emit_for-kept (some id) job other now q v = v

  extend_found-kept :
      (id : String) (candidate : Job F V) (now : ℕ) (o : Option (Job F V)) (q : JobQueue F V)
      → get id q.jobs ≡ o
      → I q.jobs
      → I (extend_found env id candidate now o q).jobs
  extend_found-kept id candidate now none q e v = v
  extend_found-kept id candidate now (some existing) q e v =
      kept.same id existing _ q.jobs e
        (record { id = refl; state = refl; token = refl; lease = refl; worker = refl }) v

  pub extend-kept :
      (candidate : Job F V) (id : String) (now : ℕ) (q : JobQueue F V)
      → I q.jobs
      → I (extend_deduplication_expiration env candidate id now q).jobs
  unfolding extend_deduplication_expiration
  extend-kept candidate id now q v =
      if-kept I _ _ q (extend_found-kept id candidate now (get id q.jobs) q refl v) v

  or_insert-kept :
      (job : Job F V) (now : ℕ) (q : JobQueue F V) (o : Option (Job F V))
      → Idle job
      → I q.jobs
      → I (or_insert env job now q o).1.jobs
  or_insert-kept job now q none i v = insert_job-kept env I kept job now q i v
  or_insert-kept job now q (some existing) i v = v

  replaced_events-kept :
      (job : Job F V) (now : ℕ) (r : Option (Job F V) × JobQueue F V)
      → I r.1.jobs
      → I (replaced_events env job now r).jobs
  unfolding emit_replaced_deduplicated_owner_events emit_removed_event emit
  replaced_events-kept job now (none, q) v = v
  replaced_events-kept job now (some removed, q) v =
      emit_for-kept (job_deduplication_id job) job removed.id now _ v

  preserved-Idle :
      (job existing : Job F V)
      → Idle job
      → Idle (preserve_replacement_deduplication_expiration job existing)
  unfolding preserve_replacement_deduplication_expiration
  preserved-Idle job existing i = record {
    inactive = i.inactive;
    token = i.token;
    lease = i.lease;
    worker = i.worker;
  }

  replace_owner-kept :
      (job existing : Job F V) (now : ℕ) (q : JobQueue F V)
      → Idle job
      → I q.jobs
      → I (replace_owner env job existing now q).1.jobs
  replace_owner-kept job existing now q i v =
      let job' = preserve_replacement_deduplication_expiration job existing in
      or_insert-kept job' now (replaced_events env job' now (remove_job_record existing.id q)) _
        (preserved-Idle job existing i)
        (replaced_events-kept job' now (remove_job_record existing.id q)
          (remove_job_record-kept I kept existing.id q v))

  keep_owner-kept :
      (job existing : Job F V) (now : ℕ) (q : JobQueue F V)
      → I q.jobs
      → I (keep_owner env job existing now q).1.jobs
  unfolding emit_deduplicated_events
  keep_owner-kept job existing now q v =
      let q' =
        extend_deduplication_expiration env job existing.id now
          (store_deduplicated_next job existing q).1 in
      let w : I q'.jobs =
        extend-kept job existing.id now _ (store_deduplicated_next-kept I kept job existing q v) in
      if-kept I (deduplication_duplicate_emits_events job existing) _ q'
        (emit_for-kept (job_deduplication_id job) existing job.id now q' w) w

  add_owned-kept :
      (job : Job F V) (now : ℕ) (q : JobQueue F V) (o : Option (Job F V))
      → Idle job
      → I q.jobs
      → I (add_owned env job now q o).1.jobs
  add_owned-kept job now q none i v = or_insert-kept job now q _ i v
  add_owned-kept job now q (some existing) i v =
      result_if-kept I (deduplication_replaces_delayed_owner job existing)
        (replace_owner env job existing now q) (keep_owner env job existing now q)
        (replace_owner-kept job existing now q i v) (keep_owner-kept job existing now q v)

  or_add-kept :
      (job : Job F V) (now : ℕ) (q : JobQueue F V) (o : Option (Job F V))
      → Idle job
      → I q.jobs
      → I (or_add env job now q o).1.jobs
  or_add-kept job now q none i v = add_owned-kept job now q _ i v
  or_add-kept job now q (some existing) i v = v

  pub add_created-kept :
      (job : Job F V) (now : ℕ) (q : JobQueue F V)
      → Idle job
      → I q.jobs
      → I (add_created env job now q).1.jobs
  unfolding add_created
  add_created-kept job now q i v = or_add-kept job now q (get job.id q.jobs) i v

  valid_or-kept :
      {A : Type 0} (g : Result (Unit {0})) (q : JobQueue F V) (done : A × JobQueue F V)
      → I q.jobs
      → I done.1.jobs
      → I (valid_or env g q done).1.jobs
  valid_or-kept (err e) q done v w = v
  valid_or-kept (ok u) q (a, done) v w = w

  pub add-kept :
      (queue uuid : String) (spec : JobSpec F V) (now : ℕ) (q : JobQueue F V)
      → I q.jobs
      → I (add env queue uuid spec now q).1.jobs
  unfolding add
  add-kept queue uuid spec now q v =
      valid_or-kept _ q (add_created env (created env queue uuid spec now) now q) v
        (add_created-kept _ now q (created-Idle env queue uuid spec now) v)

  add_each-kept :
      (jobs : List (Job F V)) (now : ℕ) (q : JobQueue F V)
      → All Idle jobs
      → I q.jobs
      → I (add_each env jobs now q).1.jobs
  add_each-kept [] now q i v = v
  add_each-kept (job ∷ jobs) now q i v =
      add_each-kept jobs now _ i.1 (add_created-kept job now q i.0 v)

  pub add_many-kept :
      (queue : String) (specs : List (String × JobSpec F V)) (now : ℕ) (q : JobQueue F V)
      → I q.jobs
      → I (add_many env queue specs now q).1.jobs
  unfolding add_many
  add_many-kept queue specs now q v =
      let jobs = map (λ (s : String × JobSpec F V). created env queue s.0 s.1 now) specs in
      valid_or-kept (validate_all env specs now) q (add_each env jobs now q) v
        (add_each-kept jobs now q (created-All env queue specs now) v)
