-- ===== src/Job/Queue/Add.antt =====
-- src/job/memory.rs: `add_at` and `add_many_at`, and the events of deduplication. A job's fresh UUID
-- is an argument.
use Prim.Native.String.{String}
use lane.Prelude.{ℕ, Option, none, some, List, [], ◌∷◌, map, if◌then◌else◌}
use lane.Error.{Result, ok, err, ◌>>◌}
use lane.Job.{Job, JobEnv, JobSpec, new}
use lane.Job.Validate.{validate_job_options_at}
use lane.Job.Queue.{JobQueue, get, emit}
use lane.Job.Queue.Records.{
  job_deduplication_id, remove_job_record, emit_removed_event, insert_job, placed,
}
use lane.Job.Queue.Dedup.{
  find_active_deduplicated_job, find_active_repeat_job, deduplication_replaces_delayed_owner,
  deduplication_duplicate_emits_events, preserve_replacement_deduplication_expiration,
  extend_deduplication_expiration,
}
use lane.Job.Queue.Dedup.Next.{store_deduplicated_next}

module _ (env : JobEnv) where
  open env use {F, V, string, series}

  -- The answer of an addition and the queue after it.
  abbrev pub Added : Type 0
  Added = Job F V × JobQueue F V

  unfoldable pub emit_deduplication_events :
      Job F V → String → String → ℕ → JobQueue F V → JobQueue F V
  unfolding emit
  emit_deduplication_events job deduplication_id deduplicated_job_id now q =
      emit "deduplicated" (some job.id) none now
        (("deduplicationId", string deduplication_id)
          ∷ ("deduplicatedJobId", string deduplicated_job_id)
          ∷ [])
        (emit "debounced" (some job.id) none now (("debounceId", string deduplication_id) ∷ []) q)

  abbrev pub emit_for : Option String → Job F V → String → ℕ → JobQueue F V → JobQueue F V
  emit_for none job other now q = q
  emit_for (some id) job other now q = emit_deduplication_events job id other now q

  unfoldable pub emit_deduplicated_events : Job F V → Job F V → ℕ → JobQueue F V → JobQueue F V
  unfolding emit_deduplication_events job_deduplication_id
  emit_deduplicated_events owner candidate now q =
      emit_for (job_deduplication_id candidate) owner candidate.id now q

  unfoldable pub emit_replaced_deduplicated_owner_events :
      Job F V → Job F V → ℕ → JobQueue F V → JobQueue F V
  unfolding emit_deduplication_events job_deduplication_id
  emit_replaced_deduplicated_owner_events replacement removed now q =
      emit_for (job_deduplication_id replacement) replacement removed.id now q

  abbrev pub stored_or : Job F V → Option (Job F V) → Job F V
  stored_or existing none = existing
  stored_or existing (some job) = job

  abbrev pub or_insert : Job F V → ℕ → JobQueue F V → Option (Job F V) → Added
  or_insert job now q none = (placed q.sequence job, insert_job env job now q)
  or_insert job now q (some existing) = (existing, q)

  -- The end of an addition: the owner of the repeat key, or the new job.
  abbrev pub add_unique : Job F V → ℕ → JobQueue F V → Added
  add_unique job now q = or_insert job now q (find_active_repeat_job q.jobs job)

  abbrev pub replaced_events : Job F V → ℕ → Option (Job F V) × JobQueue F V → JobQueue F V
  replaced_events job now (none, q) = q
  replaced_events job now (some removed, q) =
      emit_replaced_deduplicated_owner_events job removed now (emit_removed_event removed now q)

  abbrev pub replace_owner : Job F V → Job F V → ℕ → JobQueue F V → Added
  replace_owner job existing now q =
      let job' = preserve_replacement_deduplication_expiration job existing in
      add_unique job' now (replaced_events job' now (remove_job_record existing.id q))

  abbrev pub keep_owner : Job F V → Job F V → ℕ → JobQueue F V → Added
  keep_owner job existing now q =
      let extended =
        extend_deduplication_expiration env job existing.id now
          (store_deduplicated_next job existing q).1 in
      let told =
        if deduplication_duplicate_emits_events job existing
        then emit_deduplicated_events existing job now extended
        else extended in
      (stored_or existing (get existing.id told.jobs), told)

  abbrev pub add_owned : Job F V → ℕ → JobQueue F V → Option (Job F V) → Added
  add_owned job now q none = add_unique job now q
  add_owned job now q (some existing) =
      if deduplication_replaces_delayed_owner job existing
      then replace_owner job existing now q
      else keep_owner job existing now q

  abbrev pub or_add : Job F V → ℕ → JobQueue F V → Option (Job F V) → Added
  or_add job now q none =
      add_owned job now q
        (find_active_deduplicated_job q.jobs q.released_deduplication_owners job now)
  or_add job now q (some existing) = (existing, q)

  unfoldable pub add_created : Job F V → ℕ → JobQueue F V → Added
  unfolding find_active_deduplicated_job find_active_repeat_job deduplication_replaces_delayed_owner
      preserve_replacement_deduplication_expiration extend_deduplication_expiration
      store_deduplicated_next deduplication_duplicate_emits_events emit_deduplicated_events
      emit_replaced_deduplicated_owner_events emit_removed_event remove_job_record insert_job
  add_created job now q = or_add job now q (get job.id q.jobs)

  abbrev pub created : String → String → JobSpec F V → ℕ → Job F V
  created queue uuid spec now =
      new env queue spec.name (series queue spec.name) uuid spec.payload spec.options now

  abbrev pub valid_or :
      {A : Type 0} → Result (Unit {0}) → JobQueue F V → A × JobQueue F V → Result A × JobQueue F V
  valid_or (err e) q done = (err e, q)
  valid_or (ok u) q (a, done) = (ok a, done)

  unfoldable pub add :
      String → String → JobSpec F V → ℕ → JobQueue F V → Result (Job F V) × JobQueue F V
  unfolding add_created new validate_job_options_at
  add queue uuid spec now q =
      valid_or (validate_job_options_at env spec.options now) q
        (add_created (created queue uuid spec now) now q)

  abbrev pub validate_all : List (String × JobSpec F V) → ℕ → Result (Unit {0})
  validate_all [] now = ok tt
  validate_all ((uuid, spec) ∷ specs) now =
      validate_job_options_at env spec.options now >> validate_all specs now

  abbrev pub add_each : List (Job F V) → ℕ → JobQueue F V → List (Job F V) × JobQueue F V
  add_each [] now q = ([], q)
  add_each (job ∷ jobs) now q =
      let added = add_created job now q in
      let rest = add_each jobs now added.1 in (added.0 ∷ rest.0, rest.1)

  -- Each specification comes with the fresh UUID of its job.
  unfoldable pub add_many :
      String
      → List (String × JobSpec F V)
      → ℕ
      → JobQueue F V
      → Result (List (Job F V)) × JobQueue F V
  unfolding add_created new validate_job_options_at
  add_many queue specs now q =
      valid_or (validate_all specs now) q
        (add_each (map (λ (s : String × JobSpec F V). created queue s.0 s.1 now) specs) now q)
