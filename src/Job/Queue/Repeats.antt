-- ===== src/Job/Queue/Repeats.antt =====
-- src/job/memory.rs: the series of repeated jobs, `list_repeats`, `upsert_repeat`, `remove_repeat`.
use Prim.Native.String.{String, compare as compare_text}
use lane.Prelude.{
  ℕ, Bool, false, not, ◌||◌, Option, none, some, List, [], ◌∷◌, is_some, length, if◌then◌else◌,
}
use text.Mathlib.Text.{◌==◌ as str_eq}
use lane.Prelude.Sort.{sort_by}
use lane.Error.{Result, ok, err, ◌>>◌, config_error, job_state_conflict}
use lane.PriorityQueue.{then_with}
use lane.Job.{
  Job, JobEnv, JobSpec, JobState, RepeatOptions, repeat_required, empty_repeat_key, owner_in_flow,
  id_exists, deduplication_taken,
}
use lane.Job.Validate.{validate_job_options_at}
use lane.Job.Queue.{JobQueue, get, not_after, checked}
use lane.Job.Queue.Records.{job_deduplication_id, remove_job_record, placed, insert_job}
use lane.Job.Queue.Dedup.{
  active_repeat_key, find_active_repeat_key, find_active_deduplication_id, no_ids,
}
use lane.Job.Queue.Remove.{require_removable, remove_checked}
use lane.Job.Queue.Add.{created}

pub record JobRepeatEntry : Type 0 where
  pub key : String
  pub job_id : String
  pub name : String
  pub state : JobState
  pub scheduled_at : ℕ
  pub repeat_count : ℕ
  pub options : RepeatOptions

abbrev pub entry_before : JobRepeatEntry → JobRepeatEntry → Bool
entry_before a b = not_after (then_with (compare_text a.key b.key) (compare_text a.job_id b.job_id))

abbrev pub with_entry : Option JobRepeatEntry → List JobRepeatEntry → List JobRepeatEntry
with_entry none entries = entries
with_entry (some entry) entries = entry ∷ entries

module _ {F V : Type 0} where
  abbrev pub entry_for : Job F V → Option String → Option RepeatOptions → Option JobRepeatEntry
  entry_for job (some key) (some options) = some record {
    key = key;
    job_id = job.id;
    name = job.name;
    state = job.state;
    scheduled_at = job.scheduled_at;
    repeat_count = job.repeat_count;
    options = options;
  }
  entry_for job _ _ = none

  unfoldable pub repeat_entry : Job F V → Option JobRepeatEntry
  unfolding active_repeat_key
  repeat_entry job = entry_for job (active_repeat_key job) job.options.repeat

  abbrev pub repeat_entries : List (String × Job F V) → List JobRepeatEntry
  repeat_entries [] = []
  repeat_entries ((k, job) ∷ jobs) = with_entry (repeat_entry job) (repeat_entries jobs)

  unfoldable pub list_repeats : JobQueue F V → List JobRepeatEntry
  unfolding repeat_entry sort_by
  list_repeats q = sort_by entry_before (repeat_entries q.jobs)

  unfoldable pub count_repeats : JobQueue F V → ℕ
  unfolding list_repeats
  count_repeats q = length (list_repeats q)

  abbrev pub is_owner : Option (Job F V) → String → Bool
  is_owner none id = false
  is_owner (some owner) id = str_eq owner.id id

  abbrev pub remove_owner : Option (Job F V) → JobQueue F V → JobQueue F V
  remove_owner none q = q
  remove_owner (some owner) q = (remove_job_record owner.id q).1

module _ (env : JobEnv) where
  open env use {F, V, text}

  abbrev pub owner_replaceable : String → Option (Job F V) → Result (Unit {0})
  owner_replaceable key none = ok tt
  owner_replaceable key (some owner) =
      require_removable text owner
      >> (if is_some owner.parent_id || not (no_ids owner.child_ids)
          then err (job_state_conflict (text (owner_in_flow key owner.id)))
          else ok tt)

  abbrev pub id_available : String → Option (Job F V) → Option (Job F V) → Result (Unit {0})
  id_available id none owner = ok tt
  id_available id (some existing) owner =
      if is_owner owner existing.id then ok tt else err (config_error (text (id_exists id)))

  abbrev pub deduplication_free : String → Option (Job F V) → Option (Job F V) → Result (Unit {0})
  deduplication_free key none owner = ok tt
  deduplication_free key (some existing) owner =
      if is_owner owner existing.id
      then ok tt
      else err (job_state_conflict (text (deduplication_taken key existing.id)))

  abbrev pub holder : Option String → ℕ → JobQueue F V → Option (Job F V)
  holder none now q = none
  holder (some id) now q =
      find_active_deduplication_id q.jobs q.released_deduplication_owners id now

  abbrev pub finish_upsert :
      Result (Unit {0})
      → Job F V
      → ℕ
      → JobQueue F V
      → JobQueue F V
      → Result (Job F V) × JobQueue F V
  finish_upsert (err e) job now q removed = (err e, q)
  finish_upsert (ok u) job now q removed =
      (ok (placed removed.sequence job), insert_job env job now removed)

  abbrev pub upsert_owned :
      Job F V → String → ℕ → Option (Job F V) → JobQueue F V → Result (Job F V) × JobQueue F V
  upsert_owned job key now owner q =
      finish_upsert
        (owner_replaceable key owner
          >> id_available job.id (get job.id q.jobs) owner
          >> deduplication_free key (holder (job_deduplication_id job) now q) owner)
        job now q (remove_owner owner q)

  abbrev pub upsert_keyed :
      Job F V → ℕ → Option String → JobQueue F V → Result (Job F V) × JobQueue F V
  upsert_keyed job now none q = (err (config_error (text empty_repeat_key)), q)
  upsert_keyed job now (some key) q =
      if str_eq key ""
      then (err (config_error (text empty_repeat_key)), q)
      else upsert_owned job key now (find_active_repeat_key q.jobs key) q

  abbrev pub has_repeat : Option RepeatOptions → Result (Unit {0})
  has_repeat none = err (config_error (text repeat_required))
  has_repeat (some repeat) = ok tt

  unfoldable pub upsert_repeat :
      String → String → JobSpec F V → ℕ → JobQueue F V → Result (Job F V) × JobQueue F V
  unfolding validate_job_options_at find_active_repeat_key find_active_deduplication_id
      require_removable remove_job_record insert_job job_deduplication_id
  upsert_repeat queue uuid spec now q =
      let job = created env queue uuid spec now in
      checked (validate_job_options_at env spec.options now >> has_repeat spec.options.repeat) q
        (upsert_keyed job now job.repeat_key q)

  abbrev pub remove_found_repeat :
      ℕ → Option (Job F V) → JobQueue F V → Result (Option (Job F V)) × JobQueue F V
  remove_found_repeat now none q = (ok none, q)
  remove_found_repeat now (some owner) q = remove_checked env owner.id now (get owner.id q.jobs) q

  unfoldable pub remove_repeat :
      String → ℕ → JobQueue F V → Result (Option (Job F V)) × JobQueue F V
  unfolding find_active_repeat_key require_removable remove_job_record
  remove_repeat key now q = remove_found_repeat now (find_active_repeat_key q.jobs key) q
