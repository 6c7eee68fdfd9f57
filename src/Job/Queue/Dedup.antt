-- ===== src/Job/Queue/Dedup.antt =====
-- src/job/memory.rs: which jobs own a deduplication id or a repeat key. Where several own one, the
-- first in the order of the map is found.
pub mod Next
use Prim.Native.String.{String}
use lane.Prelude.{
  ℕ, ◌+◌, Bool, true, false, not, ◌&&◌, ◌||◌, Option, none, some, List, [], ◌∷◌, leb, min, is_some,
  if◌then◌else◌, same_option, has_pair,
}
use text.Mathlib.Text.{◌==◌ as str_eq}
use lane.Job.{
  Job, JobFlow, JobEnv, delayed, active, same_state, is_terminal, DeduplicationOptions,
  RepeatOptions, deduplication_expiration,
}
use lane.Job.Queue.{JobQueue, get, write}
use lane.Job.Queue.Records.{job_deduplication_id, emit_removed_event}

-- `matches!(time, Some(time) if time <= now)`
abbrev pub reached : Option ℕ → ℕ → Bool
reached none now = false
reached (some time) now = leb time now

abbrev pub replaces : Option DeduplicationOptions → Bool
replaces none = false
replaces (some d) = d.replace

abbrev pub keeps_last : Option DeduplicationOptions → Bool
keeps_last none = false
keeps_last (some d) = d.keep_last_if_active

abbrev extends : Option DeduplicationOptions → Bool
extends none = false
extends (some d) = d.extend && is_some d.ttl && not d.keep_last_if_active

abbrev has_ttl : Option DeduplicationOptions → Bool
has_ttl none = false
has_ttl (some d) = is_some d.ttl

abbrev pub no_ids : List String → Bool
no_ids [] = true
no_ids (id ∷ ids) = false

-- `limit` is reached by the count of the next occurrence.
abbrev pub limit_reached : Option RepeatOptions → ℕ → Bool
limit_reached none count = false
limit_reached (some repeat) count = reached repeat.limit count

abbrev pub emits : Option DeduplicationOptions → Bool → Bool
emits none stores = false
emits (some d) stores = not d.replace || stores

module _ {F V : Type 0} where
  unfoldable pub active_deduplication_id : Job F V → ℕ → Option String
  unfolding job_deduplication_id is_terminal
  active_deduplication_id job now =
      if reached job.deduplication_expires_at now
        || (is_terminal job.state && not (is_some job.deduplication_expires_at))
      then none
      else job_deduplication_id job

  -- `values().find`
  abbrev pub find_job : (Job F V → Bool) → List (String × Job F V) → Option (Job F V)
  find_job p [] = none
  find_job p ((k, job) ∷ jobs) = if p job then some job else find_job p jobs

  abbrev pub owns : List (String × String) → String → ℕ → Job F V → Bool
  owns released id now job =
      same_option (active_deduplication_id job now) (some id)
      && not (has_pair (id, job.id) released)

  unfoldable pub find_active_deduplication_id :
      List (String × Job F V) → List (String × String) → String → ℕ → Option (Job F V)
  find_active_deduplication_id jobs released id now = find_job (owns released id now) jobs

  unfoldable pub find_active_deduplication_id_except :
      List (String × Job F V) → List (String × String) → String → String → ℕ → Option (Job F V)
  find_active_deduplication_id_except jobs released id excluded now =
      find_job (λ job. not (str_eq job.id excluded) && owns released id now job) jobs

  abbrev pub find_owner :
      List (String × Job F V) → List (String × String) → ℕ → Option String → Option (Job F V)
  find_owner jobs released now none = none
  find_owner jobs released now (some id) = find_active_deduplication_id jobs released id now

  unfoldable pub find_active_deduplicated_job :
      List (String × Job F V) → List (String × String) → Job F V → ℕ → Option (Job F V)
  find_active_deduplicated_job jobs released candidate now =
      find_owner jobs released now (active_deduplication_id candidate now)

  unfoldable pub deduplication_replaces_delayed_owner : Job F V → Job F V → Bool
  deduplication_replaces_delayed_owner candidate existing =
      replaces candidate.options.deduplication
      && same_state existing.state delayed
      && not (is_some candidate.repeat_key)
      && not (is_some existing.parent_id)
      && no_ids existing.child_ids
      && not (is_some existing.repeat_key)

  unfoldable pub deduplication_stores_next_if_active : Job F V → Job F V → Bool
  deduplication_stores_next_if_active candidate existing =
      keeps_last candidate.options.deduplication
      && same_state existing.state active
      && no_ids candidate.child_ids
      && same_option candidate.repeat_key existing.repeat_key

  unfoldable pub deduplication_duplicate_emits_events : Job F V → Job F V → Bool
  unfolding deduplication_stores_next_if_active
  deduplication_duplicate_emits_events candidate existing =
      emits candidate.options.deduplication (deduplication_stores_next_if_active candidate existing)

  unfoldable pub deduplication_stores_next_flow_if_active : JobFlow F V → Job F V → Bool
  deduplication_stores_next_flow_if_active candidate existing =
      keeps_last candidate.parent.options.deduplication
      && same_state existing.state active
      && not (is_some candidate.parent.parent_id)
      && not (is_some candidate.parent.repeat_key)
      && not (is_some existing.repeat_key)

  unfoldable pub flow_child_deduplication_requires_next : Job F V → Job F V → Bool
  flow_child_deduplication_requires_next candidate existing =
      keeps_last candidate.options.deduplication && same_state existing.state active

  unfoldable pub deduplication_extends_ttl : Job F V → Bool
  deduplication_extends_ttl candidate = extends candidate.options.deduplication

  unfoldable pub preserve_replacement_deduplication_expiration : Job F V → Job F V → Job F V
  preserve_replacement_deduplication_expiration candidate existing = record candidate {
    deduplication_expires_at =
        if has_ttl candidate.options.deduplication
        then existing.deduplication_expires_at
        else candidate.deduplication_expires_at;
  }

  unfoldable pub active_repeat_key : Job F V → Option String
  unfolding is_terminal
  active_repeat_key job = if is_terminal job.state then none else job.repeat_key

  unfoldable pub is_repeat_scheduler_job : Job F V → Bool
  unfolding active_repeat_key
  is_repeat_scheduler_job job = is_some (active_repeat_key job) && is_some job.options.repeat

  unfoldable pub find_active_repeat_key : List (String × Job F V) → String → Option (Job F V)
  unfolding active_repeat_key
  find_active_repeat_key jobs key =
      find_job (λ job. same_option (active_repeat_key job) (some key)) jobs

  unfoldable pub find_active_repeat_key_except :
      List (String × Job F V) → String → String → Option (Job F V)
  find_active_repeat_key_except jobs key excluded =
      find_job
        (λ job. not (str_eq job.id excluded) && same_option (active_repeat_key job) (some key)) jobs

  abbrev pub find_repeat : List (String × Job F V) → Option String → Option (Job F V)
  find_repeat jobs none = none
  find_repeat jobs (some key) = find_active_repeat_key jobs key

  unfoldable pub find_active_repeat_job : List (String × Job F V) → Job F V → Option (Job F V)
  find_active_repeat_job jobs candidate = find_repeat jobs (active_repeat_key candidate)

  abbrev has_id : String → Option (Job F V) → Bool
  has_id id none = false
  has_id id (some job) = str_eq job.id id

  abbrev owns_repeat : List (String × Job F V) → Job F V → Option String → Bool
  owns_repeat jobs job none = false
  owns_repeat jobs job (some key) = has_id job.id (find_active_repeat_key jobs key)

  unfoldable pub is_delayed_repeat_owner : List (String × Job F V) → Job F V → Bool
  is_delayed_repeat_owner jobs job =
      same_state job.state delayed && owns_repeat jobs job job.repeat_key

module _ (env : JobEnv) where
  open env use {F, V}

  abbrev pub extend_found : String → Job F V → ℕ → Option (Job F V) → JobQueue F V → JobQueue F V
  extend_found id candidate now none q = q
  extend_found id candidate now (some existing) q =
      write id
        (record existing {
          deduplication_expires_at = deduplication_expiration env candidate.options now;
        })
        q

  unfoldable pub extend_deduplication_expiration :
      Job F V → String → ℕ → JobQueue F V → JobQueue F V
  unfolding deduplication_extends_ttl
  extend_deduplication_expiration candidate existing_id now q =
      if deduplication_extends_ttl candidate
      then extend_found existing_id candidate now (get existing_id q.jobs) q
      else q
