-- ===== src/Job/Queue/Children.antt =====
-- src/job/memory.rs: `remove_unprocessed_children`. The search through the children of children is
-- written with fuel; the number of jobs is enough.
pub mod Termination
use Prim.Native.String.{String}
use lane.Prelude.{
  ℕ, zero, suc, ◌++◌, ◌||◌, Option, none, some, List, [], ◌∷◌, length, if◌then◌else◌, has_text,
}
use lane.Job.{Job, JobEnv, active, same_state, is_terminal}
use lane.Job.Queue.{JobQueue, get}
use lane.Job.Queue.Records.{remove_job_record, emit_removed_event}
use lane.Job.Queue.Flow.Parents.{release_parent_if_ready}

-- The ids that were collected and those that were seen.
abbrev pub Collected : Type 0
Collected = List String × List String

abbrev pub collected_after : String → Option Collected → Option Collected
collected_after id none = none
collected_after id (some (out, seen)) = some (out ++ id ∷ [], seen)

abbrev pub and_then : Option Collected → (Collected → Option Collected) → Option Collected
and_then none k = none
and_then (some found) k = k found

abbrev pub collected_ids : Option Collected → List String
collected_ids none = []
collected_ids (some (out, seen)) = out

module _ {F V : Type 0} where
  -- One child that was not seen before; `go` collects its own children.
  abbrev pub visit_child :
      (List String → Collected → Option Collected) → Option (Job F V) → Collected → Option Collected
  visit_child go none found = some found
  visit_child go (some child) found =
      if same_state child.state active || is_terminal child.state
      then some found
      else collected_after child.id (go child.child_ids found)

  abbrev pub visit :
      (List String → Collected → Option Collected)
      → List (String × Job F V)
      → List String
      → Collected
      → Option Collected
  visit go jobs [] found = some found
  visit go jobs (child ∷ children) found =
      let marked : Collected = (found.0, child ∷ found.1) in
      and_then
        (if has_text child found.1 then some found else visit_child go (get child jobs) marked)
        (visit go jobs children)

  -- `collect_removable_unprocessed_children`; `none` means that the fuel ran out.
  unfoldable pub collect : ℕ → List (String × Job F V) → List String → Collected → Option Collected
  unfolding is_terminal
  collect zero jobs = visit (λ ids found. none) jobs
  collect (suc fuel) jobs = visit (collect fuel jobs) jobs

  abbrev pub remove_event : ℕ → Option (Job F V) × JobQueue F V → JobQueue F V
  remove_event now (none, q) = q
  remove_event now (some job, q) = emit_removed_event job now q

  abbrev pub add_removed : Option (Job F V) → List (Job F V) → List (Job F V)
  add_removed none jobs = jobs
  add_removed (some job) jobs = job ∷ jobs

  unfoldable pub remove_each : ℕ → List String → JobQueue F V → List (Job F V) × JobQueue F V
  unfolding remove_job_record emit_removed_event
  remove_each now [] q = ([], q)
  remove_each now (id ∷ ids) q =
      let removed = remove_job_record id q in
      let rest = remove_each now ids (remove_event now removed) in
      (add_removed removed.0 rest.0, rest.1)

module _ (env : JobEnv) where
  open env use {F, V}

  abbrev pub remove_children :
      String → ℕ → Option (Job F V) → JobQueue F V → Option (List (Job F V)) × JobQueue F V
  remove_children id now none q = (none, q)
  remove_children id now (some parent) q =
      let ids = collected_ids (collect (length q.jobs) q.jobs parent.child_ids ([], [])) in
      let removed = remove_each now ids q in
      (some removed.0, release_parent_if_ready env id now removed.1)

  unfoldable pub remove_unprocessed_children :
      String → ℕ → JobQueue F V → Option (List (Job F V)) × JobQueue F V
  unfolding collect remove_each release_parent_if_ready
  remove_unprocessed_children id now q = remove_children id now (get id q.jobs) q
