-- ===== src/Job/Queue/Flow.antt =====
-- src/job/memory.rs: the dependencies of flow parents on their children.
pub mod Parents
pub mod Gate
pub mod Pages
pub mod Cursor
pub mod Members
pub mod Reads
pub mod Values
pub mod Query
use Prim.Native.String.{String}
use lane.Prelude.{
  ℕ, ◌+◌, Bool, true, false, not, ◌&&◌, ◌||◌, Option, none, some, List, [], ◌∷◌, length, ltb,
  if◌then◌else◌, lookup, erase, insert_at, has_key, has_text, add_text, erase_text, is_some,
}
use lane.Error.{Result, ok, err, job_state_conflict}
use lane.Job.{
  Job, JobEnv, JobState, completed, failed, same_state, pending_dependencies, failed_dependencies,
}
use lane.Job.Queue.{JobQueue, FlowIndex, get}

pub record JobFlowDependencyCounts : Type 0 where
  pub processed : ℕ
  pub unprocessed : ℕ
  pub failed : ℕ
  pub ignored : ℕ
  pub missing : ℕ

-- How a child counts for its parent.
pub data Dependency : Type 0 where
  processed_child ignored_child released_child failed_child pending_child missing_child : Dependency

abbrev pub counted : Dependency → JobFlowDependencyCounts → JobFlowDependencyCounts
counted processed_child c = record c { processed = c.processed + 1 }
counted ignored_child c = record c { ignored = c.ignored + 1 }
counted released_child c = c
counted failed_child c = record c { failed = c.failed + 1 }
counted pending_child c = record c { unprocessed = c.unprocessed + 1 }
counted missing_child c = record c { missing = c.missing + 1 }

abbrev pub is_nil : {A : Type 0} → List A → Bool
is_nil [] = true
is_nil (a ∷ rest) = false

module _ {V : Type 0} where
  abbrev pub empty_index : FlowIndex V
  empty_index = record { processed = []; ignored = []; failed = [] }

  abbrev pub or_default : Option (FlowIndex V) → FlowIndex V
  or_default none = empty_index
  or_default (some index) = index

  unfoldable pub is_empty : FlowIndex V → Bool
  is_empty index = is_nil index.processed && is_nil index.ignored && is_nil index.failed

  abbrev pub indexed : FlowIndex V → String → Bool
  indexed index child =
      has_key child index.processed || has_key child index.ignored || has_text child index.failed

  unfoldable pub flow_dependency_index_contains : Option (FlowIndex V) → String → Bool
  flow_dependency_index_contains none child = false
  flow_dependency_index_contains (some index) child = indexed index child

  -- `BTreeMap::remove` of each map in turn, up to the first that holds the child.
  abbrev pub without_child : String → FlowIndex V → FlowIndex V
  without_child child index =
      if has_key child index.processed
      then record index { processed = erase child index.processed }
      else if has_key child index.ignored
      then record index { ignored = erase child index.ignored }
      else record index { failed = erase_text child index.failed }

  abbrev pub cleared :
      String
      → String
      → Option (FlowIndex V)
      → List (String × FlowIndex V)
      → List (String × FlowIndex V)
  cleared parent child none indexes = indexes
  cleared parent child (some index) indexes =
      let index' = without_child child index in
      if is_empty index' then erase parent indexes else insert_at parent index' indexes

  abbrev pub indexed_counts : Option (FlowIndex V) → JobFlowDependencyCounts
  indexed_counts none = record {
    processed = 0;
    unprocessed = 0;
    failed = 0;
    ignored = 0;
    missing = 0;
  }
  indexed_counts (some index) = record {
    processed = length index.processed;
    unprocessed = 0;
    failed = length index.failed;
    ignored = length index.ignored;
    missing = 0;
  }

module _ {F V : Type 0} where
  abbrev pub update_index : String → (FlowIndex V → FlowIndex V) → JobQueue F V → JobQueue F V
  update_index parent f q = record q {
    flow_dependencies =
        insert_at parent (f (or_default (lookup parent q.flow_dependencies))) q.flow_dependencies;
  }

  unfoldable pub record_completed_child_dependency :
      String → String → V → JobQueue F V → JobQueue F V
  record_completed_child_dependency parent child value q =
      update_index parent
        (λ index. record {
          processed = insert_at child value index.processed;
          ignored = erase child index.ignored;
          failed = erase_text child index.failed;
        })
        q

  unfoldable pub record_ignored_child_dependency :
      String → String → String → JobQueue F V → JobQueue F V
  record_ignored_child_dependency parent child reason q =
      update_index parent
        (λ index. record {
          processed = erase child index.processed;
          ignored = insert_at child reason index.ignored;
          failed = erase_text child index.failed;
        })
        q

  unfoldable pub record_failed_child_dependency : String → String → JobQueue F V → JobQueue F V
  record_failed_child_dependency parent child q =
      update_index parent
        (λ index. record {
          processed = erase child index.processed;
          ignored = erase child index.ignored;
          failed = add_text child index.failed;
        })
        q

  unfoldable pub clear_child_dependency_side_index : String → String → JobQueue F V → JobQueue F V
  clear_child_dependency_side_index parent child q = record q {
    flow_dependencies =
        cleared parent child (lookup parent q.flow_dependencies) q.flow_dependencies;
  }

  unfoldable pub has_child_dependency_side_index : String → String → JobQueue F V → Bool
  unfolding flow_dependency_index_contains
  has_child_dependency_side_index parent child q =
      flow_dependency_index_contains (lookup parent q.flow_dependencies) child

  unfoldable pub child_failure_releases_dependency : Job F V → Bool
  child_failure_releases_dependency child =
      child.options.ignore_dependency_on_failure || child.options.remove_dependency_on_failure
      || child.options.continue_parent_on_failure

  abbrev pub ignores : Job F V → Bool
  ignores child =
      child.options.ignore_dependency_on_failure || child.options.continue_parent_on_failure

  abbrev pub failed_dependency : Job F V → Dependency
  failed_dependency child =
      if ignores child
      then ignored_child
      else if child.options.remove_dependency_on_failure
      then released_child
      else failed_child

  abbrev pub dependency_in : Job F V → JobState → Dependency
  dependency_in child completed = processed_child
  dependency_in child failed = failed_dependency child
  dependency_in child _ = pending_child

  abbrev pub dependency : Option (Job F V) → Dependency
  dependency none = missing_child
  dependency (some child) = dependency_in child child.state

  abbrev pub count_children :
      List String
      → List (String × Job F V)
      → Option (FlowIndex V)
      → JobFlowDependencyCounts
      → JobFlowDependencyCounts
  count_children [] jobs index counts = counts
  count_children (child ∷ children) jobs index counts = count_children children jobs index (
      if flow_dependency_index_contains index child
      then counts
      else counted (dependency (get child jobs)) counts)

  unfoldable pub flow_dependency_counts :
      Job F V → List (String × Job F V) → Option (FlowIndex V) → JobFlowDependencyCounts
  flow_dependency_counts parent jobs index =
      count_children parent.child_ids jobs index (indexed_counts index)

module _ (env : JobEnv) where
  open env use {F, V, text, null}

  abbrev pub ensure_none_failed : JobFlowDependencyCounts → String → String → Result (Unit {0})
  ensure_none_failed counts id action =
      if ltb 0 counts.failed
      then err (job_state_conflict (text (failed_dependencies action id counts.failed)))
      else ok tt

  abbrev pub ensure_resolved : JobFlowDependencyCounts → String → String → Result (Unit {0})
  ensure_resolved counts id action =
      if ltb 0 counts.unprocessed
      then err (job_state_conflict (text (pending_dependencies action id counts.unprocessed)))
      else ensure_none_failed counts id action

  unfoldable pub ensure_flow_dependencies_are_resolved :
      Job F V → List (String × Job F V) → Option (FlowIndex V) → String → Result (Unit {0})
  unfolding flow_dependency_counts
  ensure_flow_dependencies_are_resolved job jobs index action =
      ensure_resolved (flow_dependency_counts job jobs index) job.id action

  unfoldable pub ensure_flow_dependencies_have_not_failed :
      Job F V → List (String × Job F V) → Option (FlowIndex V) → String → Result (Unit {0})
  unfolding flow_dependency_counts
  ensure_flow_dependencies_have_not_failed job jobs index action =
      ensure_none_failed (flow_dependency_counts job jobs index) job.id action

  abbrev or_null : Option V → V
  or_null none = null
  or_null (some value) = value

  abbrev or_empty : Option String → String
  or_empty none = ""
  or_empty (some reason) = reason

  abbrev pub record_failed_child : String → Job F V → JobQueue F V → JobQueue F V
  record_failed_child parent child q =
      if ignores child
      then record_ignored_child_dependency parent child.id (or_empty child.failed_reason) q
      else if child.options.fail_parent_on_failure
      then record_failed_child_dependency parent child.id q
      else if child.options.remove_dependency_on_failure
      then clear_child_dependency_side_index parent child.id q
      else q

  abbrev pub record_ended_child : String → Job F V → JobState → JobQueue F V → JobQueue F V
  record_ended_child parent child completed q =
      record_completed_child_dependency parent child.id (or_null child.return_value) q
  record_ended_child parent child failed q = record_failed_child parent child q
  record_ended_child parent child _ q = q

  abbrev pub record_listed_child : String → Job F V → Option (Job F V) → JobQueue F V → JobQueue F V
  record_listed_child parent child none q = q
  record_listed_child parent child (some listing) q =
      if has_text child.id listing.child_ids
      then record_ended_child parent child child.state q
      else q

  unfoldable pub record_terminal_child_dependency : String → Job F V → JobQueue F V → JobQueue F V
  record_terminal_child_dependency parent child q =
      record_listed_child parent child (get parent q.jobs) q
