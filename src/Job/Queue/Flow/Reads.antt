-- ===== src/Job/Queue/Flow/Reads.antt =====
-- src/job/memory.rs: what is read of a flow parent's children: `get_flow_dependencies`, the counts,
-- `flow_children_values` and `flow_ignored_children_failures`. A
-- `BTreeMap` of an answer is a list of keys with their values, each key once.
use Prim.Native.String.{String}
use lane.Prelude.{ℕ, Bool, Option, none, some, List, [], ◌∷◌, ◌++◌, if◌then◌else◌, insert_at, ◌&&◌}
use lane.Job.{Job, completed, failed, same_state, is_terminal}
use lane.Job.Queue.{JobQueue, FlowIndex, get}
use lane.Job.Queue.Flow.{
  JobFlowDependencyCounts, flow_dependency_counts, flow_dependency_index_contains, ignores,
}
use lane.Job.Queue.Flow.Pages.{
  JobFlowDependencyKind, processed_kind, unprocessed_kind, ignored_kind, failed_kind, text_or_empty,
}

pub record JobFlowDependencies (F V : Type 0) : Type 0 where
  pub parent : Job F V
  pub children : List (Job F V)
  pub pending_child_ids : List String
  pub missing_child_ids : List String

pub record JobFlowDependencyCountOptions : Type 0 where
  pub processed : Bool
  pub unprocessed : Bool
  pub ignored : Bool
  pub failed : Bool

pub record JobFlowDependencySelectedCounts : Type 0 where
  pub processed : Option ℕ
  pub unprocessed : Option ℕ
  pub ignored : Option ℕ
  pub failed : Option ℕ

abbrev with_kind :
    Bool → JobFlowDependencyKind → List JobFlowDependencyKind → List JobFlowDependencyKind
with_kind asked kind rest = if asked then kind ∷ rest else rest

abbrev or_all_kinds : List JobFlowDependencyKind → List JobFlowDependencyKind
or_all_kinds [] = processed_kind ∷ unprocessed_kind ∷ ignored_kind ∷ failed_kind ∷ []
or_all_kinds (kind ∷ kinds) = kind ∷ kinds

-- `JobFlowDependencyCountOptions::selected`
unfoldable selected_kinds : JobFlowDependencyCountOptions → List JobFlowDependencyKind
selected_kinds options = or_all_kinds (
    with_kind options.processed processed_kind (
      with_kind options.unprocessed unprocessed_kind
        (with_kind options.ignored ignored_kind (with_kind options.failed failed_kind []))))

abbrev insert_count :
    JobFlowDependencyCounts
    → JobFlowDependencyKind
    → JobFlowDependencySelectedCounts
    → JobFlowDependencySelectedCounts
insert_count counts processed_kind s = record s { processed = some counts.processed }
insert_count counts unprocessed_kind s = record s { unprocessed = some counts.unprocessed }
insert_count counts ignored_kind s = record s { ignored = some counts.ignored }
insert_count counts failed_kind s = record s { failed = some counts.failed }

abbrev insert_counts :
    JobFlowDependencyCounts
    → List JobFlowDependencyKind
    → JobFlowDependencySelectedCounts
    → JobFlowDependencySelectedCounts
insert_counts counts [] s = s
insert_counts counts (kind ∷ kinds) s = insert_counts counts kinds (insert_count counts kind s)

module _ {V : Type 0} where
  abbrev insert_value : String → Option V → List (String × V) → List (String × V)
  insert_value child none values = values
  insert_value child (some value) values = insert_at child value values

  abbrev indexed_processed : Option (FlowIndex V) → List (String × V)
  indexed_processed none = []
  indexed_processed (some index) = index.processed

  abbrev indexed_ignored : Option (FlowIndex V) → List (String × String)
  indexed_ignored none = []
  indexed_ignored (some index) = index.ignored

module _ {F V : Type 0} where
  abbrev with_value : Option (Job F V) → List (String × V) → List (String × V)
  with_value none values = values
  with_value (some child) values =
      if same_state child.state completed
      then insert_value child.id child.return_value values
      else values

  abbrev add_values :
      List String
      → List (String × Job F V)
      → Option (FlowIndex V)
      → List (String × V)
      → List (String × V)
  add_values [] jobs index values = values
  add_values (child ∷ children) jobs index values = add_values children jobs index (
      if flow_dependency_index_contains index child
      then values
      else with_value (get child jobs) values)

  unfoldable pub flow_children_values :
      Job F V → List (String × Job F V) → Option (FlowIndex V) → List (String × V)
  unfolding flow_dependency_index_contains
  flow_children_values parent jobs index =
      add_values parent.child_ids jobs index (indexed_processed index)

  abbrev with_failure : Option (Job F V) → List (String × String) → List (String × String)
  with_failure none failures = failures
  with_failure (some child) failures =
      if same_state child.state failed && ignores child
      then insert_at child.id (text_or_empty child.failed_reason) failures
      else failures

  abbrev add_failures :
      List String
      → List (String × Job F V)
      → Option (FlowIndex V)
      → List (String × String)
      → List (String × String)
  add_failures [] jobs index failures = failures
  add_failures (child ∷ children) jobs index failures = add_failures children jobs index (
      if flow_dependency_index_contains index child
      then failures
      else with_failure (get child jobs) failures)

  unfoldable pub flow_ignored_children_failures :
      Job F V → List (String × Job F V) → Option (FlowIndex V) → List (String × String)
  unfolding flow_dependency_index_contains
  flow_ignored_children_failures parent jobs index =
      add_failures parent.child_ids jobs index (indexed_ignored index)

  unfoldable pub flow_dependency_selected_counts :
      Job F V
      → List (String × Job F V)
      → Option (FlowIndex V)
      → JobFlowDependencyCountOptions
      → JobFlowDependencySelectedCounts
  unfolding flow_dependency_counts selected_kinds
  flow_dependency_selected_counts parent jobs index options =
      insert_counts (flow_dependency_counts parent jobs index) (selected_kinds options)
        record { processed = none; unprocessed = none; ignored = none; failed = none }

  abbrev with_dependency :
      String → Option (Job F V) → JobFlowDependencies F V → JobFlowDependencies F V
  with_dependency id none d = record d { missing_child_ids = d.missing_child_ids ++ id ∷ [] }
  with_dependency id (some child) d = record d {
    children = d.children ++ child ∷ [];
    pending_child_ids =
        if is_terminal child.state
        then d.pending_child_ids
        else d.pending_child_ids ++ child.id ∷ [];
  }

  abbrev collect_dependencies :
      List String → List (String × Job F V) → JobFlowDependencies F V → JobFlowDependencies F V
  collect_dependencies [] jobs d = d
  collect_dependencies (id ∷ ids) jobs d =
      collect_dependencies ids jobs (with_dependency id (get id jobs) d)

  abbrev dependencies_of :
      Option (Job F V) → List (String × Job F V) → Option (JobFlowDependencies F V)
  dependencies_of none jobs = none
  dependencies_of (some parent) jobs = some (
      collect_dependencies parent.child_ids jobs
        record { parent = parent; children = []; pending_child_ids = []; missing_child_ids = [] })

  unfoldable pub get_flow_dependencies : String → JobQueue F V → Option (JobFlowDependencies F V)
  unfolding is_terminal
  get_flow_dependencies id q = dependencies_of (get id q.jobs) q.jobs
