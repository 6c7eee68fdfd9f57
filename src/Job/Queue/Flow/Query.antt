-- ===== src/Job/Queue/Flow/Query.antt =====
-- src/job/memory.rs: the reads of a flow parent's children by the parent's id.
use Prim.Native.String.{String}
use lane.Prelude.{Option, none, some, List, lookup}
use lane.Job.{Job}
use lane.Job.Queue.{JobQueue, FlowIndex, get}
use lane.Job.Queue.Flow.{JobFlowDependencyCounts, flow_dependency_counts}
use lane.Job.Queue.Flow.Reads.{
  JobFlowDependencyCountOptions, JobFlowDependencySelectedCounts, flow_dependency_selected_counts,
  flow_children_values, flow_ignored_children_failures,
}
use lane.Job.Queue.Flow.Values.{JobFlowDependencyValues, flow_dependency_values}
use lane.Job.Queue.Flow.Pages.{
  JobFlowDependencyPageOptions, JobFlowDependencyPage, JobFlowDependencyPagesOptions,
  JobFlowDependencyPages, flow_dependency_page, flow_dependency_pages,
}

module _ {F V : Type 0} where
  -- The answer on the parent that stands under the id, if one does.
  abbrev read_parent :
      {A : Type 0}
      → String
      → JobQueue F V
      → (Job F V → List (String × Job F V) → Option (FlowIndex V) → A)
      → Option (Job F V)
      → Option A
  read_parent id q read none = none
  read_parent id q read (some parent) = some (read parent q.jobs (lookup id q.flow_dependencies))

  unfoldable get_flow_dependency_counts : String → JobQueue F V → Option (JobFlowDependencyCounts)
  unfolding flow_dependency_counts
  get_flow_dependency_counts id q =
      read_parent id q (λ parent jobs index. flow_dependency_counts parent jobs index)
        (get id q.jobs)

  unfoldable get_flow_dependency_selected_counts :
      String
      → JobFlowDependencyCountOptions
      → JobQueue F V
      → Option (JobFlowDependencySelectedCounts)
  unfolding flow_dependency_selected_counts
  get_flow_dependency_selected_counts id options q =
      read_parent id q
        (λ parent jobs index. flow_dependency_selected_counts parent jobs index options)
        (get id q.jobs)

  unfoldable get_flow_dependency_values : String → JobQueue F V → Option (JobFlowDependencyValues V)
  unfolding flow_dependency_values
  get_flow_dependency_values id q =
      read_parent id q (λ parent jobs index. flow_dependency_values parent jobs index)
        (get id q.jobs)

  unfoldable get_flow_dependency_page :
      String → JobFlowDependencyPageOptions → JobQueue F V → Option (JobFlowDependencyPage V)
  unfolding flow_dependency_page
  get_flow_dependency_page id options q =
      read_parent id q (λ parent jobs index. flow_dependency_page parent jobs index options)
        (get id q.jobs)

  unfoldable get_flow_dependency_pages :
      String → JobFlowDependencyPagesOptions → JobQueue F V → Option (JobFlowDependencyPages V)
  unfolding flow_dependency_pages
  get_flow_dependency_pages id options q =
      read_parent id q (λ parent jobs index. flow_dependency_pages parent jobs index options)
        (get id q.jobs)

  unfoldable get_flow_children_values : String → JobQueue F V → Option (List (String × V))
  unfolding flow_children_values
  get_flow_children_values id q =
      read_parent id q (λ parent jobs index. flow_children_values parent jobs index) (get id q.jobs)

  unfoldable get_flow_ignored_children_failures :
      String → JobQueue F V → Option (List (String × String))
  unfolding flow_ignored_children_failures
  get_flow_ignored_children_failures id q =
      read_parent id q (λ parent jobs index. flow_ignored_children_failures parent jobs index)
        (get id q.jobs)
