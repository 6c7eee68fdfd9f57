-- ===== src/Job/Queue/Flow/Values.antt =====
-- src/job/memory.rs: `flow_dependency_values`, the children of a flow parent by how they ended.
use Prim.Native.String.{String}
use lane.Prelude.{
  Bool, true, false, Option, none, some, List, [], ◌∷◌, ◌++◌, if◌then◌else◌, lookup, insert_at,
  has_text,
}
use lane.Prelude.Sort.{sort_by}
use lane.Job.{Job, JobState, completed, failed}
use lane.Job.Queue.{FlowIndex, get}
use lane.Job.Queue.Flow.{ignores}
use lane.Job.Queue.Flow.Pages.{text_or_empty, text_before}

pub record JobFlowDependencyValues (V : Type 0) : Type 0 where
  pub processed : List (String × V)
  pub unprocessed : List String
  pub failed : List String
  pub ignored : List (String × String)

-- The values so far, and the children whose values come from the index.
abbrev Seen : Type 0 → Type 0
Seen V = JobFlowDependencyValues V × List String

module _ {V : Type 0} where
  abbrev add_processed : String → V → JobFlowDependencyValues V → JobFlowDependencyValues V
  add_processed child value v = record v { processed = insert_at child value v.processed }

  abbrev add_ignored : String → String → JobFlowDependencyValues V → JobFlowDependencyValues V
  add_ignored child reason v = record v { ignored = insert_at child reason v.ignored }

  abbrev add_failed : String → JobFlowDependencyValues V → JobFlowDependencyValues V
  add_failed child v = record v { failed = v.failed ++ child ∷ [] }

  abbrev add_unprocessed : String → JobFlowDependencyValues V → JobFlowDependencyValues V
  add_unprocessed child v = record v { unprocessed = v.unprocessed ++ child ∷ [] }

  abbrev if_new : String → (JobFlowDependencyValues V → JobFlowDependencyValues V) → Seen V → Seen V
  if_new child add (v, seen) = if has_text child seen then (v, seen) else (add v, child ∷ seen)

  abbrev rest_processed_values : List (String × V) → Seen V → Seen V
  rest_processed_values [] s = s
  rest_processed_values ((child, value) ∷ m) s =
      rest_processed_values m (if_new child (add_processed child value) s)

  abbrev rest_ignored_values : List (String × String) → Seen V → Seen V
  rest_ignored_values [] s = s
  rest_ignored_values ((child, reason) ∷ m) s =
      rest_ignored_values m (if_new child (add_ignored child reason) s)

  abbrev rest_failed_values : List String → Seen V → Seen V
  rest_failed_values [] s = s
  rest_failed_values (child ∷ m) s = rest_failed_values m (if_new child (add_failed child) s)

  abbrev rest_values : Option (FlowIndex V) → Seen V → Seen V
  rest_values none s = s
  rest_values (some index) s =
      rest_failed_values (sort_by text_before index.failed)
        (rest_ignored_values index.ignored (rest_processed_values index.processed s))

  abbrev in_failed : String → Bool → Seen V → Seen V → Seen V
  in_failed child true (v, seen) retained = (add_failed child v, child ∷ seen)
  in_failed child false s retained = retained

  abbrev in_ignored : FlowIndex V → String → Option String → Seen V → Seen V → Seen V
  in_ignored index child (some reason) (v, seen) retained =
      (add_ignored child reason v, child ∷ seen)
  in_ignored index child none s retained = in_failed child (has_text child index.failed) s retained

  abbrev in_processed : FlowIndex V → String → Option V → Seen V → Seen V → Seen V
  in_processed index child (some value) (v, seen) retained =
      (add_processed child value v, child ∷ seen)
  in_processed index child none s retained =
      in_ignored index child (lookup child index.ignored) s retained

  abbrev indexed_values : Option (FlowIndex V) → String → Seen V → Seen V → Seen V
  indexed_values none child s retained = retained
  indexed_values (some index) child s retained =
      in_processed index child (lookup child index.processed) s retained

  abbrev add_value : String → Option V → JobFlowDependencyValues V → JobFlowDependencyValues V
  add_value child none v = v
  add_value child (some value) v = add_processed child value v

module _ {F V : Type 0} where
  abbrev retained_value : Job F V → JobState → JobFlowDependencyValues V → JobFlowDependencyValues V
  retained_value child completed v = add_value child.id child.return_value v
  retained_value child failed v =
      if ignores child
      then add_ignored child.id (text_or_empty child.failed_reason) v
      else if child.options.remove_dependency_on_failure
      then v
      else add_failed child.id v
  retained_value child _ v = add_unprocessed child.id v

  abbrev retained_values : Option (Job F V) → Seen V → Seen V
  retained_values none s = s
  retained_values (some child) (v, seen) = (retained_value child child.state v, seen)

  abbrev children_values :
      List String → List (String × Job F V) → Option (FlowIndex V) → Seen V → Seen V
  children_values [] jobs index s = s
  children_values (child ∷ children) jobs index s =
      children_values children jobs index
        (indexed_values index child s (retained_values (get child jobs) s))

  unfoldable pub flow_dependency_values :
      Job F V → List (String × Job F V) → Option (FlowIndex V) → JobFlowDependencyValues V
  unfolding sort_by
  flow_dependency_values parent jobs index =
      let none_yet : JobFlowDependencyValues V = record {
        processed = [];
        unprocessed = [];
        failed = [];
        ignored = [];
      } in
      (rest_values index (children_values parent.child_ids jobs index (none_yet, []))).0
