-- ===== src/Job/Queue/Flow/Pages.antt =====
-- src/job/memory.rs: the pages of a flow parent's children by how they ended, `flow_dependency_page`,
-- with their options and items from src/job/types.rs.
use Prim.Native.String.{String, compare as compare_text}
use lane.Job.Queue.{not_after, FlowIndex, get, sort_by}
use lane.Job.{Job, is_terminal, same_state, completed, not, failed}
use lane.Job.Queue.Flow.{flow_dependency_index_contains, lookup}
use lane.Prelude.Sort.{sort_by}
use lane.Prelude.{
  ℕ, Bool, Option, none, some, List, [], ◌∷◌, if◌then◌else◌, max, min, length, ◌+◌, has_text, take,
  ◌-◌, drop, ltb, ◌++◌, true, false, ◌&&◌, ◌||◌, not, lookup,
}

pub data JobFlowDependencyKind : Type 0 where
  processed_kind unprocessed_kind ignored_kind failed_kind : JobFlowDependencyKind

pub record JobFlowDependencyPageOptions : Type 0 where
  pub kind : JobFlowDependencyKind
  pub cursor : ℕ
  pub count : ℕ

pub data JobFlowDependencyPageItem (V : Type 0) : Type 0 where
  processed_item : String → V → JobFlowDependencyPageItem V
  unprocessed_item : String → JobFlowDependencyPageItem V
  ignored_item : String → String → JobFlowDependencyPageItem V
  failed_item : String → JobFlowDependencyPageItem V

pub record JobFlowDependencyPage (V : Type 0) : Type 0 where
  pub kind : JobFlowDependencyKind
  pub items : List (JobFlowDependencyPageItem V)
  pub next_cursor : ℕ
  pub count : ℕ

pub record JobFlowDependencyPagesOptions : Type 0 where
  pub processed : Option (ℕ × ℕ)
  pub unprocessed : Option (ℕ × ℕ)
  pub ignored : Option (ℕ × ℕ)
  pub failed : Option (ℕ × ℕ)

pub record JobFlowDependencyPages (V : Type 0) : Type 0 where
  pub processed : Option (JobFlowDependencyPage V)
  pub unprocessed : Option (JobFlowDependencyPage V)
  pub ignored : Option (JobFlowDependencyPage V)
  pub failed : Option (JobFlowDependencyPage V)

-- A page that is asked for, by its cursor and its count.
abbrev with_page :
    JobFlowDependencyKind
    → Option (ℕ × ℕ)
    → List JobFlowDependencyPageOptions
    → List JobFlowDependencyPageOptions
with_page kind none rest = rest
with_page kind (some (cursor, count)) rest =
    record { kind = kind; cursor = cursor; count = count } ∷ rest

-- `JobFlowDependencyPagesOptions::selected`
unfoldable pub selected_pages : JobFlowDependencyPagesOptions → List JobFlowDependencyPageOptions
selected_pages options = with_page processed_kind options.processed (
    with_page unprocessed_kind options.unprocessed
      (with_page ignored_kind options.ignored (with_page failed_kind options.failed [])))

-- The order in which a `BTreeMap` and a `BTreeSet` list their keys.
abbrev pub key_before : {A : Type 0} → String × A → String × A → Bool
key_before a b = not_after (compare_text a.0 b.0)

abbrev pub text_before : String → String → Bool
text_before a b = not_after (compare_text a b)

abbrev pub text_or_empty : Option String → String
text_or_empty none = ""
text_or_empty (some reason) = reason

-- The items so far, and the children whose items come from the index.
abbrev pub Bucket : Type 0 → Type 0
Bucket V = List (JobFlowDependencyPageItem V) × List String

module _ {V : Type 0} where
  abbrev pub processed_of : String → Option V → Option (JobFlowDependencyPageItem V)
  processed_of child none = none
  processed_of child (some value) = some (processed_item child value)

  abbrev pub ignored_of : String → Option String → Option (JobFlowDependencyPageItem V)
  ignored_of child none = none
  ignored_of child (some reason) = some (ignored_item child reason)

  abbrev pub some_if : Bool → JobFlowDependencyPageItem V → Option (JobFlowDependencyPageItem V)
  some_if b item = if b then some item else none

  abbrev pub item_in :
      FlowIndex V → String → JobFlowDependencyKind → Option (JobFlowDependencyPageItem V)
  item_in index child processed_kind = processed_of child (lookup child index.processed)
  item_in index child ignored_kind = ignored_of child (lookup child index.ignored)
  item_in index child failed_kind = some_if (has_text child index.failed) (failed_item child)
  item_in index child unprocessed_kind = none

  unfoldable pub indexed_flow_dependency_page_item :
      Option (FlowIndex V) → String → JobFlowDependencyKind → Option (JobFlowDependencyPageItem V)
  indexed_flow_dependency_page_item none child kind = none
  indexed_flow_dependency_page_item (some index) child kind = item_in index child kind

  abbrev pub add_new : String → JobFlowDependencyPageItem V → Bucket V → Bucket V
  add_new child item (items, seen) =
      if has_text child seen then (items, seen) else (items ++ item ∷ [], child ∷ seen)

  abbrev pub rest_processed : List (String × V) → Bucket V → Bucket V
  rest_processed [] b = b
  rest_processed ((child, value) ∷ m) b =
      rest_processed m (add_new child (processed_item child value) b)

  abbrev pub rest_ignored : List (String × String) → Bucket V → Bucket V
  rest_ignored [] b = b
  rest_ignored ((child, reason) ∷ m) b =
      rest_ignored m (add_new child (ignored_item child reason) b)

  abbrev pub rest_failed : List String → Bucket V → Bucket V
  rest_failed [] b = b
  rest_failed (child ∷ m) b = rest_failed m (add_new child (failed_item child) b)

  -- The children that only the index knows.
  abbrev pub rest_of_index : FlowIndex V → JobFlowDependencyKind → Bucket V → Bucket V
  rest_of_index index processed_kind b = rest_processed (sort_by key_before index.processed) b
  rest_of_index index ignored_kind b = rest_ignored (sort_by key_before index.ignored) b
  rest_of_index index failed_kind b = rest_failed (sort_by text_before index.failed) b
  rest_of_index index unprocessed_kind b = b

  abbrev pub rest_of : Option (FlowIndex V) → JobFlowDependencyKind → Bucket V → Bucket V
  rest_of none kind b = b
  rest_of (some index) kind b = rest_of_index index kind b

  abbrev pub with_item : Option (JobFlowDependencyPageItem V) → Bucket V → Bucket V
  with_item none b = b
  with_item (some item) (items, seen) = (items ++ item ∷ [], seen)

  abbrev pub with_child :
      String
      → Option (JobFlowDependencyPageItem V)
      → Bool
      → Option (JobFlowDependencyPageItem V)
      → Bucket V
      → Bucket V
  with_child child (some item) known retained (items, seen) = (items ++ item ∷ [], child ∷ seen)
  with_child child none true retained b = b
  with_child child none false retained b = with_item retained b

  abbrev insert_page :
      JobFlowDependencyKind
      → JobFlowDependencyPage V
      → JobFlowDependencyPages V
      → JobFlowDependencyPages V
  insert_page processed_kind page pages = record pages { processed = some page }
  insert_page unprocessed_kind page pages = record pages { unprocessed = some page }
  insert_page ignored_kind page pages = record pages { ignored = some page }
  insert_page failed_kind page pages = record pages { failed = some page }

  -- `flow_dependency_page` after its first line.
  abbrev pub page_of :
      JobFlowDependencyPageOptions → List (JobFlowDependencyPageItem V) → JobFlowDependencyPage V
  page_of options bucket =
      let count = max options.count 1 in
      let start = min options.cursor (length bucket) in
      let end = min (start + count) (length bucket) in
      record {
        kind = options.kind;
        items = take (end - start) (drop start bucket);
        next_cursor = if ltb end (length bucket) then end else 0;
        count = count;
      }

module _ {F V : Type 0} where
  unfoldable pub retained_flow_dependency_page_item :
      Job F V → JobFlowDependencyKind → Option (JobFlowDependencyPageItem V)
  unfolding is_terminal
  retained_flow_dependency_page_item child processed_kind =
      if same_state child.state completed then processed_of child.id child.return_value else none
  retained_flow_dependency_page_item child unprocessed_kind =
      some_if (not (is_terminal child.state)) (unprocessed_item child.id)
  retained_flow_dependency_page_item child ignored_kind =
      some_if
        (same_state child.state failed
          && (child.options.ignore_dependency_on_failure
              || child.options.continue_parent_on_failure))
        (ignored_item child.id (text_or_empty child.failed_reason))
  retained_flow_dependency_page_item child failed_kind =
      some_if
        (same_state child.state failed
          && not child.options.ignore_dependency_on_failure
          && not child.options.continue_parent_on_failure
          && not child.options.remove_dependency_on_failure)
        (failed_item child.id)

  abbrev pub retained_item :
      Option (Job F V) → JobFlowDependencyKind → Option (JobFlowDependencyPageItem V)
  retained_item none kind = none
  retained_item (some child) kind = retained_flow_dependency_page_item child kind

  abbrev pub bucket_of :
      List String
      → List (String × Job F V)
      → Option (FlowIndex V)
      → JobFlowDependencyKind
      → Bucket V
      → Bucket V
  bucket_of [] jobs index kind b = b
  bucket_of (child ∷ children) jobs index kind b = bucket_of children jobs index kind (
      with_child child (indexed_flow_dependency_page_item index child kind)
        (flow_dependency_index_contains index child) (retained_item (get child jobs) kind) b)

  unfoldable pub flow_dependency_page_items :
      Job F V
      → List (String × Job F V)
      → Option (FlowIndex V)
      → JobFlowDependencyKind
      → List (JobFlowDependencyPageItem V)
  unfolding indexed_flow_dependency_page_item flow_dependency_index_contains
      retained_flow_dependency_page_item sort_by
  flow_dependency_page_items parent jobs index kind =
      (rest_of index kind (bucket_of parent.child_ids jobs index kind ([], []))).0

  unfoldable pub flow_dependency_page :
      Job F V
      → List (String × Job F V)
      → Option (FlowIndex V)
      → JobFlowDependencyPageOptions
      → JobFlowDependencyPage V
  flow_dependency_page parent jobs index options =
      page_of options (flow_dependency_page_items parent jobs index options.kind)

  abbrev insert_pages :
      Job F V
      → List (String × Job F V)
      → Option (FlowIndex V)
      → List JobFlowDependencyPageOptions
      → JobFlowDependencyPages V
      → JobFlowDependencyPages V
  insert_pages parent jobs index [] pages = pages
  insert_pages parent jobs index (options ∷ rest) pages =
      let page = flow_dependency_page parent jobs index options in
      insert_pages parent jobs index rest (insert_page page.kind page pages)

  unfoldable pub flow_dependency_pages :
      Job F V
      → List (String × Job F V)
      → Option (FlowIndex V)
      → JobFlowDependencyPagesOptions
      → JobFlowDependencyPages V
  flow_dependency_pages parent jobs index options =
      insert_pages parent jobs index (selected_pages options)
        record { processed = none; unprocessed = none; ignored = none; failed = none }
