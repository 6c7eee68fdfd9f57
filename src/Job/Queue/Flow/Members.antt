-- ===== src/Job/Queue/Flow/Members.antt =====
-- src/job/memory.rs: which children of a flow parent stand in the bucket that its pages are cut from.
use Prim.Native.String.{String}
use text.Mathlib.Text.{◌==◌ as str_eq}
use lane.Prelude.{
  ◌≡◌, refl, ◌∙◌, arith, Bool, true, false, not, ◌&&◌, ◌||◌, Option, none, some, List, [], ◌∷◌,
  ◌++◌, All, All-map_pred, Bool-cases, inl, inr, lookup, has_key, has_text, is_some, text_refl,
  if◌then◌else◌,
}
use lane.Prelude.Sort.{sort_by}
use lane.Job.{
  Job, JobState, waiting, delayed, active, waiting_children, completed, failed, is_terminal,
}
use lane.Job.Queue.{FlowIndex, get}
use lane.Job.Queue.Flow.{
  Dependency, processed_child, ignored_child, released_child, failed_child, pending_child,
  dependency_in, ignores, flow_dependency_index_contains,
}
use lane.Job.Queue.Flow.Pages.{
  JobFlowDependencyKind, processed_kind, unprocessed_kind, ignored_kind, failed_kind,
  JobFlowDependencyPageItem, processed_item, unprocessed_item, ignored_item, failed_item, Bucket,
  flow_dependency_page_items, indexed_flow_dependency_page_item, retained_flow_dependency_page_item,
  add_new, rest_processed, rest_ignored, rest_failed, rest_of, with_child, bucket_of, retained_item,
  processed_of, ignored_of, some_if, text_before, key_before,
}

module _ {V : Type 0} where
  abbrev pub item_child : JobFlowDependencyPageItem V → String
  item_child (processed_item child value) = child
  item_child (unprocessed_item child) = child
  item_child (ignored_item child reason) = child
  item_child (failed_item child) = child

  -- An item names the child.
  abbrev pub is_listed : String → List (JobFlowDependencyPageItem V) → Bool
  is_listed child [] = false
  is_listed child (item ∷ items) = str_eq (item_child item) child || is_listed child items

  -- The index holds the child under the kind.
  abbrev pub indexed_as : JobFlowDependencyKind → Option (FlowIndex V) → String → Bool
  indexed_as kind none child = false
  indexed_as processed_kind (some index) child = has_key child index.processed
  indexed_as ignored_kind (some index) child = has_key child index.ignored
  indexed_as failed_kind (some index) child = has_text child index.failed
  indexed_as unprocessed_kind (some index) child = false

  is_listed-append :
      (child : String) (xs ys : List (JobFlowDependencyPageItem V))
      → is_listed child (xs ++ ys) ≡ (is_listed child xs || is_listed child ys)
  is_listed-append child [] ys = refl
  is_listed-append child (x ∷ xs) ys = ground (arith, is_listed-append child xs ys)

  abbrev names : String → Option (JobFlowDependencyPageItem V) → Bool
  names child none = false
  names child (some item) = str_eq (item_child item) child

  added :
      (child : String) (item : JobFlowDependencyPageItem V)
      (items : List (JobFlowDependencyPageItem V))
      → str_eq (item_child item) child ≡ true
      → is_listed child (items ++ item ∷ []) ≡ true
  added child item items h = is_listed-append child items (item ∷ []) ∙ ground (arith, h)

  stays :
      (child : String) (item : JobFlowDependencyPageItem V)
      (items : List (JobFlowDependencyPageItem V))
      → is_listed child items ≡ true
      → is_listed child (items ++ item ∷ []) ≡ true
  stays child item items h = is_listed-append child items (item ∷ []) ∙ ground (arith, h)

  add_new-listed :
      (child other : String) (item : JobFlowDependencyPageItem V) (b : Bucket V)
      → is_listed child b.0 ≡ true
      → is_listed child (add_new other item b).0 ≡ true
  add_new-listed child other item (items, seen) h = elim (Bool-cases (has_text other seen)) [
    | inl e ↦ rw e h
    | inr e ↦ rw e (stays child item items h)
  ]

  rest_processed-listed :
      (child : String) (m : List (String × V)) (b : Bucket V)
      → is_listed child b.0 ≡ true
      → is_listed child (rest_processed m b).0 ≡ true
  rest_processed-listed child [] b h = h
  rest_processed-listed child ((k, v) ∷ m) b h =
      rest_processed-listed child m _ (add_new-listed child k (processed_item k v) b h)

  rest_ignored-listed :
      (child : String) (m : List (String × String)) (b : Bucket V)
      → is_listed child b.0 ≡ true
      → is_listed child (rest_ignored m b).0 ≡ true
  rest_ignored-listed child [] b h = h
  rest_ignored-listed child ((k, v) ∷ m) b h =
      rest_ignored-listed child m _ (add_new-listed child k (ignored_item k v) b h)

  rest_failed-listed :
      (child : String) (m : List String) (b : Bucket V)
      → is_listed child b.0 ≡ true
      → is_listed child (rest_failed m b).0 ≡ true
  rest_failed-listed child [] b h = h
  rest_failed-listed child (k ∷ m) b h =
      rest_failed-listed child m _ (add_new-listed child k (failed_item k) b h)

  rest_of-listed :
      (child : String) (index : Option (FlowIndex V)) (kind : JobFlowDependencyKind) (b : Bucket V)
      → is_listed child b.0 ≡ true
      → is_listed child (rest_of index kind b).0 ≡ true
  rest_of-listed child none kind b h = h
  rest_of-listed child (some index) processed_kind b h =
      rest_processed-listed child (sort_by key_before index.processed) b h
  rest_of-listed child (some index) ignored_kind b h =
      rest_ignored-listed child (sort_by key_before index.ignored) b h
  rest_of-listed child (some index) failed_kind b h =
      rest_failed-listed child (sort_by text_before index.failed) b h
  rest_of-listed child (some index) unprocessed_kind b h = h

  with_child-listed :
      (child other : String) (o : Option (JobFlowDependencyPageItem V)) (known : Bool)
      (retained : Option (JobFlowDependencyPageItem V)) (b : Bucket V)
      → is_listed child b.0 ≡ true
      → is_listed child (with_child other o known retained b).0 ≡ true
  with_child-listed child other (some item) known retained (items, seen) h =
      stays child item items h
  with_child-listed child other none true retained b h = h
  with_child-listed child other none false none b h = h
  with_child-listed child other none false (some item) (items, seen) h = stays child item items h

  -- An item of the index, if there is one, names its child.
  abbrev owns_name : String → Option (JobFlowDependencyPageItem V) → Bool
  owns_name child none = true
  owns_name child (some item) = str_eq (item_child item) child

  with_child-indexed :
      (child : String) (o : Option (JobFlowDependencyPageItem V)) (known : Bool)
      (retained : Option (JobFlowDependencyPageItem V)) (b : Bucket V)
      → names child o ≡ true
      → is_listed child (with_child child o known retained b).0 ≡ true
  with_child-indexed child none known retained b h = cc
  with_child-indexed child (some item) known retained (items, seen) h = added child item items h

  with_child-retained :
      (child : String) (o : Option (JobFlowDependencyPageItem V))
      (retained : Option (JobFlowDependencyPageItem V)) (b : Bucket V)
      → owns_name child o ≡ true
      → names child retained ≡ true
      → is_listed child (with_child child o false retained b).0 ≡ true
  with_child-retained child none none b own h = cc
  with_child-retained child none (some item) (items, seen) own h = added child item items h
  with_child-retained child (some item) retained (items, seen) own h = added child item items own

  processed-names :
      (child : String) (o : Option V) → is_some o ≡ true → names child (processed_of child o) ≡ true
  processed-names child none h = cc
  processed-names child (some value) h = text_refl child

ignored-names :
    (V : Type 0) (child : String) (o : Option String)
    → is_some o ≡ true
    → names {V = V} child (ignored_of child o) ≡ true
ignored-names V child none h = cc
ignored-names V child (some reason) h = text_refl child

ignored-owns :
    (V : Type 0) (child : String) (o : Option String)
    → owns_name {V = V} child (ignored_of child o) ≡ true
ignored-owns V child none = refl
ignored-owns V child (some reason) = text_refl child

failed-owns :
    (V : Type 0) (child : String) (b : Bool)
    → owns_name {V = V} child (some_if b (failed_item child)) ≡ true
failed-owns V child true = text_refl child
failed-owns V child false = refl

module _ {V : Type 0} where
  indexed-names :
      (child : String) (index : Option (FlowIndex V)) (kind : JobFlowDependencyKind)
      → indexed_as kind index child ≡ true
      → names child (indexed_flow_dependency_page_item index child kind) ≡ true
  unfolding indexed_flow_dependency_page_item
  indexed-names child none kind h = cc
  indexed-names child (some index) processed_kind h =
      processed-names child (lookup child index.processed) h
  indexed-names child (some index) ignored_kind h =
      ignored-names V child (lookup child index.ignored) h
  indexed-names child (some index) failed_kind h = rw h (text_refl child)
  indexed-names child (some index) unprocessed_kind h = cc

  processed-owns : (child : String) (o : Option V) → owns_name child (processed_of child o) ≡ true
  processed-owns child none = refl
  processed-owns child (some value) = text_refl child

  indexed-owns :
      (child : String) (index : Option (FlowIndex V)) (kind : JobFlowDependencyKind)
      → owns_name child (indexed_flow_dependency_page_item index child kind) ≡ true
  unfolding indexed_flow_dependency_page_item
  indexed-owns child none kind = refl
  indexed-owns child (some index) processed_kind =
      processed-owns child (lookup child index.processed)
  indexed-owns child (some index) ignored_kind = ignored-owns V child (lookup child index.ignored)
  indexed-owns child (some index) failed_kind = failed-owns V child (has_text child index.failed)
  indexed-owns child (some index) unprocessed_kind = refl

module _ {F V : Type 0} where
  -- A job of the queue is of the kind, as `flow_dependency_counts` counts it; one that has
  -- completed must have a return value.
  abbrev pub counts_as : JobFlowDependencyKind → Job F V → Dependency → Bool
  counts_as processed_kind job processed_child = is_some job.return_value
  counts_as unprocessed_kind job pending_child = true
  counts_as ignored_kind job ignored_child = true
  counts_as failed_kind job failed_child = true
  counts_as kind job dependency = false

  abbrev pub retained_as : JobFlowDependencyKind → Option (Job F V) → Bool
  retained_as kind none = false
  retained_as kind (some job) = counts_as kind job (dependency_in job job.state)

  -- The child belongs to the bucket of the kind: the index holds it under the kind, or does not
  -- know it at all and its job is of the kind.
  abbrev pub belongs :
      JobFlowDependencyKind → Option (FlowIndex V) → List (String × Job F V) → String → Bool
  belongs kind index jobs child =
      indexed_as kind index child
      || (not (flow_dependency_index_contains index child) && retained_as kind (get child jobs))

  retained-names :
      (child : String) (kind : JobFlowDependencyKind) (o : Option (Job F V))
      → ((job : Job F V) → o ≡ some job → str_eq job.id child ≡ true)
      → retained_as kind o ≡ true
      → names child (retained_item o kind) ≡ true
  unfolding retained_flow_dependency_page_item is_terminal
  retained-names child kind none key h = cc
  retained-names child kind (some job) key h = in_state kind job.state refl h
    where
      value_named : (o : Option V) → is_some o ≡ true → names child (processed_of job.id o) ≡ true
      value_named none e = cc
      value_named (some value) e = key job refl

      -- A failed job, by whether its parent ignores that and whether it goes without the job.
      of_failed :
          (kind : JobFlowDependencyKind)
          → job.state ≡ failed
          → (i r : Bool) → ignores job ≡ i
          → job.options.remove_dependency_on_failure ≡ r
          → counts_as kind job
              (if i then ignored_child else if r then released_child else failed_child)
            ≡ true
          → names child (retained_flow_dependency_page_item job kind) ≡ true
      of_failed processed_kind e true r f g h = cc
      of_failed processed_kind e false true f g h = cc
      of_failed processed_kind e false false f g h = cc
      of_failed unprocessed_kind e true r f g h = cc
      of_failed unprocessed_kind e false true f g h = cc
      of_failed unprocessed_kind e false false f g h = cc
      of_failed ignored_kind e true r f g h = rw (e, f) (key job refl)
      of_failed ignored_kind e false true f g h = cc
      of_failed ignored_kind e false false f g h = cc
      of_failed failed_kind e true r f g h = cc
      of_failed failed_kind e false true f g h = cc
      of_failed failed_kind e false false f g h = ground (arith, e, f, g, key job refl)

      in_state :
          (kind : JobFlowDependencyKind) (s : JobState)
          → job.state ≡ s
          → counts_as kind job (dependency_in job s) ≡ true
          → names child (retained_flow_dependency_page_item job kind) ≡ true
      in_state processed_kind waiting e h = cc
      in_state processed_kind delayed e h = cc
      in_state processed_kind active e h = cc
      in_state processed_kind waiting_children e h = cc
      in_state processed_kind completed e h = rw e (value_named job.return_value h)
      in_state processed_kind failed e h =
          of_failed processed_kind e (ignores job) job.options.remove_dependency_on_failure refl
            refl h
      in_state unprocessed_kind waiting e h = rw e (key job refl)
      in_state unprocessed_kind delayed e h = rw e (key job refl)
      in_state unprocessed_kind active e h = rw e (key job refl)
      in_state unprocessed_kind waiting_children e h = rw e (key job refl)
      in_state unprocessed_kind completed e h = cc
      in_state unprocessed_kind failed e h =
          of_failed unprocessed_kind e (ignores job) job.options.remove_dependency_on_failure refl
            refl h
      in_state ignored_kind waiting e h = cc
      in_state ignored_kind delayed e h = cc
      in_state ignored_kind active e h = cc
      in_state ignored_kind waiting_children e h = cc
      in_state ignored_kind completed e h = cc
      in_state ignored_kind failed e h =
          of_failed ignored_kind e (ignores job) job.options.remove_dependency_on_failure refl refl
            h
      in_state failed_kind waiting e h = cc
      in_state failed_kind delayed e h = cc
      in_state failed_kind active e h = cc
      in_state failed_kind waiting_children e h = cc
      in_state failed_kind completed e h = cc
      in_state failed_kind failed e h =
          of_failed failed_kind e (ignores job) job.options.remove_dependency_on_failure refl refl h

  bucket_of-listed :
      (child : String) (children : List String) (jobs : List (String × Job F V))
      (index : Option (FlowIndex V)) (kind : JobFlowDependencyKind) (b : Bucket V)
      → is_listed child b.0 ≡ true
      → is_listed child (bucket_of children jobs index kind b).0 ≡ true
  bucket_of-listed child [] jobs index kind b h = h
  bucket_of-listed child (other ∷ children) jobs index kind b h =
      bucket_of-listed child children jobs index kind _ (
        with_child-listed child other (indexed_flow_dependency_page_item index other kind)
          (flow_dependency_index_contains index other) (retained_item (get other jobs) kind) b h)

  added-listed :
      (child : String) (jobs : List (String × Job F V)) (index : Option (FlowIndex V))
      (kind : JobFlowDependencyKind) (b : Bucket V)
      → ((job : Job F V) → get child jobs ≡ some job → str_eq job.id child ≡ true)
      → belongs kind index jobs child ≡ true
      → is_listed child
          (with_child child
            (indexed_flow_dependency_page_item index child kind)
            (flow_dependency_index_contains index child)
            (retained_item (get child jobs) kind)
            b).0
        ≡ true
  added-listed child jobs index kind b key h = elim (Bool-cases (indexed_as kind index child)) [
    | inl e ↦
        with_child-indexed child (indexed_flow_dependency_page_item index child kind)
          (flow_dependency_index_contains index child) (retained_item (get child jobs) kind) b
          (indexed-names child index kind e)
    | inr e ↦
        let unknown : flow_dependency_index_contains index child ≡ false = ground (arith, h, e) in
        let kept : retained_as kind (get child jobs) ≡ true = ground (arith, h, e) in
        rw unknown (
          with_child-retained child (indexed_flow_dependency_page_item index child kind)
            (retained_item (get child jobs) kind) b (indexed-owns child index kind)
            (retained-names child kind (get child jobs) key kept))
  ]

  bucket_of-members :
      (children : List String) (jobs : List (String × Job F V)) (index : Option (FlowIndex V))
      (kind : JobFlowDependencyKind) (b : Bucket V)
      → ((child : String) (job : Job F V) → get child jobs ≡ some job → str_eq job.id child ≡ true)
      → All
          (λ child.
            belongs kind index jobs child ≡ true
            → is_listed child (bucket_of children jobs index kind b).0 ≡ true)
          children
  bucket_of-members [] jobs index kind b key = tt
  bucket_of-members (child ∷ children) jobs index kind b key = (
    λ h.
        bucket_of-listed child children jobs index kind _
          (added-listed child jobs index kind b (key child) h),
    bucket_of-members children jobs index kind _ key,
  )

  -- The children of a parent that belong to a kind are listed in its bucket.
  pub items-members :
      (parent : Job F V) (jobs : List (String × Job F V)) (index : Option (FlowIndex V))
      (kind : JobFlowDependencyKind)
      → ((child : String) (job : Job F V) → get child jobs ≡ some job → str_eq job.id child ≡ true)
      → All
          (λ child.
            belongs kind index jobs child ≡ true
            → is_listed child (flow_dependency_page_items parent jobs index kind) ≡ true)
          parent.child_ids
  unfolding flow_dependency_page_items
  items-members parent jobs index kind key =
      All-map_pred _ _
        (λ child f h.
          rest_of-listed child index kind (bucket_of parent.child_ids jobs index kind ([], []))
            (f h))
        parent.child_ids (bucket_of-members parent.child_ids jobs index kind ([], []) key)
