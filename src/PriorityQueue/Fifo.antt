-- ===== src/PriorityQueue/Fifo.antt =====
-- Insertion: every push appends to the arrivals, also when it has to renumber the items.
use mathlib.Core.List.{map-append}
use mathlib.Core.Path.{ap₂}
use lane.Prelude.{
  ℕ, ◌+◌, ◌%◌, ◌≤◌, ◌<◌, ◌≡◌, refl, sym, ap, ◌∙◌, Bool, not, List, [], ◌∷◌, ◌++◌, arith, length,
  All, All-map_pred, Bool-cases, inl, inr, leb, ◌==◌, filter, map-filter, filter_congr, not-not,
}
use lane.Prelude.Sort.{
  sort_by, insert-split, All-sort_by, sort_by-IsSortedBy, length-sort_by, sort_by_sorted,
  insert_last,
}
use lane.PriorityQueue.{
  PriorityItem, PriorityQueue, listed_before, seq_le, ordered, renumber, ensure_sequence_capacity,
  u64_max, u64_mod, push, len,
}
use lane.PriorityQueue.Order.{listed-IsTotal}
use lane.PriorityQueue.Rebase.{
  view, views, Distinct, seq-IsTotal, arrivals, views-renumber, renumber_below, renumber-Distinct,
  renumber-IsSortedBy, ordered-eq-sort_arrivals, priority_le,
}

-- Sequences are below the counter, which fits in a `u64`, and no two are equal.
pub record IsValid {ℓ} {T : Type ℓ} (q : PriorityQueue T) : Type ℓ where
  pub bounded : All (λ y. y.sequence ≤ q.next_sequence) q.entries
  pub fits : q.next_sequence ≤ u64_max
  pub distinct : Distinct q.entries

module _ {ℓ} {T : Type ℓ} where
  -- The queue once there is room for one more sequence.
  record HasRoom (q q' : PriorityQueue T) : Type ℓ where
    valid : IsValid q'
    room : q'.next_sequence < u64_max
    same : arrivals q' ≡ arrivals q

  rebased : PriorityQueue T → PriorityQueue T
  rebased q = record {
    entries = renumber 0 (sort_by seq_le q.entries);
    next_sequence = length q.entries;
  }

  rebased-HasRoom : (q : PriorityQueue T) → length q.entries < u64_max → HasRoom q (rebased q)
  unfolding rebased
  rebased-HasRoom q h = record {
    valid = record {
      bounded =
          renumber_below 0 (length q.entries) (sort_by seq_le q.entries)
            (omega (arith, length-sort_by seq_le q.entries));
      fits = omega arith;
      distinct = renumber-Distinct 0 (sort_by seq_le q.entries);
    };
    room = h;
    same =
        ap views
          (sort_by_sorted seq_le seq-IsTotal _ (renumber-IsSortedBy 0 (sort_by seq_le q.entries)))
        ∙ views-renumber 0 (sort_by seq_le q.entries);
  }

  ensure-HasRoom :
      (q : PriorityQueue T)
      → IsValid q
      → length q.entries < u64_max
      → HasRoom q (ensure_sequence_capacity q)
  unfolding ensure_sequence_capacity rebased
  ensure-HasRoom q v h = elim (Bool-cases (q.next_sequence == u64_max)) [
    | inl e ↦ rw e (rebased-HasRoom q h)
    | inr e ↦ rw e (record { valid = v; room = ground (arith, v.fits); same = refl })
  ]

  abbrev item_of : PriorityQueue T → ℕ → T → PriorityItem T
  item_of q p v = record { priority = p; sequence = (q.next_sequence + 1) % u64_mod; value = v }

  abbrev pushed : PriorityQueue T → ℕ → T → PriorityQueue T
  pushed q p v = record {
    entries = item_of q p v ∷ q.entries;
    next_sequence = (q.next_sequence + 1) % u64_mod;
  }

  pushed-IsValid :
      (q : PriorityQueue T) (p : ℕ) (v : T)
      → IsValid q
      → q.next_sequence < u64_max
      → IsValid (pushed q p v)
  pushed-IsValid q p v valid h = record {
    bounded = (omega arith, All-map_pred _ _ (λ y b. omega arith) q.entries valid.bounded);
    fits = omega arith;
    distinct = (All-map_pred _ _ (λ y b. omega arith) q.entries valid.bounded, valid.distinct);
  }

  arrivals-pushed :
      (q : PriorityQueue T) (p : ℕ) (v : T)
      → IsValid q
      → q.next_sequence < u64_max
      → arrivals (pushed q p v) ≡ arrivals q ++ (p, v) ∷ []
  unfolding sort_by
  arrivals-pushed q p v valid h =
      ap views (
        insert_last seq_le (item_of q p v) (sort_by seq_le q.entries) (
          All-sort_by _ seq_le q.entries
            (All-map_pred _ _ (λ y b. ground arith) q.entries valid.bounded)))
      ∙ map-append view (sort_by seq_le q.entries) _

  -- The new item has the highest sequence, so it stands before those of a higher priority value.
  item-listed_before :
      (q : PriorityQueue T) (p : ℕ) (v : T) (y : PriorityItem T)
      → q.next_sequence < u64_max
      → y.sequence ≤ q.next_sequence
      → listed_before (item_of q p v) y ≡ not (leb y.priority p)
  unfolding listed_before
  item-listed_before q p v y h b = ground arith

  -- The views of the items that a test on their priority keeps.
  views-filter :
      (f : PriorityItem T → Bool) (g : ℕ → Bool) (xs : List (PriorityItem T))
      → All (λ y. f y ≡ g y.priority) xs
      → views (filter f xs) ≡ filter (λ x. g x.0) (views xs)
  views-filter f g xs a =
      ap views (filter_congr f (λ y. g y.priority) xs a) ∙ map-filter view (λ x. g x.0) xs

  ordered-pushed :
      (q : PriorityQueue T) (p : ℕ) (v : T)
      → IsValid q
      → q.next_sequence < u64_max
      → views (ordered (pushed q p v))
        ≡ filter (λ x. leb x.0 p) (views (ordered q))
          ++ (p, v) ∷ filter (λ x. not (leb x.0 p)) (views (ordered q))
  unfolding ordered sort_by
  ordered-pushed q p v valid h =
      ap views (
        insert-split listed_before listed-IsTotal item sorted
          (sort_by-IsSortedBy listed_before listed-IsTotal q.entries))
      ∙ map-append view (filter (λ y. not (listed_before item y)) sorted) _
      ∙ ap₂ (λ xs ys. xs ++ (p, v) ∷ ys)
          (views-filter (λ y. not (listed_before item y)) (λ k. leb k p) sorted
            (All-map_pred _ _ (λ y e. rw e (not-not _)) sorted behind))
          (views-filter (λ y. listed_before item y) (λ k. not (leb k p)) sorted behind)
    where
      item : PriorityItem T
      item = item_of q p v

      sorted : List (PriorityItem T)
      sorted = sort_by listed_before q.entries

      behind : All (λ y. listed_before item y ≡ not (leb y.priority p)) sorted
      behind =
          All-map_pred _ _ (λ y b. item-listed_before q p v y h b) sorted
            (All-sort_by _ listed_before q.entries valid.bounded)

  views-same :
      (q q' : PriorityQueue T)
      → Distinct q.entries
      → Distinct q'.entries
      → arrivals q' ≡ arrivals q
      → views (ordered q') ≡ views (ordered q)
  views-same q q' d d' e =
      ordered-eq-sort_arrivals q' d'
      ∙ ap (sort_by priority_le) e
      ∙ sym (ordered-eq-sort_arrivals q d)

  push-pushed :
      (q : PriorityQueue T) (p : ℕ) (v : T)
      → (push p v q).0 ≡ pushed (ensure_sequence_capacity q) p v
  unfolding push
  push-pushed q p v = refl

  -- A push keeps a valid queue of fewer than `u64_max` items valid, and adds its item at the end
  -- of the arrivals, also when it first has to renumber the pending items.
  pub push-arrivals :
      (p : ℕ) (v : T) (q : PriorityQueue T)
      → IsValid q
      → len q < u64_max
      → IsValid (push p v q).0 × (arrivals (push p v q).0 ≡ arrivals q ++ (p, v) ∷ [])
  unfolding len
  push-arrivals p v q valid h =
      let r : HasRoom q (ensure_sequence_capacity q) = ensure-HasRoom q valid h in
      rw (push-pushed q p v) (
        pushed-IsValid _ p v r.valid r.room,
        arrivals-pushed _ p v r.valid r.room ∙ ap (λ xs. xs ++ (p, v) ∷ []) r.same,
      )

  -- Pushed on a valid queue of fewer than `u64_max` items, a value of priority `p` is claimed after
  -- all pending ones with priority value at most `p` and before all the others, which keep their
  -- order; also when the push first has to renumber the pending items.
  pub ordered-push :
      (p : ℕ) (v : T) (q : PriorityQueue T)
      → IsValid q
      → len q < u64_max
      → views (ordered (push p v q).0)
        ≡ filter (λ x. leb x.0 p) (views (ordered q))
          ++ (p, v) ∷ filter (λ x. not (leb x.0 p)) (views (ordered q))
  unfolding len
  ordered-push p v q valid h =
      let r : HasRoom q (ensure_sequence_capacity q) = ensure-HasRoom q valid h in
      rw (push-pushed q p v) (
        ordered-pushed _ p v r.valid r.room
        ∙ ap (λ xs. filter (λ x. leb x.0 p) xs ++ (p, v) ∷ filter (λ x. not (leb x.0 p)) xs)
            (views-same q _ valid.distinct r.valid.distinct r.same))
