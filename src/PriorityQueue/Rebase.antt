-- ===== src/PriorityQueue/Rebase.antt =====
-- `ensure_sequence_capacity` renumbers the items when the sequence counter is used up. It is seen
-- here against the queue's arrivals: priorities and values, in insertion order.
use lane.Prelude.{
  ℕ, ◌+◌, ◌≤◌, ◌<◌, ◌≡◌, ◌≢◌, refl, sym, ap, ◌∙◌, Bool, true, false, not, List, [], ◌∷◌, map, arith,
  length, All, All-map_pred, Bool-cases, inl, inr, leb,
}
use lane.Prelude.Sort.{
  sort_by, insert, insert_comm, All-sort_by, sort_by-IsSortedBy, IsSortedBy, IsTotal,
}
use lane.PriorityQueue.{PriorityItem, PriorityQueue, listed_before, seq_le, ordered, renumber}
use lane.PriorityQueue.Order.{listed-IsTotal}

module _ {ℓ} {T : Type ℓ} where
  -- What a host sees of an item.
  abbrev pub view : PriorityItem T → ℕ × T
  view x = (x.priority, x.value)

  abbrev pub views : List (PriorityItem T) → List (ℕ × T)
  views = map view

  abbrev pub priority_le : ℕ × T → ℕ × T → Bool
  priority_le (p, v) (q, w) = leb p q

  seq_total : (a b : PriorityItem T) → seq_le a b ≡ false → seq_le b a ≡ true
  seq_total a b = ground arith

  seq_trans : (a b c : PriorityItem T) → seq_le a b ≡ true → seq_le b c ≡ true → seq_le a c ≡ true
  seq_trans a b c = ground arith

  pub seq-IsTotal : IsTotal (seq_le {T = T})
  seq-IsTotal = record { total = seq_total; trans = seq_trans }

  abbrev Apart : PriorityItem T → PriorityItem T → Type 0
  Apart x y = x.sequence ≢ y.sequence

  -- No two items have one sequence.
  abbrev pub Distinct : List (PriorityItem T) → Type 0
  Distinct [] = Unit
  Distinct (x ∷ xs) = All (λ y. x.sequence ≢ y.sequence) xs × Distinct xs

  Apart-listed :
      (x y : PriorityItem T) → x.sequence ≢ y.sequence → listed_before x y ≡ not (listed_before y x)
  unfolding listed_before
  Apart-listed x y h = ground arith

  sort-insert_seq :
      (x : PriorityItem T) (xs : List (PriorityItem T))
      → All (λ y. x.sequence ≢ y.sequence) xs
      → sort_by listed_before (insert seq_le x xs)
        ≡ insert listed_before x (sort_by listed_before xs)
  unfolding sort_by insert
  sort-insert_seq x [] a = refl
  sort-insert_seq x (y ∷ ys) a = elim (Bool-cases (seq_le x y)) [
    | inl e ↦ rw e refl
    | inr e ↦ rw e (
        ap (insert listed_before y) (sort-insert_seq x ys a.1)
        ∙ insert_comm listed_before listed-IsTotal y x (sort_by listed_before ys)
            (Apart-listed y x (λ p. a.0 (sym p))))
  ]

  -- Sorting by arrival first changes nothing.
  pub sort-sort_seq :
      (xs : List (PriorityItem T))
      → Distinct xs
      → sort_by listed_before (sort_by seq_le xs) ≡ sort_by listed_before xs
  unfolding sort_by
  sort-sort_seq [] d = refl
  sort-sort_seq (x ∷ xs) d =
      sort-insert_seq x (sort_by seq_le xs) (All-sort_by _ seq_le xs d.0)
      ∙ ap (insert listed_before x) (sort-sort_seq xs d.1)

  views-insert :
      (x : PriorityItem T) (xs : List (PriorityItem T))
      → All (λ y. seq_le x y ≡ true) xs
      → views (insert listed_before x xs) ≡ insert priority_le (view x) (views xs)
  unfolding insert listed_before
  views-insert x [] a = refl
  views-insert x (y ∷ ys) a = ground (arith, views-insert x ys a.1)

  -- Of items that stand in arrival order, the listing is the stable sort by priority.
  pub views-sort :
      (xs : List (PriorityItem T))
      → IsSortedBy seq_le xs
      → views (sort_by listed_before xs) ≡ sort_by priority_le (views xs)
  unfolding sort_by
  views-sort [] s = refl
  views-sort (x ∷ xs) s =
      views-insert x (sort_by listed_before xs) (All-sort_by _ listed_before xs s.0)
      ∙ ap (insert priority_le (view x)) (views-sort xs s.1)

  -- The pending items by arrival.
  abbrev pub arrivals : PriorityQueue T → List (ℕ × T)
  arrivals q = views (sort_by seq_le q.entries)

  -- When all pending sequences differ, `ordered` lists priorities and values as the stable sort of
  -- the arrivals by priority: lower priority values first, and in arrival order among equal ones.
  pub ordered-eq-sort_arrivals :
      (q : PriorityQueue T)
      → Distinct q.entries
      → views (ordered q) ≡ sort_by priority_le (arrivals q)
  unfolding ordered
  ordered-eq-sort_arrivals q d =
      ap views (sym (sort-sort_seq q.entries d))
      ∙ views-sort (sort_by seq_le q.entries) (sort_by-IsSortedBy seq_le seq-IsTotal q.entries)

  pub views-renumber : (i : ℕ) (xs : List (PriorityItem T)) → views (renumber i xs) ≡ views xs
  unfolding renumber
  views-renumber i [] = refl
  views-renumber i (x ∷ xs) = ap (◌∷◌ (view x)) (views-renumber (i + 1) xs)

  renumber_above :
      (i j : ℕ) (xs : List (PriorityItem T)) → j ≤ i → All (λ y. j < y.sequence) (renumber i xs)
  unfolding renumber
  renumber_above i j [] h = tt
  renumber_above i j (x ∷ xs) h = (omega arith, renumber_above (i + 1) j xs (omega arith))

  pub renumber_below :
      (i n : ℕ) (xs : List (PriorityItem T))
      → i + length xs ≤ n
      → All (λ y. y.sequence ≤ n) (renumber i xs)
  unfolding renumber
  renumber_below i n [] h = tt
  renumber_below i n (x ∷ xs) h = (omega arith, renumber_below (i + 1) n xs (omega arith))

  pub renumber-Distinct : (i : ℕ) (xs : List (PriorityItem T)) → Distinct (renumber i xs)
  unfolding renumber
  renumber-Distinct i [] = tt
  renumber-Distinct i (x ∷ xs) = (
    All-map_pred _ _ (λ y h. omega arith) _ (renumber_above (i + 1) (i + 1) xs (omega arith)),
    renumber-Distinct (i + 1) xs,
  )

  pub renumber-IsSortedBy : (i : ℕ) (xs : List (PriorityItem T)) → IsSortedBy seq_le (renumber i xs)
  unfolding renumber
  renumber-IsSortedBy i [] = tt
  renumber-IsSortedBy i (x ∷ xs) = (
    All-map_pred _ _ (λ y h. ground arith) _ (renumber_above (i + 1) (i + 1) xs (omega arith)),
    renumber-IsSortedBy (i + 1) xs,
  )
