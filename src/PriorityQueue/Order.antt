-- ===== src/PriorityQueue/Order.antt =====
-- The claim order of `PriorityQueue`: `ordered` lists the items as `pop` claims them, lowest
-- priority value and then lowest sequence first.
use mathlib.Core.List.{Perm}
use lane.Prelude.{
  ◌<◌, ◌⊎◌, inl, inr, Bool-cases, ltb, All, All-map_pred, ◌≡◌, refl, ◌∙◌, fun_ext, true, false,
  Option, none, some, List, [], ◌∷◌, arith, length, ◌≤◌,
}
use lane.Prelude.Sort.{
  pop_first, sorted_from, sort_by-pop_first, sort_by-perm, sort_by-IsSortedBy, IsSortedBy, IsTotal,
  length-sort_by,
}
use lane.PriorityQueue.{
  PriorityItem, PriorityQueue, claimed_before, listed_before, pop, popped, ordered, len,
}

module _ {ℓ} {T : Type ℓ} where
  -- The reversed comparison of the heap and the comparison of the listing are one order.
  claimed_before-eq-listed_before : (a b : PriorityItem T) → claimed_before a b ≡ listed_before a b
  unfolding claimed_before listed_before
  claimed_before-eq-listed_before a b = ground arith

  claimed_eq_listed : claimed_before {T = T} ≡ listed_before
  claimed_eq_listed = fun_ext λ a. fun_ext λ b. claimed_before-eq-listed_before a b

  listed_total : (a b : PriorityItem T) → listed_before a b ≡ false → listed_before b a ≡ true
  unfolding listed_before
  listed_total a b = ground arith

  listed_trans :
      (a b c : PriorityItem T)
      → listed_before a b ≡ true
      → listed_before b c ≡ true
      → listed_before a c ≡ true
  unfolding listed_before
  listed_trans a b c = ground arith

  pub listed-IsTotal : IsTotal (listed_before {T = T})
  listed-IsTotal = record { total = listed_total; trans = listed_trans }

  abbrev pub claims : Option (PriorityItem T) × PriorityQueue T → List (PriorityItem T)
  claims (none, q) = []
  claims (some m, q) = m ∷ ordered q

  claims-popped :
      (q : PriorityQueue T) (o : Option (PriorityItem T × List (PriorityItem T)))
      → sorted_from listed_before o ≡ claims (popped q o)
  unfolding ordered
  claims-popped q none = refl
  claims-popped q (some (m, rest)) = refl

  pub ordered-claims : (q : PriorityQueue T) → ordered q ≡ claims (pop q)
  unfolding ordered pop
  ordered-claims q = rw claimed_eq_listed (
      sort_by-pop_first listed_before q.entries
      ∙ claims-popped q (pop_first listed_before q.entries))

  pub len-ordered : (q : PriorityQueue T) → length (ordered q) ≡ len q
  unfolding ordered len
  len-ordered q = length-sort_by listed_before q.entries

  -- `a` comes before `b`: it has the lower priority value, or the same and a sequence that is not
  -- higher.
  abbrev pub Earlier : PriorityItem T → PriorityItem T → Type 0
  Earlier a b = (a.priority < b.priority) ⊎ ((a.priority ≡ b.priority) × (a.sequence ≤ b.sequence))

  -- Each item comes before all that follow it.
  abbrev pub InOrder : List (PriorityItem T) → Type 0
  InOrder [] = Unit
  InOrder (x ∷ xs) = All (λ y. Earlier x y) xs × InOrder xs

  listed-Earlier : (a b : PriorityItem T) → listed_before a b ≡ true → Earlier a b
  unfolding listed_before
  listed-Earlier a b h = elim (Bool-cases (ltb a.priority b.priority)) [
    | inl e ↦ inl (ground (arith, e))
    | inr e ↦ inr (ground (arith, e, h), ground (arith, e, h))
  ]

  sorted-InOrder : (xs : List (PriorityItem T)) → IsSortedBy listed_before xs → InOrder xs
  sorted-InOrder [] s = tt
  sorted-InOrder (x ∷ xs) s =
      (All-map_pred _ _ (λ y h. listed-Earlier x y h) xs s.0, sorted-InOrder xs s.1)

  -- `ordered` lists every pending item as often as the queue holds it, and each before all that
  -- have a higher priority value, or the same and a higher sequence.
  pub ordered-Sorted : (q : PriorityQueue T) → InOrder (ordered q) × Perm (ordered q) q.entries
  unfolding ordered
  ordered-Sorted q = (
    sorted-InOrder (ordered q) (sort_by-IsSortedBy listed_before listed-IsTotal q.entries),
    sort_by-perm listed_before q.entries,
  )
