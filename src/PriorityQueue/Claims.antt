-- ===== src/PriorityQueue/Claims.antt =====
-- Claims and their return, on queues in which no two items have one sequence: there `BinaryHeap`
-- has no choice between items that compare as equal.
use lane.Prelude.{
  ℕ, zero, suc, ◌≡◌, ◌∙◌, ap, subst, ltb, ◌==◌, ◌||◌, ◌&&◌, length, ◌≤◌, ◌≢◌, sym, Bool, Option,
  none, some, List, [], ◌∷◌, arith, All, Bool-cases, inl, inr, refl,
}
use lane.Prelude.Sort.{
  IsSortedBy, sort_by, sort_by-IsSortedBy, insert_first, pop_first, choose, Taken, All-pop_first,
}
use lane.PriorityQueue.Order.{claims, ordered-claims, len-ordered, listed-IsTotal}
use lane.PriorityQueue.{
  ordered, len, u64_max, listed_before, PriorityItem, PriorityQueue, claimed_before, pop, popped,
  restore,
}
use lane.PriorityQueue.Rebase.{Distinct}
use lane.PriorityQueue.Fifo.{IsValid}

module _ {ℓ} {T : Type ℓ} where
  -- The claimed item differs from the others, which differ among themselves.
  abbrev DistinctTaken : Option (PriorityItem T × List (PriorityItem T)) → Type 0
  DistinctTaken none = Unit
  DistinctTaken (some (m, rest)) = All (λ y. m.sequence ≢ y.sequence) rest × Distinct rest

  choose-DistinctTaken :
      (le : PriorityItem T → PriorityItem T → Bool) (x : PriorityItem T)
      (xs : List (PriorityItem T)) (o : Option (PriorityItem T × List (PriorityItem T)))
      → All (λ y. x.sequence ≢ y.sequence) xs
      → Distinct xs
      → Taken (λ y. x.sequence ≢ y.sequence) o
      → DistinctTaken o
      → DistinctTaken (choose le x xs o)
  choose-DistinctTaken le x xs none a d t dt = (a, d)
  choose-DistinctTaken le x xs (some (m, rest)) a d t dt = elim (Bool-cases (le x m)) [
    | inl e ↦ rw e (a, d)
    | inr e ↦ rw e ((λ p. t.0 (sym p), dt.0), (t.1, dt.1))
  ]

  pop_first-DistinctTaken :
      (le : PriorityItem T → PriorityItem T → Bool) (xs : List (PriorityItem T))
      → Distinct xs
      → DistinctTaken (pop_first le xs)
  unfolding pop_first
  pop_first-DistinctTaken le [] d = tt
  pop_first-DistinctTaken le (x ∷ xs) d =
      choose-DistinctTaken le x xs (pop_first le xs) d.0 d.1 (All-pop_first _ le xs d.0)
        (pop_first-DistinctTaken le xs d.1)

  -- The queue that a claim leaves is valid, and the claimed item has a sequence of its own.
  abbrev pub ClaimIsValid : Option (PriorityItem T) × PriorityQueue T → Type ℓ
  ClaimIsValid (none, q) = IsValid q
  ClaimIsValid (some m, q) =
      IsValid q × (m.sequence ≤ u64_max) × All (λ y. m.sequence ≢ y.sequence) q.entries

  popped-ClaimIsValid :
      (q : PriorityQueue T) (o : Option (PriorityItem T × List (PriorityItem T)))
      → IsValid q
      → Taken (λ y. y.sequence ≤ q.next_sequence) o
      → DistinctTaken o
      → ClaimIsValid (popped q o)
  popped-ClaimIsValid q none v t d = v
  popped-ClaimIsValid q (some (m, rest)) v t d =
      (record { bounded = t.1; fits = v.fits; distinct = d.1 }, omega (arith, t.0, v.fits), d.0)

  pop-ClaimIsValid : (q : PriorityQueue T) → IsValid q → ClaimIsValid (pop q)
  unfolding pop
  pop-ClaimIsValid q v =
      popped-ClaimIsValid q (pop_first claimed_before q.entries) v
        (All-pop_first _ claimed_before q.entries v.bounded)
        (pop_first-DistinctTaken claimed_before q.entries v.distinct)

  -- On a valid queue `pop` returns nothing exactly when `ordered` is empty; otherwise it claims the
  -- first item of `ordered`, and the queue that is left lists the others in the same order. That
  -- queue is valid, and no item in it has the sequence of the one claimed.
  pub ordered-pop :
      (q : PriorityQueue T) → IsValid q → (ordered q ≡ claims (pop q)) × ClaimIsValid (pop q)
  ordered-pop q v = (ordered-claims q, pop-ClaimIsValid q v)

  abbrev drain_from :
      (PriorityQueue T → List (PriorityItem T))
      → Option (PriorityItem T) × PriorityQueue T
      → List (PriorityItem T)
  drain_from f (none, q) = []
  drain_from f (some m, q) = m ∷ f q

  -- The items that `n` claims in a row return.
  unfoldable pub drain : ℕ → PriorityQueue T → List (PriorityItem T)
  drain zero q = []
  drain (suc n) q = drain_from (drain n) (pop q)

  drain_case :
      (f : PriorityQueue T → List (PriorityItem T)) (n : ℕ) (q : PriorityQueue T)
      (r : Option (PriorityItem T) × PriorityQueue T)
      → ordered q ≡ claims r
      → len q ≤ suc n
      → ClaimIsValid r
      → ((q' : PriorityQueue T) → IsValid q' → len q' ≤ n → f q' ≡ ordered q')
      → drain_from f r ≡ ordered q
  drain_case f n q (none, q') c h v ih = sym c
  drain_case f n q (some m, q') c h v ih =
      let l : length (ordered q) ≡ suc (length (ordered q')) = ap length c in
      rw c (ap (◌∷◌ m) (ih q' v.0 (omega (arith, len-ordered q, len-ordered q'))))

  empty_of_length : (xs : List (PriorityItem T)) → length xs ≤ 0 → xs ≡ []
  empty_of_length [] h = refl
  empty_of_length (x ∷ xs) h = absurd (omega arith)

  -- For every valid queue and every bound `n` on its number of items: `n` claims in a row return
  -- exactly the items of `ordered`, in that order.
  pub drain-eq-ordered :
      (n : ℕ) (q : PriorityQueue T) → IsValid q → len q ≤ n → drain n q ≡ ordered q
  unfolding drain
  drain-eq-ordered zero q v h = sym (empty_of_length (ordered q) (omega (arith, len-ordered q)))
  drain-eq-ordered (suc n) q v h =
      drain_case (drain n) n q (pop q) (ordered-claims q) h (pop-ClaimIsValid q v)
        (drain-eq-ordered n)

  -- `y` is claimed before `m`.
  abbrev pub ahead_of : PriorityItem T → PriorityItem T → Bool
  ahead_of m y =
      ltb y.priority m.priority || (y.priority == m.priority && ltb y.sequence m.sequence)

  -- When an item that `pop` has claimed from a valid queue is restored, the queue lists the same
  -- items in the same order as before the claim.
  pub ordered-restore-pop :
      (q q' : PriorityQueue T) (m : PriorityItem T)
      → IsValid q
      → pop q ≡ (some m, q')
      → ordered (restore m q') ≡ ordered q
  unfolding ordered restore sort_by
  ordered-restore-pop q q' m v e =
      let c : ordered q ≡ m ∷ ordered q' = rw e at (ordered-claims q) in
      let s : IsSortedBy listed_before (m ∷ ordered q') =
        subst (IsSortedBy listed_before) c
          (sort_by-IsSortedBy listed_before listed-IsTotal q.entries) in
      insert_first listed_before listed-IsTotal m (ordered q') s.0 ∙ sym c
