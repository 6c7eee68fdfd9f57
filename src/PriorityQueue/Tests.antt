-- ===== src/PriorityQueue/Tests.antt =====
-- Runs of the priority queue, and its theorems at concrete queues.
use lane.Prelude.{ℕ, ◌≡◌, refl, some, [], ◌∷◌, ◌++◌, map, arith, filter, leb, not}
use lane.Prelude.Sort.{sort_by, pop_first}
use lane.PriorityQueue.{
  PriorityItem, PriorityQueue, push, pop, restore, ordered, renumber, u64_max, len,
}
use lane.PriorityQueue.Order.{claims, InOrder, ordered-Sorted}
use lane.PriorityQueue.Rebase.{view, views, arrivals, priority_le, ordered-eq-sort_arrivals}
use lane.PriorityQueue.Fifo.{IsValid, push-arrivals, ordered-push}
use lane.PriorityQueue.Claims.{
  ClaimIsValid, ordered-pop, drain, drain-eq-ordered, ordered-restore-pop,
}
use mathlib.Core.List.{Perm}

abbrev item : ℕ → ℕ → PriorityItem ℕ
item p s = record { priority = p; sequence = s; value = s }

-- The counter is used up; the items arrived as 7, 8 and `u64_max`.
abbrev full : PriorityQueue ℕ
full = record { entries = item 1 8 ∷ item 5 7 ∷ item 1 u64_max ∷ []; next_sequence = u64_max }

abbrev rest : PriorityQueue ℕ
rest = record full { entries = item 5 7 ∷ item 1 u64_max ∷ [] }

full-IsValid : IsValid full
full-IsValid = record { bounded = omega arith; fits = omega arith; distinct = omega arith }

ordered_runs : map view (ordered full) ≡ (1, 8) ∷ (1, u64_max) ∷ (5, 7) ∷ []
unfolding ordered sort_by
ordered_runs = refl

push_renumbers : (push 1 9 full).1 ≡ 4
unfolding push sort_by renumber
push_renumbers = refl

pop-full : pop full ≡ (some (item 1 8), rest)
unfolding pop pop_first
pop-full = refl

ordered-pop_example : (ordered full ≡ claims (pop full)) × ClaimIsValid (pop full)
ordered-pop_example = ordered-pop full full-IsValid

drain-eq-ordered_example : drain 3 full ≡ ordered full
drain-eq-ordered_example = drain-eq-ordered 3 full full-IsValid (unfold len in omega arith)

ordered-Sorted_example : InOrder (ordered full) × Perm (ordered full) full.entries
ordered-Sorted_example = ordered-Sorted full

ordered-restore-pop_example : ordered (restore (item 1 8) rest) ≡ ordered full
ordered-restore-pop_example = ordered-restore-pop full rest (item 1 8) full-IsValid pop-full

-- A queue that was cleared gets back an item with a sequence that it has not given out since.
abbrev cleared : PriorityQueue ℕ
cleared = record { entries = item 0 1 ∷ item 1 2 ∷ []; next_sequence = 2 }

ordered-eq-sort_arrivals_example : views (ordered full) ≡ sort_by priority_le (arrivals full)
ordered-eq-sort_arrivals_example = ordered-eq-sort_arrivals full full-IsValid.distinct

push-arrivals_example :
    IsValid (push 1 9 full).0 × (arrivals (push 1 9 full).0 ≡ arrivals full ++ (1, 9) ∷ [])
push-arrivals_example = push-arrivals 1 9 full full-IsValid (unfold len in omega arith)

ordered-push_example :
    views (ordered (push 1 9 full).0)
    ≡ filter (λ x. leb x.0 1) (views (ordered full))
      ++ (1, 9) ∷ filter (λ x. not (leb x.0 1)) (views (ordered full))
ordered-push_example = ordered-push 1 9 full full-IsValid (unfold len in omega arith)
