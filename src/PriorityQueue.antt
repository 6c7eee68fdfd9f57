-- ===== src/PriorityQueue.antt =====
-- src/priority_queue.rs: `PriorityItem` and `PriorityQueue`.
-- The heap is the list of its items; `BinaryHeap::pop` takes an item that `cmp` puts first. Which of
-- several equal ones it takes, and in which order the heap gives its items to `ordered`, the library
-- leaves open, and the model takes the order of the list. Items are equal only if they have one
-- sequence, which takes a restored item that was claimed before a `clear`; what is said of claims is
-- said of queues without such items, where no choice is open.
pub mod Order
pub mod Rebase
pub mod Fifo
pub mod Claims
pub mod Tests
use Prim.Native.Nat.{compare, Ordering}
use lane.Prelude.{
  ℕ, suc, ◌+◌, ◌%◌, ◌^◌, ◌-◌, max, Bool, true, false, Option, none, some, List, [], ◌∷◌, length,
  if◌then◌else◌, ◌==◌, leb,
}
use lane.Prelude.Sort.{sort_by, pop_first}

abbrev pub u64_mod : ℕ
u64_mod = 18446744073709551616

abbrev pub u64_max : ℕ
u64_max = 18446744073709551615

pub record PriorityItem {ℓ} (T : Type ℓ) : Type ℓ where
  pub priority : ℕ
  pub sequence : ℕ
  pub value : T

-- `Ordering::then_with`
abbrev pub then_with : Ordering → Ordering → Ordering
then_with Ordering.eq o = o
then_with Ordering.lt o = Ordering.lt
then_with Ordering.gt o = Ordering.gt

pub record PriorityQueue {ℓ} (T : Type ℓ) : Type ℓ where
  pub entries : List (PriorityItem T)
  pub next_sequence : ℕ

module _ {ℓ} {T : Type ℓ} where
  -- `Ord::cmp`: both keys are reversed, since `BinaryHeap` is a max-heap.
  unfoldable pub cmp : PriorityItem T → PriorityItem T → Ordering
  cmp a b = then_with (compare b.priority a.priority) (compare b.sequence a.sequence)

  -- The heap prefers `a` to `b` unless `a` compares as less.
  unfoldable pub claimed_before : PriorityItem T → PriorityItem T → Bool
  unfolding cmp
  claimed_before a b = elim (cmp a b) [ Ordering.lt ↦ false | _ ↦ true ]

  -- The comparison of `ordered`, as `sort_by` reads it.
  unfoldable pub listed_before : PriorityItem T → PriorityItem T → Bool
  listed_before a b =
      elim (then_with (compare a.priority b.priority) (compare a.sequence b.sequence)) [
        | Ordering.gt ↦ false
        | _ ↦ true
      ]

  abbrev pub seq_le : PriorityItem T → PriorityItem T → Bool
  seq_le a b = leb a.sequence b.sequence

  unfoldable pub new : PriorityQueue T
  new = record { entries = []; next_sequence = 0 }

  unfoldable pub len : PriorityQueue T → ℕ
  len q = length q.entries

  unfoldable pub is_empty : PriorityQueue T → Bool
  is_empty q = len q == 0

  -- `entry.sequence = index as u64 + 1` over `iter_mut().enumerate()`, from index `i`
  unfoldable pub renumber : ℕ → List (PriorityItem T) → List (PriorityItem T)
  renumber i [] = []
  renumber i (x ∷ xs) = record x { sequence = i + 1 } ∷ renumber (i + 1) xs

  unfoldable pub ensure_sequence_capacity : PriorityQueue T → PriorityQueue T
  ensure_sequence_capacity q =
      if q.next_sequence == u64_max
      then record {
        entries = renumber 0 (sort_by seq_le q.entries);
        next_sequence = length q.entries;
      }
      else q

  unfoldable pub push : ℕ → T → PriorityQueue T → PriorityQueue T × ℕ
  unfolding ensure_sequence_capacity
  push priority value q0 =
      let q = ensure_sequence_capacity q0 in
      let sequence = (q.next_sequence + 1) % u64_mod in
      let item : PriorityItem T = record {
        priority = priority;
        sequence = sequence;
        value = value;
      } in
      (record { entries = item ∷ q.entries; next_sequence = sequence }, sequence)

  abbrev pub popped :
      PriorityQueue T
      → Option (PriorityItem T × List (PriorityItem T))
      → Option (PriorityItem T) × PriorityQueue T
  popped q none = (none, q)
  popped q (some (m, rest)) = (some m, record q { entries = rest })

  unfoldable pub pop : PriorityQueue T → Option (PriorityItem T) × PriorityQueue T
  unfolding claimed_before
  pop q = popped q (pop_first claimed_before q.entries)

  unfoldable pub restore : PriorityItem T → PriorityQueue T → PriorityQueue T
  restore item q = record {
    entries = item ∷ q.entries;
    next_sequence = max q.next_sequence item.sequence;
  }

  unfoldable pub ordered : PriorityQueue T → List (PriorityItem T)
  unfolding listed_before
  ordered q = sort_by listed_before q.entries

  unfoldable pub clear : PriorityQueue T → PriorityQueue T
  clear q = record { entries = []; next_sequence = 0 }
