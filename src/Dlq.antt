-- ===== src/Dlq.antt =====
-- src/dlq.rs: `DeadLetter` and `DeadLetterQueue`. The mutex makes each method one step on the
-- letters; the front of the deque is the head of the list. Timestamps are nanoseconds.
pub mod History
pub mod Tests
use Prim.Native.String.{String}
use lane.Prelude.{
  ℕ, Bool, Option, none, some, List, [], ◌∷◌, ◌++◌, length, leb, ◌==◌, if◌then◌else◌,
}

pub record DeadLetter : Type 0 where
  pub command_id : String
  pub command_type : String
  pub lane_id : String
  pub error : String
  pub attempts : ℕ
  pub failed_at : ℕ

pub record DeadLetterQueue : Type 0 where
  pub letters : List DeadLetter
  pub max_size : ℕ

-- `VecDeque::pop_front`: the front element and the rest.
abbrev pub front {ℓ} : {A : Type ℓ} → List A → Option A
front [] = none
front (x ∷ xs) = some x

abbrev pub behind {ℓ} : {A : Type ℓ} → List A → List A
behind [] = []
behind (x ∷ xs) = xs

unfoldable pub new : ℕ → DeadLetterQueue
new max_size = record { letters = []; max_size = max_size }

unfoldable pub push : DeadLetter → DeadLetterQueue → DeadLetterQueue
push letter q =
    let kept = if leb q.max_size (length q.letters) then behind q.letters else q.letters in
    record q { letters = kept ++ letter ∷ [] }

unfoldable pub pop : DeadLetterQueue → Option DeadLetter × DeadLetterQueue
pop q = (front q.letters, record q { letters = behind q.letters })

unfoldable pub list : DeadLetterQueue → List DeadLetter
list q = q.letters

unfoldable pub clear : DeadLetterQueue → DeadLetterQueue
clear q = record q { letters = [] }

unfoldable pub len : DeadLetterQueue → ℕ
len q = length q.letters

unfoldable pub is_empty : DeadLetterQueue → Bool
is_empty q = length q.letters == 0
