-- ===== src/Dlq/Tests.antt =====
-- A run of the dead letter queue, and its history theorem at that run.
use lane.Prelude.{ℕ, ◌≡◌, refl, List, [], ◌∷◌, max}
use lane.Dlq.{DeadLetter, new, push, list}
use lane.Dlq.History.{push_all, push_all-new, latest}

abbrev letter : ℕ → DeadLetter
letter n = record {
  command_id = "c";
  command_type = "test";
  lane_id = "query";
  error = "boom";
  attempts = n;
  failed_at = 0;
}

abbrev letters : List DeadLetter
letters = letter 1 ∷ letter 2 ∷ letter 3 ∷ letter 4 ∷ []

eviction_runs : list (push_all letters (new 3)) ≡ letter 2 ∷ letter 3 ∷ letter 4 ∷ []
unfolding push_all push list new
eviction_runs = refl

push_all-new_example : list (push_all letters (new 3)) ≡ latest (max 1 3) letters
push_all-new_example = push_all-new 3 letters
