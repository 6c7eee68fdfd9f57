-- ===== src/Boost/Tests.antt =====
-- The boosting theorems at a configuration with two intervals.
use lane.Prelude.{◌≤◌, ◌≡◌, refl, true, some, [], ◌∷◌, ◌++◌, arith, if◌then◌else◌, ℕ, ◌*◌, ◌/◌}
use mathlib.Core.List.{Perm}
use lane.Prelude.Sort.{sort_by}
use lane.Boost.{
  PriorityBoostConfig, new, with_boost, find_boost, calculate_priority, is_past_deadline, standard,
  aggressive,
}
use lane.Boost.Priority.{
  Falling, with_boost-Falling, find_boost_last, calculate_priority_bounds, calculate_priority_mono,
}

abbrev two_steps : PriorityBoostConfig
two_steps = record {
  enabled = true;
  deadline = 60000000000;
  boost_intervals = (30000000000, 2) ∷ (15000000000, 3) ∷ [];
}

with_boost_runs : with_boost (with_boost (new 60000000000) 15000000000 3) 30000000000 2 ≡ two_steps
unfolding with_boost new sort_by
with_boost_runs = refl

abbrev percent : ℕ → ℕ → ℕ
percent d n = d * n / 100

standard_runs :
    (standard percent 1000).boost_intervals ≡ (750, 1) ∷ (500, 2) ∷ (250, 3) ∷ (100, 4) ∷ []
unfolding standard sort_by
standard_runs = refl

aggressive_runs :
    (aggressive percent 1000).boost_intervals ≡ (800, 2) ∷ (600, 4) ∷ (400, 6) ∷ (200, 8) ∷ []
unfolding aggressive sort_by
aggressive_runs = refl

calculate_runs : calculate_priority some two_steps 50000000000 5 0 ≡ 2
unfolding calculate_priority
calculate_runs = refl

with_boost-Falling_example :
    let c' = with_boost two_steps 20000000000 9 in
    Falling c'.boost_intervals
    × Perm c'.boost_intervals ((20000000000, 9) ∷ two_steps.boost_intervals)
    × (c'.deadline ≡ two_steps.deadline)
    × (c'.enabled ≡ two_steps.enabled)
with_boost-Falling_example = with_boost-Falling two_steps 20000000000 9

-- Ten seconds are left: the interval of 15 s decides, though that of 30 s has the higher boost.
find_boost_last_example : find_boost 10 0 (((30, 5) ∷ []) ++ (15, 2) ∷ []) ≡ 2
find_boost_last_example = find_boost_last 10 0 15 2 ((30, 5) ∷ []) [] (omega arith) tt

calculate_priority_bounds_example :
    (calculate_priority some two_steps 70000000000 5 0 ≤ 5)
    × ((if is_past_deadline some two_steps 70000000000 0
          then calculate_priority some two_steps 70000000000 5 0
          else 0)
        ≡ 0)
    × ((if two_steps.enabled then 5 else calculate_priority some two_steps 70000000000 5 0) ≡ 5)
calculate_priority_bounds_example = calculate_priority_bounds some two_steps 70000000000 5 0

calculate_priority_mono_example :
    calculate_priority some two_steps 50000000000 5 0
    ≤ calculate_priority some two_steps 20000000000 5 0
calculate_priority_mono_example =
    calculate_priority_mono some two_steps 20000000000 50000000000 5 0 (omega arith) (omega arith)
