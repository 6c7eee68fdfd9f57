-- ===== src/Boost.antt =====
-- src/boost.rs: deadline-based priority boosting. Durations and timestamps are nanoseconds, and the
-- clock's reading `now` is an argument. `chrono::Duration::from_std`, which refuses durations that
-- are too long for it, is the parameter `from_std`; sums of dates do not overflow.
pub mod Priority
pub mod Tests
use mathlib.Core.Option
use lane.Prelude.{
  ℕ, ◌+◌, ◌-◌, Bool, true, false, Option, none, some, List, [], ◌∷◌, ◌++◌, leb, not, if◌then◌else◌,
}
use lane.Prelude.Sort.{sort_by}
use lane.Time.{from_millis, as_millis}

-- An interval: the time before the deadline, and the boost.
pub record PriorityBoostConfig : Type 0 where
  pub enabled : Bool
  pub deadline : ℕ
  pub boost_intervals : List (ℕ × ℕ)

unfoldable pub new : ℕ → PriorityBoostConfig
new deadline = record { enabled = true; deadline = deadline; boost_intervals = [] }

unfoldable pub disabled : PriorityBoostConfig
disabled = record { enabled = false; deadline = 0; boost_intervals = [] }

-- `sort_by_key(Reverse(interval.0))`
abbrev pub longer_first : ℕ × ℕ → ℕ × ℕ → Bool
longer_first (a, x) (b, y) = leb b a

unfoldable pub with_boost : PriorityBoostConfig → ℕ → ℕ → PriorityBoostConfig
with_boost c time_before_deadline boost = record c {
  boost_intervals = sort_by longer_first (c.boost_intervals ++ (time_before_deadline, boost) ∷ []);
}

-- The loop over the intervals, from the boost found so far.
unfoldable pub find_boost : ℕ → ℕ → List (ℕ × ℕ) → ℕ
find_boost remaining boost [] = boost
find_boost remaining boost ((threshold, boost_amount) ∷ rest) =
    find_boost remaining (if leb remaining threshold then boost_amount else boost) rest

-- `percent d n` is `Duration::from_secs_f64(d.as_secs_f64() * n / 100)`, rounded as `f64` does.
module _ (percent : ℕ → ℕ → ℕ) where
  unfoldable pub standard : ℕ → PriorityBoostConfig
  unfolding new with_boost
  standard deadline =
      with_boost
        (with_boost
          (with_boost (with_boost (new deadline) (percent deadline 75) 1) (percent deadline 50) 2)
          (percent deadline 25) 3)
        (percent deadline 10) 4

  unfoldable pub aggressive : ℕ → PriorityBoostConfig
  unfolding new with_boost
  aggressive deadline =
      with_boost
        (with_boost
          (with_boost (with_boost (new deadline) (percent deadline 80) 2) (percent deadline 60) 4)
          (percent deadline 40) 6)
        (percent deadline 20) 8

module _ (from_std : ℕ → Option ℕ) where
  unfoldable pub deadline_of : PriorityBoostConfig → ℕ → ℕ
  deadline_of c created_at = created_at + Option.get_or (from_std c.deadline) 0

  -- `num_milliseconds` of a positive difference, as a `Duration`.
  abbrev pub whole_millis : ℕ → ℕ
  whole_millis d = from_millis (as_millis d)

  unfoldable pub calculate_priority : PriorityBoostConfig → ℕ → ℕ → ℕ → ℕ
  unfolding deadline_of find_boost
  calculate_priority c now base_priority created_at =
      if not c.enabled
      then base_priority
      else (let deadline = deadline_of c created_at in
          if leb deadline now
          then 0
          else base_priority - find_boost (whole_millis (deadline - now)) 0 c.boost_intervals)

  unfoldable pub is_past_deadline : PriorityBoostConfig → ℕ → ℕ → Bool
  unfolding deadline_of
  is_past_deadline c now created_at =
      if not c.enabled then false else leb (deadline_of c created_at) now

  unfoldable pub time_remaining : PriorityBoostConfig → ℕ → ℕ → Option ℕ
  unfolding deadline_of
  time_remaining c now created_at =
      if not c.enabled
      then none
      else (let deadline = deadline_of c created_at in
          if leb deadline now then some 0 else some (whole_millis (deadline - now)))
