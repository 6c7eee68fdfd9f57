-- ===== src/Boost/Priority.antt =====
-- What a boost does to priorities over time.
use mathlib.Core.List.{Perm}
use mathlib.Core.List.Perm
use lane.Prelude.{
  refl, All-map_pred, ℕ, ◌-◌, ◌≤◌, ◌<◌, ◌≡◌, true, false, Option, List, [], ◌∷◌, ◌++◌, leb,
  if◌then◌else◌, arith, All,
}
use lane.Prelude.Sort.{sort_by, sort_by-perm, sort_by-IsSortedBy, IsSortedBy}
use lane.Boost.{
  PriorityBoostConfig, with_boost, longer_first, find_boost, calculate_priority, is_past_deadline,
  deadline_of, whole_millis,
}

longer_total : (a b : ℕ × ℕ) → longer_first a b ≡ false → longer_first b a ≡ true
longer_total (a, x) (b, y) h = ground arith

longer_trans :
    (a b c : ℕ × ℕ) → longer_first a b ≡ true → longer_first b c ≡ true → longer_first a c ≡ true
longer_trans (a, x) (b, y) (c, z) h k = ground arith

-- No time is followed by a longer one.
abbrev pub Falling : List (ℕ × ℕ) → Type 0
Falling [] = Unit
Falling (x ∷ xs) = All (λ y. y.0 ≤ x.0) xs × Falling xs

sorted-Falling : (xs : List (ℕ × ℕ)) → IsSortedBy longer_first xs → Falling xs
sorted-Falling [] s = tt
sorted-Falling (x ∷ xs) s =
    (All-map_pred _ _ (λ y h. ground (arith, h)) xs s.0, sorted-Falling xs s.1)

append-perm : {A : Type 0} (x : A) (xs : List A) → Perm (xs ++ x ∷ []) (x ∷ xs)
append-perm x [] = Perm.refl _
append-perm x (y ∷ ys) = Perm.trans (Perm.cons y (append-perm x ys)) (Perm.swap x y ys)

-- Whatever the intervals were, after `with_boost` they are those and the new one, no time followed
-- by a longer one; the deadline and the switch stay as they were.
pub with_boost-Falling :
    (c : PriorityBoostConfig) (time boost : ℕ)
    → let c' = with_boost c time boost in
      Falling c'.boost_intervals
      × Perm c'.boost_intervals ((time, boost) ∷ c.boost_intervals)
      × (c'.deadline ≡ c.deadline)
      × (c'.enabled ≡ c.enabled)
unfolding with_boost
with_boost-Falling c time boost =
    let all = c.boost_intervals ++ (time, boost) ∷ [] in
    (
      sorted-Falling (sort_by longer_first all) (
          sort_by-IsSortedBy longer_first (record { total = longer_total; trans = longer_trans })
            all),
      Perm.trans (sort_by-perm longer_first all) (append-perm (time, boost) c.boost_intervals),
      refl,
      refl,
    )

-- Shorter times before the deadline give at least the boost of longer ones.
abbrev pub Graded : ℕ → List (ℕ × ℕ) → Type 0
Graded least [] = Unit {0}
Graded least ((threshold, boost) ∷ rest) = (least ≤ boost) × Graded boost rest

Graded-weaken : (a b : ℕ) (xs : List (ℕ × ℕ)) → a ≤ b → Graded b xs → Graded a xs
Graded-weaken a b [] h g = tt
Graded-weaken a b ((t, x) ∷ xs) h g = (omega arith, g.1)

-- Less time left, and a boost at least as high so far, give a boost at least as high.
find_boost_mono :
    (r r' b b' : ℕ) (xs : List (ℕ × ℕ))
    → r ≤ r'
    → b' ≤ b
    → Graded b xs
    → find_boost r' b' xs ≤ find_boost r b xs
unfolding find_boost
find_boost_mono r r' b b' [] h k g = k
find_boost_mono r r' b b' ((t, x) ∷ xs) h k g = ground (
  arith,
  find_boost_mono r r' x x xs h,
  find_boost_mono r r' x b' xs h,
  find_boost_mono r r' b b' xs h,
  Graded-weaken b x xs,
)

-- The boost is that of the last interval in the list whose time the remaining one does not pass:
-- if the list is in order, of the shortest such time.
pub find_boost_last :
    (r b t x : ℕ) (xs ys : List (ℕ × ℕ))
    → r ≤ t
    → All (λ y. y.0 < r) ys
    → find_boost r b (xs ++ (t, x) ∷ ys) ≡ x
unfolding find_boost
find_boost_last r b t x [] [] h a = ground arith
find_boost_last r b t x [] ((t', x') ∷ ys) h a = ground (arith, find_boost_last r b t x [] ys h a.1)
find_boost_last r b t x ((t', x') ∷ xs) ys h a =
    find_boost_last r (if leb r t' then x' else b) t x xs ys h a

module _ (from_std : ℕ → Option ℕ) where
  -- A priority is never above the base; it is 0 once the deadline is past and the base where
  -- boosting is disabled.
  pub calculate_priority_bounds :
      (c : PriorityBoostConfig) (now base created : ℕ)
      → (calculate_priority from_std c now base created ≤ base)
        × ((if is_past_deadline from_std c now created
              then calculate_priority from_std c now base created
              else 0)
            ≡ 0)
        × ((if c.enabled then base else calculate_priority from_std c now base created) ≡ base)
  unfolding calculate_priority is_past_deadline
  calculate_priority_bounds c now base created = (ground arith, ground arith, ground arith)

  millis_mono : (a b : ℕ) → a ≤ b → whole_millis from_std a ≤ whole_millis from_std b
  millis_mono a b h = omega arith

  -- If shorter times before the deadline give at least the boost of the longer ones, which stand
  -- before them, then a command's priority value never rises as time passes.
  pub calculate_priority_mono :
      (c : PriorityBoostConfig) (now later base created : ℕ)
      → Graded 0 c.boost_intervals
      → now ≤ later
      → calculate_priority from_std c later base created
        ≤ calculate_priority from_std c now base created
  unfolding calculate_priority
  calculate_priority_mono c now later base created g h =
      let d : ℕ = deadline_of from_std c created in
      ground (
        arith,
        find_boost_mono (whole_millis from_std (d - later)) (whole_millis from_std (d - now)) 0 0
            c.boost_intervals (millis_mono (d - later) (d - now) (omega arith)) (omega arith) g,
      )
