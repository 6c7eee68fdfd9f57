-- ===== src/Job/Later.antt =====
-- src/job/memory.rs: what `add_duration` gives, by the calendar's arithmetic.
use lane.Prelude.{ℕ, ◌+◌, ◌≡◌, refl, ◌⊎◌, inl, inr, Option, none, some}
use lane.Job.{sum_or, shifted, JobEnv, add_duration}

module _ (env : JobEnv) where
  open env use {from_std, checked_add}

  -- `t` is `d` after `now`, or it is `now` where the calendar cannot express `d` or that time.
  abbrev pub IsLater : (now d t : ℕ) → Type 0
  IsLater now d t = (t ≡ now + d) ⊎ ((t ≡ now) × ((from_std d ≡ none) ⊎ (checked_add now d ≡ none)))

  pub add_duration-IsLater : (now d : ℕ) → IsLater now d (add_duration env now d)
  unfolding add_duration
  add_duration-IsLater now d = delta_of (from_std d) refl
    where
      sum_of : (o : Option ℕ) → checked_add now d ≡ o → IsLater now d (sum_or env now o)
      sum_of none e = inr (refl, inr e)
      sum_of (some s) e = inl (env.checked_add-eq now d s e)

      delta_of : (o : Option ℕ) → from_std d ≡ o → IsLater now d (shifted env now o)
      delta_of none e = inr (refl, inl e)
      delta_of (some delta) e = rw (env.from_std-eq d delta e) (sum_of (checked_add now d) refl)
