-- ===== src/Job/Queue/Children/Termination.antt =====
-- The search for the children to remove ends: each call of itself marks a job that was not marked.
use Prim.Native.String.{String}
use text.Mathlib.Text.{◌==◌ as str_eq}
use lane.Prelude.{
  ℕ, zero, suc, ◌≤◌, ◌<◌, ◌≡◌, refl, sym, subst, arith, Bool, true, false, not, ◌||◌, Option, none,
  some, List, [], ◌∷◌, filter, length, has_text, Bool-cases, inl, inr, if◌then◌else◌, same_text,
  text_refl,
}
use lane.Job.{Job, active, same_state, is_terminal}
use lane.Job.Queue.{get}
use lane.Job.Queue.Children.{Collected, collected_after, visit_child, and_then, visit, collect}

module _ {F V : Type 0} where
  -- The jobs that are not marked as seen.
  abbrev unseen : List (String × Job F V) → List String → ℕ
  unseen jobs seen = length (filter (λ r. not (has_text r.0 seen)) jobs)

  unseen_mono :
      (c : String) (seen : List String) (jobs : List (String × Job F V))
      → unseen jobs (c ∷ seen) ≤ unseen jobs seen
  unseen_mono c seen [] = omega arith
  unseen_mono c seen ((k, j) ∷ jobs) = ground (arith, unseen_mono c seen jobs)

  unseen_less :
      (c : String) (seen : List String) (jobs : List (String × Job F V)) (child : Job F V)
      → get c jobs ≡ some child
      → has_text c seen ≡ false
      → unseen jobs (c ∷ seen) < unseen jobs seen
  unseen_less c seen [] child e f = cc
  unseen_less c seen ((k, j) ∷ jobs) child e f = elim (Bool-cases (str_eq k c)) [
    | inl t ↦
        let p : c ≡ k = sym (same_text k c t) in
        let s : str_eq c k ≡ true = subst (λ u. str_eq c u ≡ true) p (text_refl c) in
        let g : has_text k seen ≡ false = subst (λ u. has_text u seen ≡ false) p f in
        ground (arith, s, g, unseen_mono c seen jobs)
    | inr t ↦ ground (arith, t, e, unseen_less c seen jobs child (ground (arith, t, e)) f)
  ]

  -- There is a result, and it leaves at most so many jobs unmarked.
  abbrev Within : List (String × Job F V) → ℕ → Option Collected → Type 0
  Within jobs n none = 1 ≤ 0
  Within jobs n (some (out, seen)) = unseen jobs seen ≤ n

  Within-le :
      (jobs : List (String × Job F V)) (m n : ℕ) (o : Option Collected)
      → m ≤ n
      → Within jobs m o
      → Within jobs n o
  Within-le jobs m n none h w = absurd (omega (arith, w))
  Within-le jobs m n (some (out, seen)) h w = omega (arith, h, w)

  after-Within :
      (jobs : List (String × Job F V)) (id : String) (n : ℕ) (o : Option Collected)
      → Within jobs n o
      → Within jobs n (collected_after id o)
  after-Within jobs id n none w = w
  after-Within jobs id n (some (out, seen)) w = w

  -- The search stays within its bound where fewer jobs than `n` are unmarked.
  abbrev Bounded :
      List (String × Job F V) → ℕ → (List String → Collected → Option Collected) → Type 0
  Bounded jobs n go =
      (ids : List String) (found : Collected)
      → unseen jobs found.1 < n
      → Within jobs (unseen jobs found.1) (go ids found)

  visit_child-Within :
      (jobs : List (String × Job F V)) (n : ℕ) (go : List String → Collected → Option Collected)
      (child : String) (out seen : List String) (o : Option (Job F V))
      → Bounded jobs n go
      → unseen jobs seen ≤ n
      → has_text child seen ≡ false
      → get child jobs ≡ o
      → Within jobs (unseen jobs seen) (visit_child go o (out, child ∷ seen))
  visit_child-Within jobs n go child out seen none b h f e = unseen_mono child seen jobs
  visit_child-Within jobs n go child out seen (some job) b h f e =
      let less = unseen_less child seen jobs job e f in
      let w =
        after-Within jobs job.id _ _
          (b job.child_ids (out, child ∷ seen) (omega (arith, less, h))) in
      chosen (same_state job.state active || is_terminal job.state) (omega (arith, less))
        (Within-le jobs (unseen jobs (child ∷ seen)) (unseen jobs seen) _ (omega (arith, less)) w)
    where
      chosen :
          (c : Bool)
          → unseen jobs (child ∷ seen) ≤ unseen jobs seen
          → Within jobs
              (unseen jobs seen)
              (collected_after job.id (go job.child_ids (out, child ∷ seen)))
          → Within jobs (unseen jobs seen) (
              if c
              then some (out, child ∷ seen)
              else collected_after job.id (go job.child_ids (out, child ∷ seen)))
      chosen true m w = m
      chosen false m w = w

  and_then-Within :
      (jobs : List (String × Job F V)) (m n : ℕ) (o : Option Collected)
      (k : Collected → Option Collected)
      → Within jobs m o
      → m ≤ n
      → ((found : Collected)
          → unseen jobs found.1 ≤ n
          → Within jobs (unseen jobs found.1) (k found))
      → Within jobs m (and_then o k)
  and_then-Within jobs m n none k w h f = w
  and_then-Within jobs m n (some (out, seen)) k w h f =
      Within-le jobs (unseen jobs seen) m _ w (f (out, seen) (omega (arith, w, h)))

  visit-Within :
      (jobs : List (String × Job F V)) (n : ℕ) (go : List String → Collected → Option Collected)
      (ids : List String) (found : Collected)
      → Bounded jobs n go
      → unseen jobs found.1 ≤ n
      → Within jobs (unseen jobs found.1) (visit go jobs ids found)
  visit-Within jobs n go [] (out, seen) b h = omega arith
  visit-Within jobs n go (child ∷ children) (out, seen) b h =
      and_then-Within jobs (unseen jobs seen) n _ (visit go jobs children)
        (first (has_text child seen) refl) h (λ found g. visit-Within jobs n go children found b g)
    where
      first :
          (c : Bool)
          → has_text child seen ≡ c
          → Within jobs
              (unseen jobs seen)
              (if c then some (out, seen) else visit_child go (get child jobs) (out, child ∷ seen))
      first true e = omega arith
      first false e = visit_child-Within jobs n go child out seen (get child jobs) b h e refl

  collect-Within :
      (fuel : ℕ) (jobs : List (String × Job F V)) (ids : List String) (found : Collected)
      → unseen jobs found.1 ≤ fuel
      → Within jobs (unseen jobs found.1) (collect fuel jobs ids found)
  unfolding collect
  collect-Within zero jobs ids found h =
      visit-Within jobs 0 (λ ids found. none) ids found (λ i g l. absurd (omega (arith, l))) h
  collect-Within (suc fuel) jobs ids found h =
      visit-Within jobs (suc fuel) _ ids found
        (λ i g l. collect-Within fuel jobs i g (omega (arith, l))) h

  Within-some :
      (jobs : List (String × Job F V)) (n : ℕ) (o : Option Collected)
      → Within jobs n o
      → (r : Collected) × (o ≡ some r)
  Within-some jobs n none w = absurd (omega (arith, w))
  Within-some jobs n (some r) w = (r, refl)

  unseen_all : (jobs : List (String × Job F V)) → unseen jobs [] ≡ length jobs
  unseen_all [] = refl
  unseen_all (r ∷ jobs) = omega (arith, unseen_all jobs)

  -- The search of `remove_unprocessed_children` through the children of children returns, also where
  -- jobs list one another in a circle: the number of jobs is enough fuel.
  pub collect_total :
      (jobs : List (String × Job F V)) (ids : List String)
      → (r : Collected) × (collect (length jobs) jobs ids ([], []) ≡ some r)
  collect_total jobs ids =
      Within-some jobs (unseen jobs []) _
        (collect-Within (length jobs) jobs ids ([], []) (omega (arith, unseen_all jobs)))
