-- ===== src/Job/Queue/Flow/Gate.antt =====
-- When a parent is released.
use Prim.Native.String.{String}
use text.Mathlib.Text.{◌==◌ as str_eq}
use lane.Prelude.{
  ℕ, ◌≡◌, arith, Bool, true, false, not, ◌&&◌, ◌||◌, Option, none, some, List, [], ◌∷◌, Bool-cases,
  inl, inr, leb, if◌then◌else◌,
}
use lane.Job.{Job, JobEnv, waiting, delayed, completed, failed, same_state, is_terminal}
use lane.Job.Queue.{get, put}
use lane.Job.Queue.Flow.{child_failure_releases_dependency}

module _ {F V : Type 0} where
  pub get-put_same :
      (id : String) (old job : Job F V) (jobs : List (String × Job F V))
      → get id jobs ≡ some old
      → get id (put id job jobs) ≡ some job
  get-put_same id old job [] e = cc
  get-put_same id old job ((k, j) ∷ jobs) e = elim (Bool-cases (str_eq k id)) [
    | inl t ↦ ground (arith, t)
    | inr t ↦ ground (arith, t, get-put_same id old job jobs (ground (arith, t, e)))
  ]

  abbrev pub is_pending : Option (Job F V) → Bool
  is_pending none = false
  is_pending (some child) = not (is_terminal child.state)

  abbrev pub is_settled : Option (Job F V) → Bool
  is_settled none = true
  is_settled (some child) =
      same_state child.state completed
      || (same_state child.state failed
          && not child.options.fail_parent_on_failure
          && child_failure_releases_dependency child)

  -- A child that has not ended is in the map.
  abbrev pub has_pending : List String → List (String × Job F V) → Bool
  has_pending [] jobs = false
  has_pending (child ∷ children) jobs = is_pending (get child jobs) || has_pending children jobs

  -- Each child is gone or completed, or has failed in a way that the parent does not wait for.
  abbrev pub all_settled : List String → List (String × Job F V) → Bool
  all_settled [] jobs = true
  all_settled (child ∷ children) jobs = is_settled (get child jobs) && all_settled children jobs

module _ (env : JobEnv) where
  open env use {F, V, text}

  -- A released parent: waiting, or delayed where its time has not come, and without a lease.
  pub record IsUnblocked (now : ℕ) (parent p : Job F V) : Type 0 where
    pub id : p.id ≡ parent.id
    pub state : p.state ≡ (if leb parent.scheduled_at now then waiting else delayed)
    pub scheduled_at : p.scheduled_at ≡ parent.scheduled_at
    pub child_ids : p.child_ids ≡ parent.child_ids
    pub worker_id : p.worker_id ≡ none
    pub lock_token : p.lock_token ≡ none
    pub lease : p.lease_expires_at ≡ none
    pub deferred_failure : p.deferred_failure ≡ none
