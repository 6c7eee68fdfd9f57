-- ===== src/Lane/Weight.antt =====
-- Sums over the commands of a lane, which its operations move from one place to another.
use lane.Prelude.{
  ℕ, ◌+◌, ◌%◌, ◌≡◌, refl, true, not, ◌&&◌, Option, none, some, List, [], ◌∷◌, ◌++◌, arith, length,
  sum_by, sum_by-append, sum_by-pick, pick, ltb, ◌==◌, Bool-cases, inl, inr,
}
use lane.Lane.{
  Env, Now, Fl, Lane, CommandWrapper, push_pending, retry_command, wake, mark_completed,
  check_pressure, check_threshold, dequeue, try_dequeue, acquire,
}
use lane.Lane.Invariant.{start, with_running, with_finishing, with_releasing, with_sleeping}
use lane.Dlq.{front, behind}

module _ {F : Type 0} (f g : CommandWrapper F → ℕ) where
  -- The commands whose result is not sent, each with its weight `f`, and the finishing ones with `g`.
  abbrev pub lane_weight : Lane F → ℕ
  lane_weight l =
      sum_by f l.pending + sum_by f l.running + sum_by f l.sleeping + sum_by g l.finishing

  pub push_pending_weight :
      (w : CommandWrapper F) (l : Lane F) → lane_weight (push_pending w l) ≡ lane_weight l + f w
  unfolding push_pending
  push_pending_weight w l = omega (arith, sum_by-append f l.pending (w ∷ []))

  threshold_weight :
      (l : Lane F) (t : Option ℕ) → lane_weight (check_threshold l t).1 ≡ lane_weight l
  threshold_weight l none = refl
  threshold_weight l (some t) = ground arith

  pub check_pressure_weight : (l : Lane F) → lane_weight (check_pressure l).1 ≡ lane_weight l
  unfolding check_pressure
  check_pressure_weight l = threshold_weight l l.config.pressure_threshold

  abbrev pub dequeued_weight : Option (CommandWrapper F) × Lane F → ℕ
  dequeued_weight (none, l) = lane_weight l
  dequeued_weight (some w, l) = lane_weight (start w l)

  taken_weight :
      (l : Lane F) (ws : List (CommandWrapper F)) (n : ℕ)
      → not (length ws == 0) ≡ true
      → dequeued_weight
          (front ws, record l { state = record l.state { active = n; pending = behind ws } })
        ≡ sum_by f ws + sum_by f l.running + sum_by f l.sleeping + sum_by g l.finishing
  taken_weight l [] n h = cc
  taken_weight l (w ∷ ws) n h = omega (arith, sum_by-append f l.running (w ∷ []))

  dequeue_weight : (l : Lane F) → dequeued_weight (dequeue l) ≡ lane_weight l
  unfolding dequeue
  dequeue_weight l =
      elim (Bool-cases (ltb l.active l.config.max_concurrency && not (length l.pending == 0))) [
        | inl e ↦ rw e (taken_weight l l.pending (l.active + 1) (ground arith))
        | inr e ↦ rw e refl
      ]

  -- A task ends its run with its result sent.
  pub finishing_weight :
      (l : Lane F) (i : ℕ) (w : CommandWrapper F) (rest : List (CommandWrapper F))
      → pick i l.running ≡ some (w, rest)
      → lane_weight (with_finishing (l.finishing ++ w ∷ []) (with_running rest l)) + f w
        ≡ lane_weight l + g w
  finishing_weight l i w rest e =
      omega (arith, sum_by-pick f i l.running w rest e, sum_by-append g l.finishing (w ∷ []))

  pub retry_weight :
      (l : Lane F) (i : ℕ) (w : CommandWrapper F) (rest : List (CommandWrapper F))
      → pick i l.running ≡ some (w, rest)
      → f (record w { attempt = (w.attempt + 1) % 4294967296 }) ≡ f w
      → lane_weight (with_releasing (l.releasing + 1) (retry_command w (with_running rest l)))
        ≡ lane_weight l
  unfolding retry_command
  retry_weight l i w rest e h = omega (
    arith,
    sum_by-pick f i l.running w rest e,
    sum_by-append f l.sleeping (record w { attempt = (w.attempt + 1) % 4294967296 } ∷ []),
  )

  pub finish_weight :
      (l : Lane F) (i : ℕ) (w : CommandWrapper F) (rest : List (CommandWrapper F))
      → pick i l.finishing ≡ some (w, rest)
      → lane_weight (mark_completed (with_finishing rest l)) + g w ≡ lane_weight l
  unfolding mark_completed
  finish_weight l i w rest e = omega (arith, sum_by-pick g i l.finishing w rest e)

  pub release_weight :
      (l : Lane F) (n : ℕ) → lane_weight (with_releasing n (mark_completed l)) ≡ lane_weight l
  unfolding mark_completed
  release_weight l n = refl

  pub wake_weight :
      (l : Lane F) (i : ℕ) (w : CommandWrapper F) (rest : List (CommandWrapper F))
      → pick i l.sleeping ≡ some (w, rest)
      → lane_weight (wake w (with_sleeping rest l)) ≡ lane_weight l
  unfolding wake
  wake_weight l i w rest e =
      omega (arith, sum_by-pick f i l.sleeping w rest e, sum_by-append f l.pending (w ∷ []))

module _ (env : Env) (f g : CommandWrapper (Fl env) → ℕ) where
  pub try_dequeue_weight :
      (now : Now) (l : Lane (Fl env))
      → dequeued_weight f g (try_dequeue env now l) ≡ lane_weight f g l
  unfolding try_dequeue
  try_dequeue_weight now l = elim (Bool-cases (acquire env now l.rate_limiter).0) [
    | inl e ↦
        rw e (dequeue_weight f g (record l { rate_limiter = (acquire env now l.rate_limiter).1 }))
    | inr e ↦ rw e refl
  ]
