-- ===== src/CommandQueue/Frame.antt =====
-- The parts of a queue that only submissions, the ends of tasks and a shutdown change.
use Prim.Native.String.{String}
use lane.Prelude.{
  ℕ, ◌≡◌, refl, ◌∙◌, Bool, true, false, ◌&&◌, Option, none, some, List, [], ◌∷◌, get_elem?,
  Bool-cases, inl, inr,
}
use lane.Error.{LaneError, Result, ok, err}
use lane.Retry.{should_retry}
use lane.Dlq.{DeadLetterQueue}
use lane.Lane.{
  Env, Now, Fl, Lane, CommandWrapper, Pressure, queue_lane_pressure, queue_lane_idle,
  check_pressure, try_dequeue,
}
use lane.CommandQueue.{CommandQueue, emit, save_if, remove_if, update, is_idle}
use lane.CommandQueue.Tasks.{handle_result, start_task, dead_letter}
use lane.Prelude.Sort.{sort_by}
use lane.CommandQueue.Scheduler.{
  by_priority, with_priority, schedule_next, check_lanes, check_at, emit_pressure, try_lanes,
  try_lane, take_or, poll_shutdown,
}

module _ {F V : Type 0} where
  -- The counter and the flag are as before.
  abbrev pub Frame : CommandQueue F V → CommandQueue F V → Type 0
  Frame q q' = (q'.outstanding ≡ q.outstanding) × (q'.is_shutting_down ≡ q.is_shutting_down)

  Frame-trans : (p q r : CommandQueue F V) → Frame p q → Frame q r → Frame p r
  Frame-trans p q r f g = (g.0 ∙ f.0, g.1 ∙ f.1)

  pub submitting-dead_letter :
      (display : LaneError → String) (utc : ℕ) (w : CommandWrapper F) (e : LaneError)
      (o : Option DeadLetterQueue) (q : CommandQueue F V)
      → (dead_letter display utc w e o q).submitting ≡ q.submitting
  unfolding dead_letter
  submitting-dead_letter display utc w e none q = refl
  submitting-dead_letter display utc w e (some d) q = refl

  pub submitting-remove_if :
      (b : Bool) (id : String) (q : CommandQueue F V) → (remove_if b id q).submitting ≡ q.submitting
  unfolding remove_if
  submitting-remove_if true id q = refl
  submitting-remove_if false id q = refl

  remove_if-Frame : (b : Bool) (id : String) (q : CommandQueue F V) → Frame q (remove_if b id q)
  unfolding remove_if
  remove_if-Frame true id q = (refl, refl)
  remove_if-Frame false id q = (refl, refl)

  pub save_if-Frame : (b : Bool) (id : String) (q : CommandQueue F V) → Frame q (save_if b id q)
  unfolding save_if
  save_if-Frame true id q = (refl, refl)
  save_if-Frame false id q = (refl, refl)

  dead_letter-Frame :
      (display : LaneError → String) (utc : ℕ) (w : CommandWrapper F) (e : LaneError)
      (o : Option DeadLetterQueue) (q : CommandQueue F V)
      → Frame q (dead_letter display utc w e o q)
  unfolding dead_letter
  dead_letter-Frame display utc w e none q = (refl, refl)
  dead_letter-Frame display utc w e (some d) q = (refl, refl)

  pub handle_result-Frame :
      (display : LaneError → String) (utc a : ℕ) (l : Lane F) (w : CommandWrapper F) (r : Result V)
      (q : CommandQueue F V)
      → Frame q (handle_result display utc a l w r q)
  unfolding handle_result
  handle_result-Frame display utc a l w (ok value) q = remove_if-Frame l.storage w.id q
  handle_result-Frame display utc a l w (err e) q =
      elim (Bool-cases (should_retry w.retry_policy w.attempt)) [
        | inl t ↦ rw t (refl, refl)
        | inr t ↦
            let removed = remove_if l.storage w.id q in
            rw t (
              Frame-trans q removed (dead_letter display utc w e q.dlq removed)
                (remove_if-Frame l.storage w.id q)
                (dead_letter-Frame display utc w e q.dlq removed))
      ]

  emit_pressure-Frame :
      (id : String) (e : Option Pressure) (q : CommandQueue F V) → Frame q (emit_pressure id e q)
  unfolding emit_pressure
  emit_pressure-Frame id none q = (refl, refl)
  emit_pressure-Frame id (some queue_lane_pressure) q = (refl, refl)
  emit_pressure-Frame id (some queue_lane_idle) q = (refl, refl)

  check_at-Frame :
      (id : String) (a : ℕ) (o : Option (Lane F)) (q : CommandQueue F V)
      → Frame q (check_at id a o q)
  unfolding check_at
  check_at-Frame id a none q = (refl, refl)
  check_at-Frame id a (some l) q =
      emit_pressure-Frame id (check_pressure l).0 (update a (check_pressure l).1 q)

  check_lanes-Frame : (m : List (String × ℕ)) (q : CommandQueue F V) → Frame q (check_lanes m q)
  unfolding check_lanes
  check_lanes-Frame [] q = (refl, refl)
  check_lanes-Frame ((id, a) ∷ m) q =
      let q' = check_at id a (get_elem? q.store a) q in
      Frame-trans q q' (check_lanes m q') (check_at-Frame id a (get_elem? q.store a) q)
        (check_lanes-Frame m q')

  pub poll_shutdown-Frame : (q : CommandQueue F V) → Frame q (poll_shutdown q).0
  unfolding poll_shutdown emit
  poll_shutdown-Frame q = elim (Bool-cases (q.is_shutting_down && is_idle q)) [
    | inl e ↦ rw e (refl, refl)
    | inr e ↦ rw e (refl, refl)
  ]

module _ (env : Env) {V : Type 0} where
  take_or-Frame :
      (a : ℕ) (go_on : CommandQueue (Fl env) V → CommandQueue (Fl env) V)
      (q : CommandQueue (Fl env) V) (o : Option (CommandWrapper (Fl env)) × Lane (Fl env))
      → ((q' : CommandQueue (Fl env) V) → Frame q' (go_on q'))
      → Frame q (take_or env a go_on q o)
  unfolding start_task
  take_or-Frame a go_on q (none, l) k = k (update a l q)
  take_or-Frame a go_on q (some w, l) k = (refl, refl)

  try_lane-Frame :
      (now : Now) (a : ℕ) (go_on : CommandQueue (Fl env) V → CommandQueue (Fl env) V)
      (q : CommandQueue (Fl env) V) (o : Option (Lane (Fl env)))
      → ((q' : CommandQueue (Fl env) V) → Frame q' (go_on q'))
      → Frame q (try_lane env now a go_on q o)
  try_lane-Frame now a go_on q none k = k q
  try_lane-Frame now a go_on q (some l) k = take_or-Frame a go_on q (try_dequeue env now l) k

  try_lanes-Frame :
      (now : Now) (m : List (ℕ × ℕ)) (q : CommandQueue (Fl env) V) → Frame q (try_lanes env now m q)
  unfolding try_lanes
  try_lanes-Frame now [] q = (refl, refl)
  try_lanes-Frame now ((p, a) ∷ m) q =
      try_lane-Frame now a (try_lanes env now m) q (get_elem? q.store a) (try_lanes-Frame now m)

  pub schedule_next-Frame :
      (now : Now) (q : CommandQueue (Fl env) V) → Frame q (schedule_next env now q)
  unfolding schedule_next
  schedule_next-Frame now q =
      let q' = check_lanes q.lanes q in
      let order = sort_by by_priority (with_priority env now q' q.lanes) in
      Frame-trans q q' (try_lanes env now order q') (check_lanes-Frame q.lanes q)
        (try_lanes-Frame now order q')
