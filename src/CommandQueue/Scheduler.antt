-- ===== src/CommandQueue/Scheduler.antt =====
-- `CommandQueue::schedule_next`.
use Prim.Native.String.{String}
use lane.Prelude.{
  ℕ, Bool, true, false, ◌&&◌, if◌then◌else◌, Option, none, some, List, [], ◌∷◌, leb, get_elem?,
}
use lane.Prelude.Sort.{sort_by}
use lane.Lane.{
  Env, Now, Fl, Lane, CommandWrapper, Pressure, queue_lane_pressure, queue_lane_idle,
  check_pressure, effective_priority, try_dequeue,
}
use lane.CommandQueue.{
  shutdown_complete, is_idle, CommandQueue, lane_pressure, lane_idle, emit, update,
}
use lane.CommandQueue.Tasks.{start_task}

module _ {F V : Type 0} where
  unfoldable pub emit_pressure : String → Option Pressure → CommandQueue F V → CommandQueue F V
  unfolding emit
  emit_pressure id none q = q
  emit_pressure id (some queue_lane_pressure) q = emit (lane_pressure id) q
  emit_pressure id (some queue_lane_idle) q = emit (lane_idle id) q

  unfoldable pub check_at : String → ℕ → Option (Lane F) → CommandQueue F V → CommandQueue F V
  unfolding emit_pressure check_pressure
  check_at id a none q = q
  check_at id a (some l) q =
      let (event, l') = check_pressure l in emit_pressure id event (update a l' q)

  -- The loop over the lanes that emits pressure events.
  unfoldable pub check_lanes : List (String × ℕ) → CommandQueue F V → CommandQueue F V
  unfolding check_at
  check_lanes [] q = q
  check_lanes ((id, a) ∷ m) q = check_lanes m (check_at id a (get_elem? q.store a) q)

-- `spawn_scheduler`, a round of its loop after `schedule_next`, with whether the loop ends.
unfoldable pub poll_shutdown : {F V : Type 0} → CommandQueue F V → CommandQueue F V × Bool
unfolding emit
poll_shutdown q =
    if q.is_shutting_down && is_idle q then (emit shutdown_complete q, true) else (q, false)

abbrev pub by_priority : ℕ × ℕ → ℕ × ℕ → Bool
by_priority (p, a) (q, b) = leb p q

module _ (env : Env) {V : Type 0} where
  -- A lane's effective priority, and its address.
  unfoldable pub with_priority : Now → CommandQueue (Fl env) V → List (String × ℕ) → List (ℕ × ℕ)
  unfolding effective_priority
  with_priority now q [] = []
  with_priority now q ((id, a) ∷ m) =
      (elim (get_elem? q.store a) [ none ↦ 0 | some l ↦ effective_priority env now l ], a)
      ∷ with_priority now q m

  -- One round of the loop: the dequeued command starts and ends the loop, or the loop goes on.
  abbrev pub take_or :
      ℕ
      → (CommandQueue (Fl env) V → CommandQueue (Fl env) V)
      → CommandQueue (Fl env) V
      → Option (CommandWrapper (Fl env)) × Lane (Fl env)
      → CommandQueue (Fl env) V
  take_or a go_on q (none, l) = go_on (update a l q)
  take_or a go_on q (some w, l) = start_task a l w q

  abbrev pub try_lane :
      Now
      → ℕ
      → (CommandQueue (Fl env) V → CommandQueue (Fl env) V)
      → CommandQueue (Fl env) V
      → Option (Lane (Fl env))
      → CommandQueue (Fl env) V
  try_lane now a go_on q none = go_on q
  try_lane now a go_on q (some l) = take_or a go_on q (try_dequeue env now l)

  -- The loop over the lanes in order, up to the first that gives a command.
  unfoldable pub try_lanes : Now → List (ℕ × ℕ) → CommandQueue (Fl env) V → CommandQueue (Fl env) V
  unfolding start_task try_dequeue
  try_lanes now [] q = q
  try_lanes now ((priority, a) ∷ m) q = try_lane now a (try_lanes now m) q (get_elem? q.store a)

  unfoldable pub schedule_next : Now → CommandQueue (Fl env) V → CommandQueue (Fl env) V
  unfolding check_lanes with_priority try_lanes
  schedule_next now q =
      let checked = check_lanes q.lanes q in
      try_lanes now (sort_by by_priority (with_priority now checked q.lanes)) checked
