-- ===== src/CommandQueue/Conservation.antt =====
-- What the steps of a command queue do to sums over its commands: nothing is lost or doubled.
use Prim.Native.String.{String}
use lane.Prelude.{
  ℕ, ◌+◌, ◌≡◌, refl, ◌∙◌, Bool, true, false, Option, none, some, List, [], ◌∷◌, ◌++◌, arith, sum_by,
  sum_by-append, pick, get_elem?, set, Bool-cases, inl, inr,
}
use lane.Error.{LaneError, Result, ok, err}
use lane.Retry.{should_retry}
use lane.LaneConfig.{LaneConfig}
use lane.Lane.{mark_completed, Env, Now, Fl, Lane, CommandWrapper, with_storage, try_dequeue}
use lane.Lane.Invariant.{start, with_running, with_finishing}
use lane.Lane.Weight.{
  lane_weight, dequeued_weight, try_dequeue_weight, finishing_weight, retry_weight, finish_weight,
  release_weight, wake_weight,
}
use lane.CommandQueue.{
  CommandQueue, submit, shutdown, register_lane, emit, drop_permit, remove_if, update,
}
use lane.CommandQueue.Tasks.{handle_result, finish_task, release_task, wake_task, start_task}
use lane.CommandQueue.Scheduler.{poll_shutdown, schedule_next, try_lanes, try_lane, take_or}
use lane.CommandQueue.Frame.{submitting-dead_letter, submitting-remove_if}
use lane.CommandQueue.Step.{
  Step, submits, enqueues, schedules, runs, finishes, releases, wakes, shuts_down, completes,
  registers,
}
use lane.CommandQueue.Totals.{
  Weighing, total, weight, accepted, update_total, submit_total, enqueue_total, check_lanes_total,
}

module _ {F V : Type 0} (m : Weighing F V) where
  open m use {waiting, finished, answered}

  drop_permit_total : (b : Bool) (q : CommandQueue F V) → total m (drop_permit b q) ≡ total m q
  unfolding drop_permit
  drop_permit_total true q = refl
  drop_permit_total false q = refl

  -- A task that sends its result.
  answer_total :
      (a i : ℕ) (l : Lane F) (w : CommandWrapper F) (rest : List (CommandWrapper F)) (r : Result V)
      (q : CommandQueue F V)
      → get_elem? q.store a ≡ some l
      → pick i l.running ≡ some (w, rest)
      → sum_by (λ s. waiting s.1) q.submitting
          + sum_by
              (lane_weight waiting finished)
              (set q.store a (with_finishing (l.finishing ++ w ∷ []) (with_running rest l)))
          + sum_by answered (q.sent ++ (w.id, r) ∷ [])
        ≡ total m q
  answer_total a i l w rest r q g p = omega (
    arith,
    update_total m a l (with_finishing (l.finishing ++ w ∷ []) (with_running rest l)) q g,
    finishing_weight waiting finished l i w rest p,
    sum_by-append answered q.sent ((w.id, r) ∷ []),
    m.settled w r,
  )

  handle_result_total :
      (display : LaneError → String) (utc a i : ℕ) (l : Lane F) (w : CommandWrapper F)
      (rest : List (CommandWrapper F)) (r : Result V) (q : CommandQueue F V)
      → get_elem? q.store a ≡ some l
      → pick i l.running ≡ some (w, rest)
      → total m (handle_result display utc a (with_running rest l) w r q) ≡ total m q
  unfolding handle_result
  handle_result_total display utc a i l w rest (ok value) q g p =
      rw (submitting-remove_if l.storage w.id q) (answer_total a i l w rest (ok value) q g p)
  handle_result_total display utc a i l w rest (err e) q g p =
      elim (Bool-cases (should_retry w.retry_policy w.attempt)) [
        | inl t ↦ rw t (
            omega (
              arith,
              update_total m a l _ q g,
              retry_weight waiting finished l i w rest p (m.retried w),
            ))
        | inr t ↦
            rw
              (
                t,
                submitting-dead_letter display utc w e q.dlq (remove_if l.storage w.id q),
                submitting-remove_if l.storage w.id q,
              )
              (answer_total a i l w rest (err e) q g p)
      ]

  shutdown_total : (q : CommandQueue F V) → total m (shutdown q) ≡ total m q
  unfolding shutdown emit
  shutdown_total q = ground arith

  poll_shutdown_total : (q : CommandQueue F V) → total m (poll_shutdown q).0 ≡ total m q
  unfolding poll_shutdown emit
  poll_shutdown_total q = ground arith

  register_lane_total :
      (l : Lane F) (q : CommandQueue F V) → total m (register_lane l q) ≡ total m q + weight m l
  unfolding register_lane
  register_lane_total l q =
      omega (arith, sum_by-append (lane_weight waiting finished) q.store (l ∷ []))

module _ (env : Env) {V : Type 0} (m : Weighing (Fl env) V) where
  open m use {waiting, finished, answered, fresh}

  take_or_total :
      (a : ℕ) (l : Lane (Fl env)) (go_on : CommandQueue (Fl env) V → CommandQueue (Fl env) V)
      (q : CommandQueue (Fl env) V) (o : Option (CommandWrapper (Fl env)) × Lane (Fl env))
      → get_elem? q.store a ≡ some l
      → dequeued_weight waiting finished o ≡ weight m l
      → ((q' : CommandQueue (Fl env) V) → total m (go_on q') ≡ total m q')
      → total m (take_or env a go_on q o) ≡ total m q
  unfolding start_task
  take_or_total a l go_on q (none, l') g d k =
      omega (arith, k (update a l' q), update_total m a l l' q g)
  take_or_total a l go_on q (some w, l') g d k = omega (arith, update_total m a l (start w l') q g)

  try_lane_total :
      (now : Now) (a : ℕ) (go_on : CommandQueue (Fl env) V → CommandQueue (Fl env) V)
      (q : CommandQueue (Fl env) V) (o : Option (Lane (Fl env)))
      → get_elem? q.store a ≡ o
      → ((q' : CommandQueue (Fl env) V) → total m (go_on q') ≡ total m q')
      → total m (try_lane env now a go_on q o) ≡ total m q
  try_lane_total now a go_on q none e k = k q
  try_lane_total now a go_on q (some l) e k =
      take_or_total a l go_on q (try_dequeue env now l) e
        (try_dequeue_weight env waiting finished now l) k

  try_lanes_total :
      (now : Now) (ls : List (ℕ × ℕ)) (q : CommandQueue (Fl env) V)
      → total m (try_lanes env now ls q) ≡ total m q
  unfolding try_lanes
  try_lanes_total now [] q = refl
  try_lanes_total now ((p, a) ∷ ls) q =
      try_lane_total now a (try_lanes env now ls) q (get_elem? q.store a) refl
        (try_lanes_total now ls)

  schedule_next_total :
      (now : Now) (q : CommandQueue (Fl env) V) → total m (schedule_next env now q) ≡ total m q
  unfolding schedule_next
  schedule_next_total now q = try_lanes_total now _ _ ∙ check_lanes_total m q.lanes q

  -- What a step adds: a submission that is accepted.
  abbrev pub enters : {q q' : CommandQueue (Fl env) V} → Step env q q' → ℕ
  enters {q} (submits lane_id id command_type utc) =
      accepted m id (submit lane_id id command_type utc q).0
  enters _ = 0

  -- What it takes away: a task whose result is sent ends.
  abbrev pub leaves : {q q' : CommandQueue (Fl env) V} → Step env q q' → ℕ
  leaves (finishes a i l w rest g p) = finished w
  leaves _ = 0

  new_weight :
      (now : Now) (id : String) (config : LaneConfig (Fl env)) (priority : ℕ) (storage : Bool)
      → weight m (with_storage env now id config priority storage) ≡ 0
  unfolding with_storage
  new_weight now id config priority storage = refl

  pub Step-total :
      {q q' : CommandQueue (Fl env) V} (s : Step env q q')
      → total m q' + leaves s ≡ total m q + enters s
  unfolding finish_task release_task wake_task
  Step-total {q} (submits lane_id id command_type utc) =
      omega (arith, submit_total m lane_id id command_type utc q)
  Step-total {q} (enqueues i a l w rest e g) = omega (arith, enqueue_total m i a l w rest q e g)
  Step-total {q} (schedules now) = omega (arith, schedule_next_total now q)
  Step-total {q} (runs utc a i l w rest future r g p x) =
      omega (arith, handle_result_total m env.display utc a i l w rest r q g p)
  Step-total {q} (finishes a i l w rest g p) = omega (
    arith,
    drop_permit_total m w.work_permit (update a (mark_completed (with_finishing rest l)) q),
    update_total m a l (mark_completed (with_finishing rest l)) q g,
    finish_weight waiting finished l i w rest p,
  )
  Step-total {q} (releases a n l g e) =
      omega (arith, update_total m a l _ q g, release_weight waiting finished l n)
  Step-total {q} (wakes a i l w rest g p) =
      omega (arith, update_total m a l _ q g, wake_weight waiting finished l i w rest p)
  Step-total {q} shuts_down = omega (arith, shutdown_total m q)
  Step-total {q} (registers now id config priority storage) = omega (
    arith,
    register_lane_total m (with_storage env now id config priority storage) q,
    new_weight now id config priority storage,
  )
  Step-total {q} completes = omega (arith, poll_shutdown_total m q)
