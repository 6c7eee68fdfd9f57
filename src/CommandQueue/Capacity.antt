-- ===== src/CommandQueue/Capacity.antt =====
-- No lane ever runs more commands than its configuration allows.
use Prim.Native.String.{String}
use lane.Prelude.{
  ℕ, ◌≡◌, refl, sym, ◌∙◌, subst, Bool, true, false, Option, none, some, List, [], ◌∷◌, arith, All,
  All-append, All-set, All-get_elem?, All-pick, pick, get_elem?, Bool-cases, inl, inr, not, ◌&&◌,
  if◌then◌else◌,
}
use lane.Error.{LaneError, Result, ok, err}
use lane.Retry.{should_retry}
use lane.Lane.{
  Env, Now, Fl, Lane, CommandWrapper, check_pressure, try_dequeue, Pressure, queue_lane_pressure,
  queue_lane_idle,
}
use lane.Lane.Invariant.{
  HasTries, LaneInv, with_running, push_pending-LaneInv, check_pressure-LaneInv, Dequeued,
  try_dequeue-Dequeued, finishing-LaneInv, retry-LaneInv, finish-LaneInv, release-LaneInv,
  wake-LaneInv, new-LaneInv,
}
use lane.Dlq.{DeadLetterQueue}
use lane.CommandQueue.{
  is_idle, CommandQueue, submit, submit_admitted, submit_from, new_wrapper, admit, enqueue,
  shutdown, register_lane, shutdown_started, find_lane, emit, drop_permit, save_if, remove_if,
  update,
}
use lane.CommandQueue.Tasks.{handle_result, finish_task, release_task, wake_task, start_task}
use lane.CommandQueue.Scheduler.{
  poll_shutdown, schedule_next, check_lanes, check_at, emit_pressure, try_lanes, try_lane, take_or,
}
use lane.CommandQueue.Frame.{submitting-dead_letter, submitting-remove_if}
use lane.CommandQueue.Step.{
  Step, submits, enqueues, schedules, runs, finishes, releases, wakes, shuts_down, completes,
  registers, Reach, here, next, new,
}

-- Every lane is within its limits, and so are the commands on their way to one.
abbrev pub Inv : {F V : Type 0} → CommandQueue F V → Type 0
Inv q = All LaneInv q.store × All (λ s. HasTries s.1) q.submitting

abbrev Tries : {F : Type 0} → List (ℕ × CommandWrapper F) → Type 0
Tries ws = All (λ s. HasTries s.1) ws

new_wrapper-HasTries :
    {F : Type 0} (l : Lane F) (id command_type : String) (utc : ℕ)
    → HasTries (new_wrapper l id command_type utc)
unfolding new_wrapper
new_wrapper-HasTries l id command_type utc = omega arith

module _ {F V : Type 0} where
  save_if-Inv : (b : Bool) (id : String) (q : CommandQueue F V) → Inv q → Inv (save_if b id q)
  unfolding save_if
  save_if-Inv true id q v = v
  save_if-Inv false id q v = v

  admitted-Inv :
      (lane_id id command_type : String) (utc : ℕ) (q : CommandQueue F V) (o : Option (ℕ × Lane F))
      → Inv q
      → Inv (submit_admitted lane_id id command_type utc q o).1
  unfolding submit_admitted
  admitted-Inv lane_id id command_type utc q none v = v
  admitted-Inv lane_id id command_type utc q (some (a, l)) v = save_if-Inv l.storage id _ (
    v.0,
    All-append (λ s. HasTries s.1) q.submitting _ v.1
        (new_wrapper-HasTries l id command_type utc, tt),
  )

  abbrev AdmitInv : Result (CommandQueue F V) → Type 0
  AdmitInv (err e) = Unit
  AdmitInv (ok q) = Inv q

  gate-Inv :
      (b : Bool) (e : LaneError) (q : CommandQueue F V)
      → Inv q
      → AdmitInv (if b then err e else ok q)
  gate-Inv true e q v = tt
  gate-Inv false e q v = v

  admit-Inv : (q : CommandQueue F V) → Inv q → AdmitInv (admit q)
  unfolding admit
  admit-Inv q v = gate-Inv q.is_shutting_down _ _ v

  submit_from-Inv :
      (lane_id id command_type : String) (utc : ℕ) (q : CommandQueue F V)
      (r : Result (CommandQueue F V))
      → Inv q
      → AdmitInv r
      → Inv (submit_from lane_id id command_type utc q r).1
  unfolding submit_from
  submit_from-Inv lane_id id command_type utc q (err e) v a = v
  submit_from-Inv lane_id id command_type utc q (ok q') v a =
      admitted-Inv lane_id id command_type utc q' (find_lane lane_id q') a

  submit-Inv :
      (lane_id id command_type : String) (utc : ℕ) (q : CommandQueue F V)
      → Inv q
      → Inv (submit lane_id id command_type utc q).1
  unfolding submit
  submit-Inv lane_id id command_type utc q v =
      submit_from-Inv lane_id id command_type utc q (admit q) v (admit-Inv q v)

  -- A change of one lane that keeps it within its limits.
  update-Inv : (a : ℕ) (l : Lane F) (q : CommandQueue F V) → Inv q → LaneInv l → Inv (update a l q)
  update-Inv a l q v h = (All-set LaneInv q.store a l v.0 h, v.1)

  enqueue-Inv :
      (i a : ℕ) (l : Lane F) (w : CommandWrapper F) (rest : List (ℕ × CommandWrapper F))
      (q : CommandQueue F V)
      → pick i q.submitting ≡ some ((a, w), rest)
      → get_elem? q.store a ≡ some l
      → Inv q
      → Inv (enqueue a l w (record q { submitting = rest }))
  unfolding enqueue
  enqueue-Inv i a l w rest q e g v =
      let p = All-pick (λ s. HasTries s.1) i q.submitting (a, w) rest e v.1 in
      (
        All-set LaneInv q.store a _ v.0
            (push_pending-LaneInv w l p.0 (All-get_elem? LaneInv q.store a l v.0 g)),
        p.1,
      )

  emit_pressure-Inv :
      (id : String) (e : Option Pressure) (q : CommandQueue F V)
      → Inv q
      → Inv (emit_pressure id e q)
  unfolding emit_pressure
  emit_pressure-Inv id none q v = v
  emit_pressure-Inv id (some queue_lane_pressure) q v = v
  emit_pressure-Inv id (some queue_lane_idle) q v = v

  check_at-Inv :
      (id : String) (a : ℕ) (o : Option (Lane F)) (q : CommandQueue F V)
      → get_elem? q.store a ≡ o
      → Inv q
      → Inv (check_at id a o q)
  unfolding check_at
  check_at-Inv id a none q e v = v
  check_at-Inv id a (some l) q e v =
      emit_pressure-Inv id (check_pressure l).0 _
        (update-Inv a _ q v (check_pressure-LaneInv l (All-get_elem? LaneInv q.store a l v.0 e)))

  check_lanes-Inv : (m : List (String × ℕ)) (q : CommandQueue F V) → Inv q → Inv (check_lanes m q)
  unfolding check_lanes
  check_lanes-Inv [] q v = v
  check_lanes-Inv ((id, a) ∷ m) q v =
      check_lanes-Inv m _ (check_at-Inv id a (get_elem? q.store a) q refl v)

  handle_result-Inv :
      (display : LaneError → String) (utc a i : ℕ) (l : Lane F) (w : CommandWrapper F)
      (rest : List (CommandWrapper F)) (r : Result V) (q : CommandQueue F V)
      → get_elem? q.store a ≡ some l
      → pick i l.running ≡ some (w, rest)
      → Inv q
      → Inv (handle_result display utc a (with_running rest l) w r q)
  unfolding handle_result
  handle_result-Inv display utc a i l w rest (ok value) q g p v =
      let inv = All-get_elem? LaneInv q.store a l v.0 g in
      (
        All-set LaneInv q.store a _ v.0 (finishing-LaneInv l i w rest p inv),
        subst Tries (sym (submitting-remove_if l.storage w.id q)) v.1,
      )
  handle_result-Inv display utc a i l w rest (err e) q g p v =
      let inv = All-get_elem? LaneInv q.store a l v.0 g in
      elim (Bool-cases (should_retry w.retry_policy w.attempt)) [
        | inl t ↦ rw t (All-set LaneInv q.store a _ v.0 (retry-LaneInv l i w rest p t inv), v.1)
        | inr t ↦ rw t (
          All-set LaneInv q.store a _ v.0 (finishing-LaneInv l i w rest p inv),
          subst Tries
              (sym (
                submitting-dead_letter display utc w e q.dlq (remove_if l.storage w.id q)
                ∙ submitting-remove_if l.storage w.id q))
              v.1,
        )
      ]

  drop_permit-Inv : (b : Bool) (q : CommandQueue F V) → Inv q → Inv (drop_permit b q)
  unfolding drop_permit
  drop_permit-Inv true q v = v
  drop_permit-Inv false q v = v

  shutdown-Inv : (q : CommandQueue F V) → Inv q → Inv (shutdown q)
  unfolding shutdown
  shutdown-Inv q v = started-Inv (not q.is_shutting_down)
    where
      started-Inv :
          (b : Bool)
          → Inv (
              if b
              then emit shutdown_started (record q { is_shutting_down = true })
              else record q { is_shutting_down = true })
      started-Inv true = v
      started-Inv false = v

  poll_shutdown-Inv : (q : CommandQueue F V) → Inv q → Inv (poll_shutdown q).0
  unfolding poll_shutdown
  poll_shutdown-Inv q v = elim (Bool-cases (q.is_shutting_down && is_idle q)) [
    | inl e ↦ rw e v
    | inr e ↦ rw e v
  ]

  register_lane-Inv :
      (l : Lane F) (q : CommandQueue F V) → Inv q → LaneInv l → Inv (register_lane l q)
  unfolding register_lane
  register_lane-Inv l q v h = (All-append LaneInv q.store (l ∷ []) v.0 (h, tt), v.1)

new-Inv : (F V : Type 0) (dlq : Option DeadLetterQueue) → Inv (new {F = F} {V = V} dlq)
unfolding new
new-Inv F V dlq = (tt, tt)

module _ (env : Env) {V : Type 0} where
  take_or-Inv :
      (a : ℕ) (go_on : CommandQueue (Fl env) V → CommandQueue (Fl env) V)
      (q : CommandQueue (Fl env) V) (o : Option (CommandWrapper (Fl env)) × Lane (Fl env))
      → Inv q
      → Dequeued o
      → ((q' : CommandQueue (Fl env) V) → Inv q' → Inv (go_on q'))
      → Inv (take_or env a go_on q o)
  unfolding start_task
  take_or-Inv a go_on q (none, l) v d k = k _ (update-Inv a l q v d)
  take_or-Inv a go_on q (some w, l) v d k = update-Inv a _ q v d

  try_lane-Inv :
      (now : Now) (a : ℕ) (go_on : CommandQueue (Fl env) V → CommandQueue (Fl env) V)
      (q : CommandQueue (Fl env) V) (o : Option (Lane (Fl env)))
      → get_elem? q.store a ≡ o
      → Inv q
      → ((q' : CommandQueue (Fl env) V) → Inv q' → Inv (go_on q'))
      → Inv (try_lane env now a go_on q o)
  try_lane-Inv now a go_on q none e v k = k q v
  try_lane-Inv now a go_on q (some l) e v k =
      take_or-Inv a go_on q (try_dequeue env now l) v
        (try_dequeue-Dequeued env now l (All-get_elem? LaneInv q.store a l v.0 e)) k

  try_lanes-Inv :
      (now : Now) (m : List (ℕ × ℕ)) (q : CommandQueue (Fl env) V)
      → Inv q
      → Inv (try_lanes env now m q)
  unfolding try_lanes
  try_lanes-Inv now [] q v = v
  try_lanes-Inv now ((p, a) ∷ m) q v =
      try_lane-Inv now a (try_lanes env now m) q (get_elem? q.store a) refl v (try_lanes-Inv now m)

  schedule_next-Inv :
      (now : Now) (q : CommandQueue (Fl env) V) → Inv q → Inv (schedule_next env now q)
  unfolding schedule_next
  schedule_next-Inv now q v = try_lanes-Inv now _ _ (check_lanes-Inv q.lanes q v)

  Step-Inv : {q q' : CommandQueue (Fl env) V} → Step env q q' → Inv q → Inv q'
  unfolding finish_task release_task wake_task
  Step-Inv {q} (submits lane_id id command_type utc) v = submit-Inv lane_id id command_type utc q v
  Step-Inv {q} (enqueues i a l w rest e g) v = enqueue-Inv i a l w rest q e g v
  Step-Inv {q} (schedules now) v = schedule_next-Inv now q v
  Step-Inv {q} (runs utc a i l w rest future r g p x) v =
      handle_result-Inv env.display utc a i l w rest r q g p v
  Step-Inv {q} (finishes a i l w rest g p) v =
      drop_permit-Inv w.work_permit _
        (update-Inv a _ q v (finish-LaneInv l i w rest p (All-get_elem? LaneInv q.store a l v.0 g)))
  Step-Inv {q} (releases a n l g e) v =
      update-Inv a _ q v (release-LaneInv l n e (All-get_elem? LaneInv q.store a l v.0 g))
  Step-Inv {q} (wakes a i l w rest g p) v =
      update-Inv a _ q v (wake-LaneInv l i w rest p (All-get_elem? LaneInv q.store a l v.0 g))
  Step-Inv {q} shuts_down v = shutdown-Inv q v
  Step-Inv {q} completes v = poll_shutdown-Inv q v
  Step-Inv {q} (registers now id config priority storage) v =
      register_lane-Inv _ q v (new-LaneInv env now id config priority storage)

  Reach-Inv : {q q' : CommandQueue (Fl env) V} → Inv q → Reach env q q' → Inv q'
  Reach-Inv v here = v
  Reach-Inv v (next r s) = Step-Inv s (Reach-Inv v r)

  -- After any steps of a new queue, each of its lanes counts its tasks exactly, active ones and
  -- those asleep before a retry, runs at most `max_concurrency` of them, and holds no command that
  -- has had more retries than its policy allows.
  pub reachable-LaneInv :
      (dlq : Option DeadLetterQueue) {q : CommandQueue (Fl env) V}
      → Reach env (new dlq) q
      → All LaneInv q.store
  reachable-LaneInv dlq r = (Reach-Inv (new-Inv (Fl env) V dlq) r).0
