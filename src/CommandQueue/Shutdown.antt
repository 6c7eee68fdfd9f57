-- ===== src/CommandQueue/Shutdown.antt =====
-- A queue that shuts down takes no more commands.
use Prim.Native.String.{String}
use lane.Prelude.{ℕ, ◌≤◌, ◌≡◌, refl, ◌∙◌, Bool, true, false, arith, Bool-cases, inl, inr}
use lane.Error.{shutdown_in_progress, err}
use lane.Lane.{Env, Fl, push_pending}
use lane.CommandQueue.{
  CommandQueue, save_if, submit, submit_from, admit, enqueue, shutdown, register_lane, emit,
  drop_permit,
}
use lane.CommandQueue.Tasks.{finish_task, release_task, wake_task}
use lane.CommandQueue.Step.{
  Step, submits, enqueues, schedules, runs, finishes, releases, wakes, shuts_down, completes,
  registers,
}
use lane.CommandQueue.Totals.{Weighing, accepted, total, update_total, save_if_total}
use lane.CommandQueue.Conservation.{enters, Step-total}
use lane.CommandQueue.Frame.{handle_result-Frame, poll_shutdown-Frame, schedule_next-Frame}
use lane.CommandQueue.Answers.{of_id}
use lane.CommandQueue.Permits.{permits, flag}
use lane.CommandQueue.Outside.{
  Use, steps, starts, ends, Uses, unused, used, accepted_by, admissions, direct_wrapper,
  start_enqueue, end_enqueue,
}
use lane.Lane.Weight.{push_pending_weight}

module _ {F V : Type 0} where
  -- Once `shutdown` has run, `submit` refuses every command and changes nothing.
  pub submit-shutdown :
      (lane_id id command_type : String) (utc : ℕ) (q : CommandQueue F V)
      → submit lane_id id command_type utc (shutdown q) ≡ (err shutdown_in_progress, shutdown q)
  unfolding submit admit submit_from shutdown emit
  submit-shutdown lane_id id command_type utc q = elim (Bool-cases q.is_shutting_down) [
    | inl e ↦ rw e refl
    | inr e ↦ rw e refl
  ]

  refused :
      (m : Weighing F V) (lane_id id command_type : String) (utc : ℕ) (q : CommandQueue F V)
      → q.is_shutting_down ≡ true
      → accepted m id (submit lane_id id command_type utc q).0 ≡ 0
  unfolding submit admit submit_from
  refused m lane_id id command_type utc q e = rw e refl

  submit-flag :
      (lane_id id command_type : String) (utc : ℕ) (q : CommandQueue F V)
      → q.is_shutting_down ≡ true
      → (submit lane_id id command_type utc q).1.is_shutting_down ≡ true
  unfolding submit admit submit_from
  submit-flag lane_id id command_type utc q e = rw e refl

  save_if-flag :
      (b : Bool) (id : String) (q : CommandQueue F V)
      → (save_if b id q).is_shutting_down ≡ q.is_shutting_down
  unfolding save_if
  save_if-flag true id q = refl
  save_if-flag false id q = refl

  drop_permit-flag :
      (b : Bool) (q : CommandQueue F V) → (drop_permit b q).is_shutting_down ≡ q.is_shutting_down
  unfolding drop_permit
  drop_permit-flag true q = refl
  drop_permit-flag false q = refl

  shutdown-flag : (q : CommandQueue F V) → (shutdown q).is_shutting_down ≡ true
  unfolding shutdown emit
  shutdown-flag q = elim (Bool-cases q.is_shutting_down) [ inl e ↦ rw e refl | inr e ↦ rw e refl ]

module _ (env : Env) {V : Type 0} where
  Step-flag :
      {q q' : CommandQueue (Fl env) V}
      → Step env q q'
      → q.is_shutting_down ≡ true
      → q'.is_shutting_down ≡ true
  unfolding enqueue finish_task release_task wake_task register_lane emit
  Step-flag {q} (submits lane_id id command_type utc) h =
      submit-flag lane_id id command_type utc q h
  Step-flag {q} (enqueues i a l w rest e g) h = h
  Step-flag {q} (schedules now) h = (schedule_next-Frame env now q).1 ∙ h
  Step-flag {q} (runs utc a i l w rest future r g p x) h =
      (handle_result-Frame env.display utc a _ w r q).1 ∙ h
  Step-flag {q} (finishes a i l w rest g p) h = drop_permit-flag w.work_permit _ ∙ h
  Step-flag {q} (releases a n l g e) h = h
  Step-flag {q} (wakes a i l w rest g p) h = h
  Step-flag {q} shuts_down h = shutdown-flag q
  Step-flag {q} completes h = (poll_shutdown-Frame q).1 ∙ h
  Step-flag {q} (registers now id config priority storage) h = h

  enters-refused :
      (m : Weighing (Fl env) V) {q q' : CommandQueue (Fl env) V} (s : Step env q q')
      → q.is_shutting_down ≡ true
      → enters env m s ≡ 0
  enters-refused m {q} (submits lane_id id command_type utc) h =
      refused m lane_id id command_type utc q h
  enters-refused m (enqueues i a l w rest e g) h = refl
  enters-refused m (schedules now) h = refl
  enters-refused m (runs utc a i l w rest future r g p x) h = refl
  enters-refused m (finishes a i l w rest g p) h = refl
  enters-refused m (releases a n l g e) h = refl
  enters-refused m (wakes a i l w rest g p) h = refl
  enters-refused m shuts_down h = refl
  enters-refused m completes h = refl
  enters-refused m (registers now id config priority storage) h = refl

  -- The commands in the queue that hold a permit of it, up to the end of their tasks.
  abbrev pub with_permit : CommandQueue (Fl env) V → ℕ
  with_permit = total permits

  Use-flag :
      {q q' : CommandQueue (Fl env) V}
      → Use env q q'
      → q.is_shutting_down ≡ true
      → q'.is_shutting_down ≡ true
  unfolding start_enqueue end_enqueue
  Use-flag (steps s) h = Step-flag s h
  Use-flag {q} (starts a l id g) h = save_if-flag l.storage id q ∙ h
  Use-flag (ends a made l id command_type utc g) h = h

  accepted_by-refused :
      (id : String) {q q' : CommandQueue (Fl env) V} (u : Use env q q')
      → q.is_shutting_down ≡ true
      → accepted_by env id u ≡ 0
  accepted_by-refused id (steps s) h = enters-refused (of_id id) s h
  accepted_by-refused id (starts a l new_id g) h = refl
  accepted_by-refused id (ends a made l new_id command_type utc g) h = refl

  Use-permits :
      {q q' : CommandQueue (Fl env) V}
      → Use env q q'
      → q.is_shutting_down ≡ true
      → with_permit q' ≤ with_permit q
  unfolding start_enqueue end_enqueue direct_wrapper
  Use-permits (steps s) h = omega (arith, Step-total env permits s, enters-refused permits s h)
  Use-permits {q} (starts a l id g) h = omega (arith, save_if_total permits l.storage id q)
  Use-permits {q} (ends a made l id command_type utc g) h = omega (
    arith,
    update_total permits a l (push_pending (direct_wrapper made id command_type utc) l) q g,
    push_pending_weight (λ w. flag w.work_permit) (λ w. flag w.work_permit)
        (direct_wrapper made id command_type utc) l,
  )

  -- From a queue that shuts down on, along any steps of it and any direct enqueues on its lanes, no
  -- submission of any id is accepted, the queue goes on shutting down, and the number of commands
  -- in it that hold a permit of the queue never grows.
  pub shutdown_lasts :
      (id : String) {p q : CommandQueue (Fl env) V} (run : Uses env p q)
      → p.is_shutting_down ≡ true
      → (admissions env id run ≡ 0) × (q.is_shutting_down ≡ true) × (with_permit q ≤ with_permit p)
  shutdown_lasts id unused h = (refl, h, omega arith)
  shutdown_lasts id (used run u) h =
      let (none_yet, down, fewer) = shutdown_lasts id run h in
      (
        omega (arith, none_yet, accepted_by-refused id u down),
        Use-flag u down,
        omega (arith, fewer, Use-permits u down),
      )
