-- ===== src/CommandQueue/Permits.antt =====
-- The count of outstanding work and what `is_idle` says of the commands of a queue.
use Prim.Native.String.{String}
use lane.Prelude.{
  ℕ, ◌+◌, ◌*◌, ◌%◌, ◌<◌, ◌≡◌, refl, ap, ◌∙◌, Bool, true, false, not, Option, none, some, arith,
  if◌then◌else◌,
}
use lane.Error.{shutdown_in_progress, Result, ok, err}
use lane.Lane.{Env, Fl, Lane}
use lane.CommandQueue.{
  CommandQueue, submit, submit_to, submit_admitted, submit_from, new_wrapper, admit, enqueue,
  shutdown, register_lane, find_lane, usize_mod, emit, drop_permit,
}
use lane.CommandQueue.Tasks.{finish_task, release_task, wake_task}
use lane.CommandQueue.Step.{
  Step, submits, enqueues, schedules, runs, finishes, releases, wakes, shuts_down, completes,
  registers,
}
use lane.CommandQueue.Totals.{Weighing, total, accepted}
use lane.CommandQueue.Frame.{
  save_if-Frame, handle_result-Frame, poll_shutdown-Frame, schedule_next-Frame,
}
use lane.CommandQueue.Conservation.{enters, leaves}

abbrev pub flag : Bool → ℕ
flag b = if b then 1 else 0

pub new_wrapper-permit :
    {F : Type 0} (l : Lane F) (id command_type : String) (utc : ℕ)
    → (new_wrapper l id command_type utc).work_permit ≡ true
unfolding new_wrapper
new_wrapper-permit l id command_type utc = refl

module _ {F V : Type 0} where
  -- The permits that are held.
  abbrev pub permits : Weighing F V
  permits = record {
    waiting = λ w. flag w.work_permit;
    finished = λ w. flag w.work_permit;
    answered = λ s. 0;
    fresh = λ id. 1;
    retried = λ w. refl;
    settled = λ w r. omega arith;
    entered = λ l id command_type utc. ap flag (new_wrapper-permit l id command_type utc);
  }

  -- The commands without a permit.
  abbrev pub strays : Weighing F V
  strays = record {
    waiting = λ w. flag (not w.work_permit);
    finished = λ w. flag (not w.work_permit);
    answered = λ s. 0;
    fresh = λ id. 0;
    retried = λ w. refl;
    settled = λ w r. omega arith;
    entered =
        λ l id command_type utc. ap (λ b. flag (not b)) (new_wrapper-permit l id command_type utc);
  }

  -- All commands, up to the end of their tasks.
  abbrev pub commands : Weighing F V
  commands = record {
    waiting = λ w. 1;
    finished = λ w. 1;
    answered = λ s. 0;
    fresh = λ id. 1;
    retried = λ w. refl;
    settled = λ w r. refl;
    entered = λ l id command_type utc. refl;
  }

  -- The number of commands that the queue has accepted and whose task has not ended.
  abbrev pub in_queue : CommandQueue F V → ℕ
  in_queue = total commands

  drop_permit-outstanding :
      (b : Bool) (q : CommandQueue F V)
      → q.outstanding < usize_mod
      → (drop_permit b q).outstanding ≡ (q.outstanding + flag b * 18446744073709551615) % usize_mod
  unfolding drop_permit
  drop_permit-outstanding true q h = omega (arith, h)
  drop_permit-outstanding false q h = omega (arith, h)

  admitted-outstanding :
      (lane_id id command_type : String) (utc : ℕ) (q : CommandQueue F V) (o : Option (ℕ × Lane F))
      (before : ℕ)
      → before < usize_mod
      → q.outstanding ≡ (before + 1) % usize_mod
      → (submit_admitted lane_id id command_type utc q o).1.outstanding
        ≡ (before + accepted permits id (submit_admitted lane_id id command_type utc q o).0)
          % usize_mod
  unfolding submit_admitted drop_permit submit_to
  admitted-outstanding lane_id id command_type utc q none before h e = omega (arith, h, e)
  admitted-outstanding lane_id id command_type utc q (some (a, l)) before h e =
      (save_if-Frame l.storage id _).0 ∙ e

  abbrev AdmittedFrom : ℕ → Result (CommandQueue F V) → Type 0
  AdmittedFrom before (err e) = Unit
  AdmittedFrom before (ok q) = q.outstanding ≡ (before + 1) % usize_mod

  admit-AdmittedFrom : (q : CommandQueue F V) → AdmittedFrom q.outstanding (admit q)
  unfolding admit
  admit-AdmittedFrom q = gated q.is_shutting_down
    where
      gated :
          (b : Bool)
          → AdmittedFrom q.outstanding (
              if b
              then err shutdown_in_progress
              else ok (record q { outstanding = (q.outstanding + 1) % usize_mod }))
      gated true = tt
      gated false = refl

  submit_from-outstanding :
      (lane_id id command_type : String) (utc : ℕ) (q : CommandQueue F V)
      (r : Result (CommandQueue F V))
      → q.outstanding < usize_mod
      → AdmittedFrom q.outstanding r
      → (submit_from lane_id id command_type utc q r).1.outstanding
        ≡ (q.outstanding + accepted permits id (submit_from lane_id id command_type utc q r).0)
          % usize_mod
  unfolding submit_from
  submit_from-outstanding lane_id id command_type utc q (err e) h a = omega (arith, h)
  submit_from-outstanding lane_id id command_type utc q (ok q') h a =
      admitted-outstanding lane_id id command_type utc q' (find_lane lane_id q') q.outstanding h a

  submit-outstanding :
      (lane_id id command_type : String) (utc : ℕ) (q : CommandQueue F V)
      → q.outstanding < usize_mod
      → (submit lane_id id command_type utc q).1.outstanding
        ≡ (q.outstanding + accepted permits id (submit lane_id id command_type utc q).0) % usize_mod
  unfolding submit
  submit-outstanding lane_id id command_type utc q h =
      submit_from-outstanding lane_id id command_type utc q (admit q) h (admit-AdmittedFrom q)

  shutdown-outstanding : (q : CommandQueue F V) → (shutdown q).outstanding ≡ q.outstanding
  unfolding shutdown emit
  shutdown-outstanding q = ground arith

module _ (env : Env) {V : Type 0} where
  pub Step-outstanding :
      {q q' : CommandQueue (Fl env) V} (s : Step env q q')
      → q.outstanding < usize_mod
      → q'.outstanding
        ≡ (q.outstanding + enters env permits s + leaves env permits s * 18446744073709551615)
          % usize_mod
  unfolding enqueue finish_task release_task wake_task register_lane emit
  Step-outstanding {q} (submits lane_id id command_type utc) h =
      omega (arith, submit-outstanding lane_id id command_type utc q h)
  Step-outstanding {q} (enqueues i a l w rest e g) h = omega (arith, h)
  Step-outstanding {q} (schedules now) h = omega (arith, h, (schedule_next-Frame env now q).0)
  Step-outstanding {q} (runs utc a i l w rest future r g p x) h =
      omega (arith, h, (handle_result-Frame env.display utc a _ w r q).0)
  Step-outstanding {q} (finishes a i l w rest g p) h =
      omega (arith, drop_permit-outstanding w.work_permit _ h)
  Step-outstanding {q} (releases a n l g e) h = omega (arith, h)
  Step-outstanding {q} (wakes a i l w rest g p) h = omega (arith, h)
  Step-outstanding {q} shuts_down h = omega (arith, h, shutdown-outstanding q)
  Step-outstanding {q} completes h = omega (arith, h, (poll_shutdown-Frame q).0)
  Step-outstanding {q} (registers now id config priority storage) h = omega (arith, h)
