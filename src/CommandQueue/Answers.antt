-- ===== src/CommandQueue/Answers.antt =====
-- Each accepted command is answered once: the results sent, against the submissions accepted.
use Prim.Native.String.{String}
use text.Mathlib.Text.{◌==◌ as str_eq}
use lane.Prelude.{
  ℕ, ◌+◌, ◌≤◌, ◌<◌, ◌≡◌, refl, ap, Bool, true, false, Option, arith, sum_by, sum_by_mono,
}
use lane.Dlq.{DeadLetterQueue}
use lane.Lane.{Env, Fl, Lane, CommandWrapper}
use lane.Lane.Weight.{lane_weight}
use lane.CommandQueue.{CommandQueue, new_wrapper, usize_mod}
use lane.CommandQueue.Scheduler.{poll_shutdown}
use lane.CommandQueue.Step.{
  Step, Reach, here, next, new, submits, enqueues, schedules, runs, finishes, releases, wakes,
  shuts_down, completes, registers,
}
use lane.CommandQueue.Totals.{Weighing, total}
use lane.CommandQueue.Conservation.{enters, leaves, Step-total}
use lane.CommandQueue.Permits.{flag, in_queue}
use lane.CommandQueue.Idle.{is_idle_empty}

pub new_wrapper-id :
    {F : Type 0} (l : Lane F) (id command_type : String) (utc : ℕ)
    → (new_wrapper l id command_type utc).id ≡ id
unfolding new_wrapper
new_wrapper-id l id command_type utc = refl

abbrev pub is_of : String → String → ℕ
is_of id j = flag (str_eq j id)

flag-le : (b : Bool) → flag b ≤ 1
flag-le true = omega arith
flag-le false = omega arith

module _ {F V : Type 0} (id : String) where
  -- The commands of an id without a result, and the results of that id.
  abbrev pub of_id : Weighing F V
  of_id = record {
    waiting = λ w. is_of id w.id;
    finished = λ w. 0;
    answered = λ s. is_of id s.0;
    fresh = λ j. is_of id j;
    retried = λ w. refl;
    settled = λ w r. omega arith;
    entered = λ l j command_type utc. ap (is_of id) (new_wrapper-id l j command_type utc);
  }

  -- The accepted commands of an id that have no result yet.
  abbrev pub unanswered : CommandQueue F V → ℕ
  unanswered q =
      sum_by (λ s. is_of id s.1.id) q.submitting
      + sum_by (lane_weight (λ w. is_of id w.id) (λ w. 0)) q.store

  -- The results sent for an id.
  abbrev pub answers : CommandQueue F V → ℕ
  answers q = sum_by (λ s. is_of id s.0) q.sent

module _ (env : Env) {V : Type 0} where
  -- The submissions of an id that are accepted along a run.
  abbrev pub accepts : (id : String) {p q : CommandQueue (Fl env) V} → Reach env p q → ℕ
  accepts id here = 0
  accepts id (next run step) = accepts id run + enters env (of_id id) step

  leaves-of_id :
      (id : String) {p q : CommandQueue (Fl env) V} (s : Step env p q) → leaves env (of_id id) s ≡ 0
  leaves-of_id id (submits lane_id j command_type utc) = refl
  leaves-of_id id (enqueues i a l w rest e g) = refl
  leaves-of_id id (schedules now) = refl
  leaves-of_id id (runs utc a i l w rest future r g p x) = refl
  leaves-of_id id (finishes a i l w rest g p) = refl
  leaves-of_id id (releases a n l g e) = refl
  leaves-of_id id (wakes a i l w rest g p) = refl
  leaves-of_id id shuts_down = refl
  leaves-of_id id completes = refl
  leaves-of_id id (registers now j config priority storage) = refl

  Reach_total :
      (id : String) {p q : CommandQueue (Fl env) V} (run : Reach env p q)
      → total (of_id id) q ≡ total (of_id id) p + accepts id run
  Reach_total id here = omega arith
  Reach_total id (next run s) =
      omega (arith, Reach_total id run, Step-total env (of_id id) s, leaves-of_id id s)

  -- Along any run of a new queue, each id has as many accepted submissions as results sent and
  -- commands still without a result: no command is lost, and none gets two results.
  pub answered_once :
      (dlq : Option DeadLetterQueue) (id : String) {q : CommandQueue (Fl env) V}
      (run : Reach env (new dlq) q)
      → answers id q + unanswered id q ≡ accepts id run
  unfolding new
  answered_once dlq id run = omega (arith, Reach_total id run)

  unanswered-le : (id : String) (q : CommandQueue (Fl env) V) → unanswered id q ≤ in_queue q
  unanswered-le id q = omega (
    arith,
    sum_by_mono (λ s. of s.1) (λ s. 1) (λ s. one s.1) q.submitting,
    sum_by_mono (lane_weight of (λ w. 0)) (lane_weight (λ w. 1) (λ w. 1)) lanes q.store,
  )
    where
      of : CommandWrapper (Fl env) → ℕ
      of w = is_of id w.id

      one : (w : CommandWrapper (Fl env)) → of w ≤ 1
      one w = flag-le (str_eq w.id id)

      lanes : (l : Lane (Fl env)) → lane_weight of (λ w. 0) l ≤ lane_weight (λ w. 1) (λ w. 1) l
      lanes l = omega (
        arith,
        sum_by_mono of (λ w. 1) one l.pending,
        sum_by_mono of (λ w. 1) one l.running,
        sum_by_mono of (λ w. 1) one l.sleeping,
        sum_by_mono (λ w. 0) (λ w. 1) (λ w. omega arith) l.finishing,
      )

  -- Where the scheduler ends after a shutdown, along any run of a new queue with fewer than 2^64
  -- commands in it, every accepted submission has had exactly one result.
  pub shutdown_complete_answered :
      (dlq : Option DeadLetterQueue) (id : String) {q : CommandQueue (Fl env) V}
      (run : Reach env (new dlq) q)
      → in_queue q < usize_mod
      → (poll_shutdown q).1 ≡ true
      → answers id q ≡ accepts id run
  unfolding poll_shutdown
  shutdown_complete_answered dlq id {q} run h e = omega (
    arith,
    answered_once dlq id run,
    unanswered-le id q,
    is_idle_empty env dlq run h (ground arith),
  )
