-- ===== src/CommandQueue/Idle.antt =====
-- What `CommandQueue::is_idle` says of the commands that the queue has accepted.
use lane.Prelude.{ℕ, ◌+◌, ◌%◌, ◌<◌, ◌≡◌, refl, Bool, true, false, not, Option, arith, sum_by_add}
use lane.Error.{Result, ok, err}
use lane.Dlq.{DeadLetterQueue}
use lane.Lane.{Env, Fl, Lane, CommandWrapper}
use lane.CommandQueue.{CommandQueue, submit, usize_mod, is_idle}
use lane.CommandQueue.Step.{
  Step, submits, enqueues, schedules, runs, finishes, releases, wakes, shuts_down, completes,
  registers, Reach, here, next, new,
}
use lane.Lane.Weight.{lane_weight}
use lane.CommandQueue.Totals.{total, accepted}
use lane.CommandQueue.Conservation.{enters, Step-total}
use lane.CommandQueue.Permits.{flag, permits, strays, in_queue, Step-outstanding}

module _ (env : Env) {V : Type 0} where
  -- The counter agrees with the permits, up to its width.
  abbrev Counted : CommandQueue (Fl env) V → Type 0
  Counted q = q.outstanding ≡ total permits q % usize_mod

  Step-Counted : {q q' : CommandQueue (Fl env) V} → Step env q q' → Counted q → Counted q'
  Step-Counted {q} {q'} s c =
      omega (arith, c, Step-total env permits s, Step-outstanding env s (omega (arith, c)))

  abbrev Strayless : CommandQueue (Fl env) V → Type 0
  Strayless q = total strays q ≡ 0

  enters-strays : {q q' : CommandQueue (Fl env) V} (s : Step env q q') → enters env strays s ≡ 0
  enters-strays {q} (submits lane_id id command_type utc) =
      no_more (submit lane_id id command_type utc q).0
    where
      no_more : (r : Result (Unit {0})) → accepted (strays {F = Fl env} {V = V}) id r ≡ 0
      no_more (ok x) = refl
      no_more (err e) = refl
  enters-strays (enqueues i a l w rest e g) = refl
  enters-strays (schedules now) = refl
  enters-strays (runs utc a i l w rest future r g p x) = refl
  enters-strays (finishes a i l w rest g p) = refl
  enters-strays (releases a n l g e) = refl
  enters-strays (wakes a i l w rest g p) = refl
  enters-strays shuts_down = refl
  enters-strays completes = refl
  enters-strays (registers now id config priority storage) = refl

  Step-Strayless : {q q' : CommandQueue (Fl env) V} → Step env q q' → Strayless q → Strayless q'
  Step-Strayless s c = omega (arith, c, Step-total env strays s, enters-strays s)

  abbrev Settled : CommandQueue (Fl env) V → Type 0
  Settled q = Counted q × Strayless q

  Reach-Settled : {p q : CommandQueue (Fl env) V} → Settled p → Reach env p q → Settled q
  Reach-Settled c here = c
  Reach-Settled c (next r s) =
      let d = Reach-Settled c r in (Step-Counted s d.0, Step-Strayless s d.1)

  pub reachable-Settled :
      (dlq : Option DeadLetterQueue) {q : CommandQueue (Fl env) V}
      → Reach env (new dlq) q
      → Settled q
  unfolding new
  reachable-Settled dlq r = Reach-Settled (refl, refl) r

  in_queue_split : (q : CommandQueue (Fl env) V) → in_queue q ≡ total permits q + total strays q
  in_queue_split q = omega (
    arith,
    sum_by_add (λ s. held s.1) (λ s. stray s.1) (λ s. 1) (λ s. one s.1) q.submitting,
    sum_by_add (lane_weight held held) (lane_weight stray stray) (lane_weight every every) lanes
        q.store,
    sum_by_add (λ s. 0) (λ s. 0) (λ s. 0) (λ s. refl) q.sent,
  )
    where
      held : CommandWrapper (Fl env) → ℕ
      held w = flag w.work_permit

      stray : CommandWrapper (Fl env) → ℕ
      stray w = flag (not w.work_permit)

      every : CommandWrapper (Fl env) → ℕ
      every w = 1

      split : (b : Bool) → 1 ≡ flag b + flag (not b)
      split true = refl
      split false = refl

      one : (w : CommandWrapper (Fl env)) → every w ≡ held w + stray w
      one w = split w.work_permit

      lanes :
          (l : Lane (Fl env))
          → lane_weight every every l ≡ lane_weight held held l + lane_weight stray stray l
      lanes l = omega (
        arith,
        sum_by_add held stray every one l.pending,
        sum_by_add held stray every one l.running,
        sum_by_add held stray every one l.sleeping,
        sum_by_add held stray every one l.finishing,
      )

  -- After any steps of a new queue, the counter of outstanding work is the number of commands that
  -- were accepted and whose task has not ended, modulo the width of a `usize`.
  pub reachable_outstanding :
      (dlq : Option DeadLetterQueue) {q : CommandQueue (Fl env) V}
      → Reach env (new dlq) q
      → q.outstanding ≡ in_queue q % usize_mod
  reachable_outstanding dlq {q} r =
      let c = reachable-Settled dlq r in omega (arith, c.0, c.1, in_queue_split q)

  -- After any steps of a new queue that leave fewer than 2^64 commands in it, `is_idle` holds only if
  -- no command is left that was accepted: none waits for the storage, is pending, runs, sleeps before
  -- a retry or has yet to release its permit.
  pub is_idle_empty :
      (dlq : Option DeadLetterQueue) {q : CommandQueue (Fl env) V}
      → Reach env (new dlq) q
      → in_queue q < usize_mod
      → is_idle q ≡ true
      → in_queue q ≡ 0
  unfolding is_idle
  is_idle_empty dlq {q} r h e = none_left (reachable_outstanding dlq r) (ground arith)
    where
      none_left : q.outstanding ≡ in_queue q % usize_mod → q.outstanding ≡ 0 → in_queue q ≡ 0
      none_left o z = omega (arith, o, z, h)
