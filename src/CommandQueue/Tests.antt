-- ===== src/CommandQueue/Tests.antt =====
-- A run of a queue with one lane: a command is submitted, runs and is answered, and the queue shuts
-- down. The theorems on reachable states at that run.
use lane.Prelude.{ℕ, ◌+◌, ◌%◌, ◌≤◌, ◌<◌, ◌≡◌, refl, true, false, some, none, [], ◌∷◌, arith, All}
use lane.Error.{shutdown_in_progress, ok, err}
use lane.Lane.{try_dequeue, Lane, CommandWrapper, with_storage, mark_completed}
use lane.Lane.Invariant.{LaneInv, with_running, with_finishing}
use lane.Lane.Tests.{plain_env, at_start, one_at_a_time}
use lane.CommandQueue.{
  CommandQueue, register_lane, submit, enqueue, shutdown, is_idle, usize_mod, new_wrapper,
  mark_completed,
}
use lane.CommandQueue.Tasks.{handle_result, finish_task, execute}
use lane.CommandQueue.Scheduler.{schedule_next, poll_shutdown}
use lane.CommandQueue.Step.{
  Reach, here, next, new, registers, submits, enqueues, schedules, runs, finishes, shuts_down,
}
use lane.CommandQueue.Capacity.{reachable-LaneInv}
use lane.CommandQueue.Permits.{in_queue}
use lane.CommandQueue.Idle.{reachable_outstanding, is_idle_empty}
use lane.CommandQueue.Answers.{
  accepts, answers, unanswered, answered_once, shutdown_complete_answered,
}
use lane.CommandQueue.Outside.{
  Uses, steps, ends, unused, used, admissions, direct_wrapper, end_enqueue,
}
use lane.CommandQueue.Shutdown.{with_permit, shutdown_lasts, submit-shutdown}
use lane.Prelude.Sort.{sort_by}

abbrev Queue : Type 0
Queue = CommandQueue ℕ ℕ

abbrev empty_lane : Lane ℕ
empty_lane = with_storage plain_env at_start "query" one_at_a_time 2 false

abbrev with_lane : Queue
with_lane = register_lane empty_lane (new none)

abbrev submitted : Queue
submitted = (submit "query" "c1" "ping" 0 with_lane).1

abbrev wrapper : CommandWrapper ℕ
wrapper = new_wrapper empty_lane "c1" "ping" 0

abbrev queued : Queue
queued = enqueue 0 empty_lane wrapper (record submitted { submitting = [] })

abbrev started : Queue
started = schedule_next plain_env at_start queued

abbrev busy_lane : Lane ℕ
busy_lane = record empty_lane {
  state = record empty_lane.state { active = 1 };
  tasks = record { running = wrapper ∷ []; finishing = []; releasing = 0; sleeping = [] };
}

abbrev answered : Queue
answered = handle_result plain_env.display 7 0 (with_running [] busy_lane) wrapper (ok 42) started

abbrev answered_lane : Lane ℕ
answered_lane = with_finishing (wrapper ∷ []) (with_running [] busy_lane)

abbrev finished_queue : Queue
finished_queue = finish_task 0 (with_finishing [] answered_lane) wrapper answered

abbrev closed : Queue
closed = shutdown finished_queue

abbrev served : Reach plain_env (new none) started
unfolding with_storage register_lane submit enqueue new new_wrapper
served =
    next
      (next
        (next (next here (registers at_start "query" one_at_a_time 2 false))
          (submits "query" "c1" "ping" 0))
        (enqueues 0 0 empty_lane wrapper [] refl refl))
      (schedules at_start)

abbrev whole_run : Reach plain_env (new none) closed
unfolding with_storage register_lane submit enqueue schedule_next new new_wrapper handle_result
    sort_by try_dequeue shutdown finish_task execute
whole_run =
    next
      (next (next served (runs 7 0 0 busy_lane wrapper [] (some (ok 42)) (ok 42) refl refl refl))
        (finishes 0 0 answered_lane wrapper [] refl refl))
      shuts_down

reachable-LaneInv_example : All LaneInv closed.store
reachable-LaneInv_example = reachable-LaneInv plain_env none whole_run

reachable_outstanding_example : started.outstanding ≡ in_queue started % usize_mod
reachable_outstanding_example = reachable_outstanding plain_env none served

answered_once_example :
    answers "c1" started + unanswered "c1" started ≡ accepts plain_env "c1" served
answered_once_example = answered_once plain_env none "c1" served

nothing_left : in_queue closed < usize_mod
unfolding with_storage register_lane submit enqueue schedule_next new new_wrapper handle_result
    sort_by try_dequeue shutdown finish_task execute
nothing_left = omega arith

closed_idle : is_idle closed ≡ true
unfolding with_storage register_lane submit enqueue schedule_next new new_wrapper handle_result
    sort_by try_dequeue shutdown finish_task is_idle
closed_idle = refl

closed_complete : (poll_shutdown closed).1 ≡ true
unfolding with_storage register_lane submit enqueue schedule_next new new_wrapper handle_result
    sort_by try_dequeue shutdown finish_task is_idle poll_shutdown
closed_complete = refl

is_idle_empty_example : in_queue closed ≡ 0
is_idle_empty_example = is_idle_empty plain_env none whole_run nothing_left closed_idle

shutdown_complete_answered_example : answers "c1" closed ≡ accepts plain_env "c1" whole_run
shutdown_complete_answered_example =
    shutdown_complete_answered plain_env none "c1" whole_run nothing_left closed_complete

closed_flag : closed.is_shutting_down ≡ true
unfolding with_storage register_lane submit enqueue schedule_next new new_wrapper handle_result
    sort_by try_dequeue shutdown finish_task execute
closed_flag = refl

abbrev idle_lane : Lane ℕ
idle_lane = mark_completed (with_finishing [] answered_lane)

abbrev stray : CommandWrapper ℕ
stray = direct_wrapper idle_lane "c3" "ping" 9

-- A direct enqueue is done after the shutdown, and a submission is refused.
abbrev refused_run :
    Uses plain_env closed (submit "query" "c2" "ping" 9 (end_enqueue 0 idle_lane stray closed)).1
unfolding with_storage register_lane submit enqueue schedule_next new new_wrapper handle_result
    sort_by try_dequeue shutdown finish_task execute mark_completed
refused_run =
    used (used unused (ends 0 idle_lane idle_lane "c3" "ping" 9 refl))
      (steps (submits "query" "c2" "ping" 9))

submit-shutdown_example :
    submit "query" "c2" "ping" 9 (shutdown with_lane)
    ≡ (err shutdown_in_progress, shutdown with_lane)
submit-shutdown_example = submit-shutdown "query" "c2" "ping" 9 with_lane

shutdown_lasts_example :
    let after = (submit "query" "c2" "ping" 9 (end_enqueue 0 idle_lane stray closed)).1 in
    (admissions plain_env "c2" refused_run ≡ 0)
    × (after.is_shutting_down ≡ true)
    × (with_permit plain_env after ≤ with_permit plain_env closed)
shutdown_lasts_example = shutdown_lasts plain_env "c2" refused_run closed_flag
