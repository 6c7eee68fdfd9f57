-- ===== src/CommandQueue/Step.antt =====
-- The steps of a command queue: calls of its clients, rounds of the scheduler and the progress of
-- the tasks, in any order.
use Prim.Native.String.{String}
use lane.Prelude.{ℕ, suc, ◌≡◌, Option, some, List, [], pick, get_elem?, Bool, false}
use lane.Error.{Result}
use lane.Lane.{Env, Now, Fl, Lane, CommandWrapper, with_storage}
use lane.Lane.Invariant.{with_running, with_finishing, with_sleeping}
use lane.LaneConfig.{LaneConfig}
use lane.Dlq.{DeadLetterQueue}
use lane.CommandQueue.{CommandQueue, submit, enqueue, shutdown, register_lane}
use lane.CommandQueue.Tasks.{handle_result, finish_task, release_task, wake_task, execute}
use lane.CommandQueue.Scheduler.{schedule_next, poll_shutdown}

-- `CommandQueue::new`, `with_dlq`, `with_storage` and `with_dlq_and_storage`. The storage of the
-- queue is used by its lanes only.
unfoldable pub new : {F V : Type 0} → Option DeadLetterQueue → CommandQueue F V
new dlq = record {
  lanes = [];
  store = [];
  submitting = [];
  dlq = dlq;
  is_shutting_down = false;
  outstanding = 0;
  events = [];
  storage_calls = [];
  sent = [];
}

module _ (env : Env) {V : Type 0} where
  pub data Step (q : CommandQueue (Fl env) V) : CommandQueue (Fl env) V → Type 0 where
    submits :
        (lane_id id command_type : String) (utc : ℕ)
        → Step q (submit lane_id id command_type utc q).1
    -- the storage has answered
    enqueues :
        (i a : ℕ) (l : Lane (Fl env)) (w : CommandWrapper (Fl env))
        (rest : List (ℕ × CommandWrapper (Fl env)))
        → pick i q.submitting ≡ some ((a, w), rest)
        → get_elem? q.store a ≡ some l
        → Step q (enqueue a l w (record q { submitting = rest }))
    schedules : (now : Now) → Step q (schedule_next env now q)
    -- the command of a task has run, or its time is up
    runs :
        (utc a i : ℕ) (l : Lane (Fl env)) (w : CommandWrapper (Fl env))
        (rest : List (CommandWrapper (Fl env))) (future : Option (Result V)) (r : Result V)
        → get_elem? q.store a ≡ some l
        → pick i l.running ≡ some (w, rest)
        → execute w.timeout future ≡ some r
        → Step q (handle_result env.display utc a (with_running rest l) w r q)
    finishes :
        (a i : ℕ) (l : Lane (Fl env)) (w : CommandWrapper (Fl env))
        (rest : List (CommandWrapper (Fl env)))
        → get_elem? q.store a ≡ some l
        → pick i l.finishing ≡ some (w, rest)
        → Step q (finish_task a (with_finishing rest l) w q)
    releases :
        (a n : ℕ) (l : Lane (Fl env))
        → get_elem? q.store a ≡ some l
        → l.releasing ≡ suc n
        → Step q (release_task a l n q)
    wakes :
        (a i : ℕ) (l : Lane (Fl env)) (w : CommandWrapper (Fl env))
        (rest : List (CommandWrapper (Fl env)))
        → get_elem? q.store a ≡ some l
        → pick i l.sleeping ≡ some (w, rest)
        → Step q (wake_task a (with_sleeping rest l) w q)
    shuts_down : Step q (shutdown q)
    completes : Step q (poll_shutdown q).0
    registers :
        (now : Now) (id : String) (config : LaneConfig (Fl env)) (priority : ℕ) (storage : Bool)
        → Step q (register_lane (with_storage env now id config priority storage) q)

  pub data Reach (q : CommandQueue (Fl env) V) : CommandQueue (Fl env) V → Type 0 where
    here : Reach q q
    next : {r s : CommandQueue (Fl env) V} → Reach q r → Step r s → Reach q s
