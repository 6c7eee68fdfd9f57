-- ===== src/CommandQueue/Tasks.antt =====
-- The task that `schedule_next` spawns for a command, cut where it waits.
use Prim.Native.String.{String}
use lane.Prelude.{ℕ, ◌+◌, ◌%◌, Option, none, some, [], ◌∷◌, ◌++◌, if◌then◌else◌, set}
use lane.Error.{LaneError, Result, ok, err, timeout, is_timeout}
use lane.Retry.{should_retry}
use lane.Dlq
use lane.Dlq.{DeadLetter, DeadLetterQueue}
use lane.Lane.{Lane, CommandWrapper, retry_command, mark_completed, wake}
use lane.CommandQueue.{
  CommandQueue, command_started, command_completed, command_retry, command_dead_lettered,
  command_timeout, command_failed, emit, update, remove_if, drop_permit,
}

-- `tokio::time::timeout` around the command, or the command alone; `none`: still running. A command
-- that panics, and with it the task, is not modelled.
unfoldable pub execute : {V : Type 0} → Option ℕ → Option (Result V) → Option (Result V)
execute (some duration) none = some (err (timeout duration))
execute (some duration) (some r) = some r
execute none r = r

module _ {F V : Type 0} where
  -- The spawned task, up to its wait for the command.
  unfoldable pub start_task : ℕ → Lane F → CommandWrapper F → CommandQueue F V → CommandQueue F V
  unfolding emit
  start_task a l w q =
      emit (command_started w.lane_id w.id w.command_type)
        (update a (record l { tasks = record l.tasks { running = l.running ++ w ∷ [] } }) q)

  -- A task whose command has run, in the lane `l` without that task. On success:
  unfoldable pub complete_task :
      ℕ → Lane F → CommandWrapper F → V → CommandQueue F V → CommandQueue F V
  unfolding emit remove_if
  complete_task a l w value q =
      let done = emit (command_completed w.lane_id w.id) (remove_if l.storage w.id q) in
      record done {
        store =
            set q.store a
              (record l { tasks = record l.tasks { finishing = l.finishing ++ w ∷ [] } });
        sent = q.sent ++ (w.id, ok value) ∷ [];
      }

  -- A failed attempt that is retried:
  unfoldable pub retry_task : ℕ → Lane F → CommandWrapper F → CommandQueue F V → CommandQueue F V
  unfolding emit retry_command
  retry_task a l w q =
      let l' = retry_command w l in
      emit (command_retry w.lane_id w.id ((w.attempt + 1) % 4294967296))
        (update a (record l' { tasks = record l'.tasks { releasing = l'.releasing + 1 } }) q)

  unfoldable pub dead_letter :
      (LaneError → String)
      → ℕ
      → CommandWrapper F
      → LaneError
      → Option DeadLetterQueue
      → CommandQueue F V
      → CommandQueue F V
  unfolding emit Dlq.push
  dead_letter display utc w error none q = q
  dead_letter display utc w error (some letters) q =
      let letter : DeadLetter = record {
        command_id = w.id;
        command_type = w.command_type;
        lane_id = w.lane_id;
        error = display error;
        attempts = (w.attempt + 1) % 4294967296;
        failed_at = utc;
      } in
      emit (command_dead_lettered w.lane_id w.id w.command_type)
        (record q { dlq = some (Dlq.push letter letters) })

  -- A failed attempt that is the last one:
  unfoldable pub fail_task :
      (LaneError → String)
      → ℕ
      → ℕ
      → Lane F
      → CommandWrapper F
      → LaneError
      → CommandQueue F V
      → CommandQueue F V
  unfolding emit remove_if dead_letter is_timeout
  fail_task display utc a l w error q =
      let lettered = dead_letter display utc w error q.dlq (remove_if l.storage w.id q) in
      let event =
        if is_timeout error
        then command_timeout w.lane_id w.id (display error)
        else command_failed w.lane_id w.id (display error) in
      let failed = emit event lettered in
      record failed {
        store =
            set q.store a
              (record l { tasks = record l.tasks { finishing = l.finishing ++ w ∷ [] } });
        sent = q.sent ++ (w.id, err error) ∷ [];
      }

  unfoldable pub handle_result :
      (LaneError → String)
      → ℕ
      → ℕ
      → Lane F
      → CommandWrapper F
      → Result V
      → CommandQueue F V
      → CommandQueue F V
  unfolding complete_task retry_task fail_task should_retry
  handle_result display utc a l w (ok value) q = complete_task a l w value q
  handle_result display utc a l w (err error) q =
      if should_retry w.retry_policy w.attempt
      then retry_task a l w q
      else fail_task display utc a l w error q

  -- The end of a task whose result is sent: `mark_completed`, and then the permit is dropped.
  unfoldable pub finish_task : ℕ → Lane F → CommandWrapper F → CommandQueue F V → CommandQueue F V
  unfolding drop_permit mark_completed
  finish_task a l w q = drop_permit w.work_permit (update a (mark_completed l) q)

  -- The end of a task that has handed its command to a retry.
  unfoldable pub release_task : ℕ → Lane F → ℕ → CommandQueue F V → CommandQueue F V
  unfolding mark_completed
  release_task a l releasing q =
      let l' = mark_completed l in
      update a (record l' { tasks = record l'.tasks { releasing = releasing } }) q

  -- The end of the sleep before a retry, in the lane `l` without the sleeping task.
  unfoldable pub wake_task : ℕ → Lane F → CommandWrapper F → CommandQueue F V → CommandQueue F V
  unfolding wake
  wake_task a l w q = update a (wake w l) q
