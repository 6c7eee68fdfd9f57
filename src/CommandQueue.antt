-- ===== src/CommandQueue.antt =====
-- src/queue.rs: `QueueLifecycle`, `WorkPermit`, `CommandQueue` and the task that the scheduler
-- spawns for a command. Lanes are shared objects: they stand in a store, and the map of lanes holds
-- addresses in it. Functions are cut where the program waits: `submit` where it waits for the
-- storage, and a task where it waits for its command, for the lane's mutex and for its sleep.
-- What the queue tells others (events, storage calls, results sent) is logged.
pub mod Tasks
pub mod Scheduler
pub mod Step
pub mod Capacity
pub mod Totals
pub mod Conservation
pub mod Frame
pub mod Permits
pub mod Idle
pub mod Answers
pub mod Outside
pub mod Shutdown
pub mod Tests
use mathlib.Core.Option
use Prim.Native.String.{String}
use text.Mathlib.Text.{◌==◌ as str_eq}
use lane.Prelude.{
  ℕ, ◌+◌, ◌-◌, ◌%◌, Bool, true, false, not, ◌&&◌, Option, none, some, List, [], ◌∷◌, ◌++◌, length,
  ltb, leb, ◌==◌, if◌then◌else◌, get_elem?, set,
}
use lane.Prelude.Sort.{sort_by}
use lane.Error.{
  LaneError, Result, ok, err, lane_not_found, shutdown_in_progress, timeout, is_timeout,
}
use lane.Retry.{should_retry}
use lane.Dlq
use lane.Dlq.{DeadLetter, DeadLetterQueue}
use lane.Lane
use lane.Lane.{
  Env, Now, Fl, Lane, LaneStatus, CommandWrapper, Pressure, queue_lane_pressure, queue_lane_idle,
  push_pending, retry_command, mark_completed, check_pressure, effective_priority, try_dequeue,
}

-- src/event.rs: the events of the queue. Time stamps are left out.
pub data LaneEvent : Type 0 where
  lane_pressure : String → LaneEvent
  lane_idle : String → LaneEvent
  command_submitted : String → LaneEvent
  command_started : String → String → String → LaneEvent
  command_completed : String → String → LaneEvent
  command_retry : String → String → ℕ → LaneEvent
  command_dead_lettered : String → String → String → LaneEvent
  command_timeout : String → String → String → LaneEvent
  command_failed : String → String → String → LaneEvent
  shutdown_started : LaneEvent
  shutdown_complete : LaneEvent

pub data StorageCall : Type 0 where
  save_command : String → StorageCall
  remove_command : String → StorageCall

pub record CommandQueue (F V : Type 0) : Type 0 where
  pub lanes : List (String × ℕ)
  pub store : List (Lane F)
  -- submissions that wait for the storage, with the lane that will take them
  pub submitting : List (ℕ × CommandWrapper F)
  pub dlq : Option DeadLetterQueue
  pub is_shutting_down : Bool
  pub outstanding : ℕ
  pub events : List LaneEvent
  pub storage_calls : List StorageCall
  pub sent : List (String × Result V)

abbrev pub usize_mod : ℕ
usize_mod = 18446744073709551616

abbrev pub lookup : String → List (String × ℕ) → Option ℕ
lookup k [] = none
lookup k ((j, a) ∷ m) = if str_eq j k then some a else lookup k m

-- `HashMap::insert`
abbrev pub insert : String → ℕ → List (String × ℕ) → List (String × ℕ)
insert k a [] = (k, a) ∷ []
insert k a ((j, b) ∷ m) = if str_eq j k then (j, a) ∷ m else (j, b) ∷ insert k a m

-- The wrapper of `enqueue_with_permit`. Its id is a fresh UUID, the argument `id`.
unfoldable pub new_wrapper : {F : Type 0} → Lane F → String → String → ℕ → CommandWrapper F
new_wrapper l id command_type utc = record {
  id = id;
  timeout = l.config.default_timeout;
  retry_policy = l.config.retry_policy;
  attempt = 0;
  lane_id = l.id;
  command_type = command_type;
  work_permit = true;
  enqueue_time = utc;
}

module _ {F V : Type 0} where
  unfoldable pub emit : LaneEvent → CommandQueue F V → CommandQueue F V
  emit e q = record q { events = q.events ++ e ∷ [] }

  -- `QueueLifecycle::admit`: `fetch_add` on a `usize`.
  unfoldable pub admit : CommandQueue F V → Result (CommandQueue F V)
  admit q =
      if q.is_shutting_down
      then err shutdown_in_progress
      else ok (record q { outstanding = (q.outstanding + 1) % usize_mod })

  -- `WorkPermit::drop`, if there is a permit: `fetch_sub` on a `usize`.
  unfoldable pub drop_permit : Bool → CommandQueue F V → CommandQueue F V
  drop_permit false q = q
  drop_permit true q = record q { outstanding = (q.outstanding + usize_mod - 1) % usize_mod }

  -- `CommandQueue::shutdown` with `QueueLifecycle::begin_shutdown`.
  unfoldable pub shutdown : CommandQueue F V → CommandQueue F V
  unfolding emit
  shutdown q =
      let started = not q.is_shutting_down in
      let q' : CommandQueue F V = record q { is_shutting_down = true } in
      if started then emit shutdown_started q' else q'

  lane_idle_at : CommandQueue F V → ℕ → Bool
  unfolding Lane.is_idle
  lane_idle_at q a = elim (get_elem? q.store a) [ none ↦ true | some l ↦ Lane.is_idle l ]

  all_idle : CommandQueue F V → List (String × ℕ) → Bool
  all_idle q [] = true
  all_idle q ((id, a) ∷ m) = lane_idle_at q a && all_idle q m

  unfoldable pub is_idle : CommandQueue F V → Bool
  unfolding lane_idle_at all_idle
  is_idle q = q.outstanding == 0 && all_idle q q.lanes

  -- The lane object becomes reachable under its id; one that it replaces stays in the store.
  unfoldable pub register_lane : Lane F → CommandQueue F V → CommandQueue F V
  register_lane l q = record q {
    lanes = insert l.id (length q.store) q.lanes;
    store = q.store ++ l ∷ [];
  }

  unfoldable pub save_if : Bool → String → CommandQueue F V → CommandQueue F V
  save_if stored id q =
      if stored then record q { storage_calls = q.storage_calls ++ save_command id ∷ [] } else q

  unfoldable pub remove_if : Bool → String → CommandQueue F V → CommandQueue F V
  remove_if stored id q =
      if stored then record q { storage_calls = q.storage_calls ++ remove_command id ∷ [] } else q

  unfoldable pub submit_to : ℕ → Lane F → String → String → ℕ → CommandQueue F V → CommandQueue F V
  unfolding save_if
  submit_to a l id command_type utc q =
      save_if l.storage id
        (record q { submitting = q.submitting ++ (a, new_wrapper l id command_type utc) ∷ [] })

  find_address : CommandQueue F V → Option ℕ → Option (ℕ × Lane F)
  find_address q none = none
  find_address q (some a) = Option.map (λ l. (a, l)) (get_elem? q.store a)

  -- `lanes.get(lane_id)`, with the object behind the `Arc`.
  unfoldable pub find_lane : String → CommandQueue F V → Option (ℕ × Lane F)
  unfolding find_address
  find_lane lane_id q = find_address q (lookup lane_id q.lanes)

  -- The permit is dropped where the lane is unknown.
  unfoldable pub submit_admitted :
      String
      → String
      → String
      → ℕ
      → CommandQueue F V
      → Option (ℕ × Lane F)
      → Result (Unit {0}) × CommandQueue F V
  unfolding submit_to drop_permit
  submit_admitted lane_id id command_type utc q none =
      (err (lane_not_found lane_id), drop_permit true q)
  submit_admitted lane_id id command_type utc q (some (a, l)) =
      (ok tt, submit_to a l id command_type utc q)

  unfoldable pub submit_from :
      String
      → String
      → String
      → ℕ
      → CommandQueue F V
      → Result (CommandQueue F V)
      → Result (Unit {0}) × CommandQueue F V
  unfolding submit_admitted find_lane
  submit_from lane_id id command_type utc q (err e) = (err e, q)
  submit_from lane_id id command_type utc q (ok q') =
      submit_admitted lane_id id command_type utc q' (find_lane lane_id q')

  unfoldable pub submit :
      String → String → String → ℕ → CommandQueue F V → Result (Unit {0}) × CommandQueue F V
  unfolding admit submit_from
  submit lane_id id command_type utc q = submit_from lane_id id command_type utc q (admit q)

  -- The rest of `submit`, once the storage has answered.
  unfoldable pub enqueue : ℕ → Lane F → CommandWrapper F → CommandQueue F V → CommandQueue F V
  unfolding emit push_pending
  enqueue a l w q =
      emit (command_submitted w.lane_id) (record q { store = set q.store a (push_pending w l) })

  -- A change of one lane object.
  abbrev pub update : ℕ → Lane F → CommandQueue F V → CommandQueue F V
  update a l q = record q { store = set q.store a l }
