-- ===== src/Lib.antt =====
-- Models of the command queue library (the crate in src/) and what is proved of them.
--
-- A `CommandQueue` (src/queue.rs) holds lanes. A client submits a command to a lane; the scheduler
-- asks the lanes in the order of their priority and starts the first command that it is given; the
-- task of a command runs it, retries it or reports its result. The parts:
--
--   CommandQueue   src/queue.rs: `QueueLifecycle`, `WorkPermit`, `CommandQueue`. `submit` up to its
--                  storage call and `enqueue` after it, `shutdown`, `is_idle`, `register_lane`.
--     Scheduler    `schedule_next` (`check_lanes`, `with_priority`, `try_lanes`) and the end of
--                  `spawn_scheduler`'s loop (`poll_shutdown`).
--     Tasks        the spawned task: `start_task`, `execute`, `handle_result` and the two ends of it.
--     Step         one step between two awaits, of any client or task, and the runs made of steps.
--     Outside      `Lane::enqueue`, which clients call on a lane past the queue.
--     Totals, Conservation, Frame, Permits
--                  what steps do to sums over the commands, and what they leave alone.
--     Capacity, Idle, Answers, Shutdown
--                  the theorems.
--   Lane           src/queue.rs: `CommandWrapper`, `LaneState`, `Lane`.
--   PriorityQueue  src/priority_queue.rs.
--   Dlq, Retry, RateLimit, Boost
--                  src/dlq.rs, src/retry.rs, src/ratelimit.rs, src/boost.rs.
--   Job            src/job/types.rs: the durable job, its options and states.
--     Validate     the validation of ids, repeats, deduplication, retention and options.
--     Later        the times that `add_duration` gives.
--     Queue        src/job/memory.rs: `InMemoryJobQueueState`, the promotion of due jobs, events.
--       Records    the records of jobs: insertion, removal, retention of finished jobs.
--       Active     `claim_next`, `renew`, `delay_active`, `release_active`, `promote`, `reschedule`,
--                  `set_priority_order` and the changes of a job's data, progress and log.
--       Flow       the index of a parent's children that have ended, and what it depends on.
--         Parents  what the end of a child does to its parent.
--         Reads, Values, Pages, Query
--                  the children of a parent as a whole, by how they ended, and page by page.
--       Dedup      the owners of deduplication ids and of repeat keys.
--         Next     the job or flow that waits for the owner of its deduplication id to end.
--       Finish     `complete_job`, `fail_active_job`, `next_repeat_job`.
--       Remove     `remove`, `clean`, `drain`, `obliterate`, `remove_deduplication_key`,
--                  `remove_child_dependency`.
--       Children   `remove_unprocessed_children`.
--       Retry, Stalled, Add, Repeats
--                  `retry`; `recover_stalled_jobs`; `add_at` and `add_many_at`; the repeat series.
--       Listing    `list`, `counts_by_state`, `counts_per_priority`.
--       Step       one such operation, and the queues that operations reach.
--       Page       `redis_range` and `log_page`, the pages of a job's log.
--       Kept       what each operation does to the entries of the map of jobs.
--       Promotion, Claim, Lease, Guards, Once, Attempts, Reachable, Flow.Gate, Flow.Members,
--       Flow.Cursor, Stalled.Recovery, Children.Termination
--                  lemmas on the map of jobs, and the theorems.
--   LaneConfig, Error
--                  src/config.rs, src/error.rs.
--   Float, Time    the parts of `f64` and `Duration` that these use.
--   Prelude        shared helpers: lists, sorting, Boolean tests.
--
-- State is passed explicitly. Lanes are shared by reference in the code: they stand in a store, and
-- the map of lanes holds addresses in it, so that a lane that is registered over keeps its tasks.
-- `Step` lets the functions interleave in any order; most model what runs between two awaits.
-- `schedule_next`, `is_idle`, a submission up to its storage call, the direct enqueue up to its own
-- and a call of a rate limiter are one step each, although the code awaits locks inside them. A run
-- of `Step` has no direct enqueue; `Uses` of `Outside` has. The order of the map of lanes is that of
-- the model's list; a `HashMap` gives any, and the theorems hold for each. What the code sends
-- (events, storage calls, results) is logged in the state.
--
-- Numbers: `u64`, `usize` and `u32` are natural numbers with their wrap-around written out where the
-- code adds or subtracts without a guard; durations and instants are nanoseconds. `f64` is the
-- parameter `Float`, with the laws that are used of it as fields, and `Float.Whole` shows that they
-- can hold. The record `JobEnv` holds what the job queue uses of other code: the bound of
-- `chrono::Duration::from_std`, calendar arithmetic and cron expressions, JSON values and the texts
-- of errors. A fresh UUID is an argument of the operation that draws it. Loops run over lists; only
-- the search through the children of children (`collect`) has fuel, and the number of jobs is what
-- `remove_unprocessed_children` gives it.
--
-- Not modelled: a command that panics, whose task ends without a result; the event channel
-- (src/event.rs), storages (src/storage.rs), the manager (src/manager.rs), metrics, monitoring,
-- alerts and telemetry, the partition strategies (src/partition.rs, src/distributed.rs), the other
-- job queues and the worker (src/job/local.rs, src/job/redis.rs, src/job/worker.rs), and of the
-- in-memory job queue the addition of flows (`add_flow_at` and the like) and snapshots. A storage's
-- answer is ignored by the code; its calls are logged.
pub mod Prelude
pub mod Float
pub mod Time
pub mod PriorityQueue
pub mod Dlq
pub mod Retry
pub mod RateLimit
pub mod Boost
pub mod Error
pub mod LaneConfig
pub mod Lane
pub mod CommandQueue
pub mod Job
