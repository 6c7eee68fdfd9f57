-- ===== src/Job/Queue/Reachable.antt =====
-- The queues that can be reached from a new one.
use Prim.Native.String.{String}
use lane.Job.{JobEnv}
use lane.Job.Queue.{JobQueue}
use lane.Job.Queue.Step.{Reach, empty_queue}
use lane.Job.Queue.Lease.{Lasting, reach-Sound}
use lane.Job.Queue.Kept.Sound.{Any, Any-Stable, Sound}

module _ (env : JobEnv) where
  open env use {F, V}

  abbrev pub AnyToken : String → Type 0
  AnyToken token = Unit

  Any-Lasting : Lasting env Any AnyToken
  Any-Lasting = record {
    stable = Any-Stable;
    claim = λ worker token lease_for now job allowed p. tt;
    renewal = λ at job p. tt;
  }

  -- In every queue that operations reach from an empty one, the map of jobs is sound: it has each key
  -- once, holds each job under its own id, and a job has a worker, a lock token and a lease exactly
  -- while it is active. The operations are claims, renewals, completions, failures, delays and
  -- releases of active jobs, the recovery of stalled jobs, additions, removals, retries, cleaning,
  -- draining, obliteration, changes of repeat series, promotions, new times, priorities, payloads,
  -- progress, stack traces and log lines, a pause and its end; each whether it succeeds or not.
  pub reachable-Sound : {q : JobQueue F V} → Reach env AnyToken empty_queue q → Sound Any q.jobs
  unfolding empty_queue
  reachable-Sound run =
      reach-Sound env Any AnyToken Any-Lasting run (record { entries = tt; distinct = tt })
