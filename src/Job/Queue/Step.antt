-- ===== src/Job/Queue/Step.antt =====
-- The steps of a job queue that the model covers, and the runs made of them.
use Prim.Native.String.{String}
use lane.Prelude.{ℕ, Bool, Option, List, []}
use lane.Job.{JobEnv, JobSpec, JobState, false}
use lane.Job.Queue.{JobQueue, promote_due, pause, resume}
use lane.Job.Queue.Active.{
  claim_next, renew, delay_active, release_active, promote, reschedule, set_priority_order,
  set_data, set_progress, save_stacktrace, log,
}
use lane.Job.Queue.Finish.{complete, fail_active_job}
use lane.Job.Queue.Stalled.{recover_stalled_jobs}
use lane.Job.Queue.Add.{add, add_many}
use lane.Job.Queue.Repeats.{upsert_repeat, remove_repeat}
use lane.Job.Queue.Retry.{retry}
use lane.Job.Queue.Remove.{
  remove, clean, drain, obliterate, remove_deduplication_key, remove_child_dependency,
}
use lane.Job.Queue.Children.{remove_unprocessed_children}

-- `InMemoryJobQueueState::default`
unfoldable pub empty_queue : {F V : Type 0} → JobQueue F V
empty_queue = record {
  paused = false;
  sequence = 0;
  event_sequence = 0;
  events = [];
  jobs = [];
  flow_dependencies = [];
  deduplication_next = [];
  deduplication_next_flows = [];
  released_deduplication_owners = [];
}

module _ (env : JobEnv) where
  open env use {F, V, text}

  pub data Step (q : JobQueue F V) : JobQueue F V → Type 0 where
    claims :
        (worker token : String) (lease_for now : ℕ)
        → Step q (claim_next env worker token lease_for now q).1
    renews : (id token : String) (lease_for now : ℕ) → Step q (renew env id token lease_for now q).1
    completes :
        (uuid id token : String) (value : V) (now : ℕ)
        → Step q (complete env uuid id token value now q).1
    fails :
        (id token error : String) (now : ℕ) (allow_retry : Bool)
        → Step q (fail_active_job env id token error now allow_retry q).1
    delays : (id token : String) (delay now : ℕ) → Step q (delay_active env id token delay now q).1
    releases : (id token : String) (now : ℕ) → Step q (release_active env id token now q).1
    recovers : (now : ℕ) → Step q (recover_stalled_jobs env now q).1
    adds :
        (queue uuid : String) (spec : JobSpec F V) (now : ℕ)
        → Step q (add env queue uuid spec now q).1
    adds_many :
        (queue : String) (specs : List (String × JobSpec F V)) (now : ℕ)
        → Step q (add_many env queue specs now q).1
    upserts :
        (queue uuid : String) (spec : JobSpec F V) (now : ℕ)
        → Step q (upsert_repeat env queue uuid spec now q).1
    removes_repeat : (key : String) (now : ℕ) → Step q (remove_repeat env key now q).1
    removes : (id : String) (now : ℕ) → Step q (remove env id now q).1
    removes_children : (id : String) (now : ℕ) → Step q (remove_unprocessed_children env id now q).1
    removes_dependency : (id : String) (now : ℕ) → Step q (remove_child_dependency env id now q).1
    removes_key : (id : String) (now : ℕ) → Step q (remove_deduplication_key id now q).1
    retries : (id : String) (now : ℕ) → Step q (retry env id now q).1
    cleans : (state : JobState) (grace limit now : ℕ) → Step q (clean env state grace limit now q).1
    drains : (include_delayed : Bool) (now : ℕ) → Step q (drain env include_delayed now q).1
    obliterates : (force : Bool) → Step q (obliterate text force q).1
    promotes : (id : String) (now : ℕ) → Step q (promote env id now q).1
    promotes_due : (now : ℕ) → Step q (promote_due now q)
    reschedules : (id : String) (delay now : ℕ) → Step q (reschedule env id delay now q).1
    reorders :
        (id : String) (priority : ℕ) (lifo : Option Bool)
        → Step q (set_priority_order env id priority lifo q).1
    sets_data : (id : String) (payload : V) → Step q (set_data id payload q).1
    progresses : (id : String) (progress : V) (now : ℕ) → Step q (set_progress id progress now q).1
    traces :
        (id : String) (stacktrace : List String) (reason : String)
        → Step q (save_stacktrace id stacktrace reason q).1
    logs_line : (id line : String) (keep now : ℕ) → Step q (log id line keep now q).1
    pauses : (now : ℕ) → Step q (pause now q)
    resumes : (now : ℕ) → Step q (resume now q)

  -- The lock token that a claim issues is one of the allowed.
  abbrev pub Issues : (String → Type 0) → {q r : JobQueue F V} → Step q r → Type 0
  Issues Allowed (claims worker token lease_for now) = Allowed token
  Issues Allowed _ = Unit

  pub data Reach (Allowed : String → Type 0) (q : JobQueue F V) : JobQueue F V → Type 0 where
    here : Reach Allowed q q
    next :
        {r s : JobQueue F V}
        → Reach Allowed q r
        → (step : Step r s) → Issues Allowed step
        → Reach Allowed q s
