-- ===== src/Lane/Invariant.antt =====
-- What every access to a lane keeps: its counters agree with its tasks, and neither the limit on
-- concurrency nor that on retries is passed.
use Prim.Native.String.{String}
use lane.Prelude.{
  ℕ, suc, ◌+◌, ◌%◌, ◌≤◌, ◌<◌, ◌≡◌, refl, Bool, true, not, ◌&&◌, Option, none, some, List, [], ◌∷◌,
  ◌++◌, arith, length, length-append, All, All-append, All-pick, length-pick, pick, ltb, ◌==◌,
  Bool-cases, inl, inr,
}
use lane.Retry.{should_retry}
use lane.Lane.{
  Env, Now, Fl, Lane, CommandWrapper, push_pending, retry_command, wake, mark_completed,
  check_pressure, check_threshold, dequeue, try_dequeue, with_storage, acquire,
}
use lane.Dlq.{front, behind}
use lane.LaneConfig.{LaneConfig}

-- The command has had at most as many retries as its policy allows.
abbrev pub HasTries : {F : Type 0} → CommandWrapper F → Type 0
HasTries w = w.attempt ≤ w.retry_policy.max_retries

pub record LaneInv {F : Type 0} (l : Lane F) : Type 0 where
  pub active_tasks : l.active ≡ length l.running + length l.finishing + l.releasing
  pub within : l.active ≤ l.config.max_concurrency
  pub delayed : l.delayed_retries ≡ length l.sleeping
  pub pending_tries : All HasTries l.pending
  pub running_tries : All HasTries l.running
  pub sleeping_tries : All HasTries l.sleeping

module _ {F : Type 0} where
  abbrev pub start : CommandWrapper F → Lane F → Lane F
  start w l = record l { tasks = record l.tasks { running = l.running ++ w ∷ [] } }

  abbrev pub with_running : List (CommandWrapper F) → Lane F → Lane F
  with_running ws l = record l { tasks = record l.tasks { running = ws } }

  abbrev pub with_finishing : List (CommandWrapper F) → Lane F → Lane F
  with_finishing ws l = record l { tasks = record l.tasks { finishing = ws } }

  abbrev pub with_releasing : ℕ → Lane F → Lane F
  with_releasing n l = record l { tasks = record l.tasks { releasing = n } }

  abbrev pub with_sleeping : List (CommandWrapper F) → Lane F → Lane F
  with_sleeping ws l = record l { tasks = record l.tasks { sleeping = ws } }

  pub push_pending-LaneInv :
      (w : CommandWrapper F) (l : Lane F) → HasTries w → LaneInv l → LaneInv (push_pending w l)
  unfolding push_pending
  push_pending-LaneInv w l h v = record {
    active_tasks = v.active_tasks;
    within = v.within;
    delayed = v.delayed;
    pending_tries = All-append HasTries l.pending (w ∷ []) v.pending_tries (h, tt);
    running_tries = v.running_tries;
    sleeping_tries = v.sleeping_tries;
  }

  pressure-LaneInv : (l : Lane F) (t : Option ℕ) → LaneInv l → LaneInv (check_threshold l t).1
  pressure-LaneInv l none v = v
  pressure-LaneInv l (some t) v = ground arith

  pub check_pressure-LaneInv : (l : Lane F) → LaneInv l → LaneInv (check_pressure l).1
  unfolding check_pressure
  check_pressure-LaneInv l v = pressure-LaneInv l l.config.pressure_threshold v

  -- A dequeued command is one that the scheduler starts.
  abbrev pub Dequeued : Option (CommandWrapper F) × Lane F → Type 0
  Dequeued (none, l) = LaneInv l
  Dequeued (some w, l) = LaneInv (start w l)

  taken-Dequeued :
      (l : Lane F) (ws : List (CommandWrapper F))
      → All HasTries ws
      → not (length ws == 0) ≡ true
      → l.active < l.config.max_concurrency
      → LaneInv l
      → Dequeued (
        front ws,
        record l { state = record l.state { active = l.active + 1; pending = behind ws } },
      )
  taken-Dequeued l [] a h c v = cc
  taken-Dequeued l (w ∷ ws) a h c v = record {
    active_tasks = omega (arith, v.active_tasks, length-append l.running (w ∷ []));
    within = omega arith;
    delayed = v.delayed;
    pending_tries = a.1;
    running_tries = All-append HasTries l.running (w ∷ []) v.running_tries (a.0, tt);
    sleeping_tries = v.sleeping_tries;
  }

  dequeue-Dequeued : (l : Lane F) → LaneInv l → Dequeued (dequeue l)
  unfolding dequeue
  dequeue-Dequeued l v =
      elim (Bool-cases (ltb l.active l.config.max_concurrency && not (length l.pending == 0))) [
        | inl e ↦ rw e (taken-Dequeued l l.pending v.pending_tries (ground arith) (ground arith) v)
        | inr e ↦ rw e v
      ]

  -- The end of a run: the task has left `running`, with its result sent or its command in a retry.
  pub finishing-LaneInv :
      (l : Lane F) (i : ℕ) (w : CommandWrapper F) (rest : List (CommandWrapper F))
      → pick i l.running ≡ some (w, rest)
      → LaneInv l
      → LaneInv (with_finishing (l.finishing ++ w ∷ []) (with_running rest l))
  finishing-LaneInv l i w rest e v = record {
    active_tasks = omega (
      arith,
      v.active_tasks,
      length-pick i l.running w rest e,
      length-append l.finishing (w ∷ []),
    );
    within = v.within;
    delayed = v.delayed;
    pending_tries = v.pending_tries;
    running_tries = (All-pick HasTries i l.running w rest e v.running_tries).1;
    sleeping_tries = v.sleeping_tries;
  }

  retry-HasTries :
      (w : CommandWrapper F)
      → should_retry w.retry_policy w.attempt ≡ true
      → (w.attempt + 1) % 4294967296 ≤ w.retry_policy.max_retries
  unfolding should_retry
  retry-HasTries w h = ground arith

  pub retry-LaneInv :
      (l : Lane F) (i : ℕ) (w : CommandWrapper F) (rest : List (CommandWrapper F))
      → pick i l.running ≡ some (w, rest)
      → should_retry w.retry_policy w.attempt ≡ true
      → LaneInv l
      → LaneInv (with_releasing (l.releasing + 1) (retry_command w (with_running rest l)))
  unfolding retry_command
  retry-LaneInv l i w rest e h v = record {
    active_tasks = omega (arith, v.active_tasks, length-pick i l.running w rest e);
    within = v.within;
    delayed = omega (arith, v.delayed, length-append l.sleeping (again ∷ []));
    pending_tries = v.pending_tries;
    running_tries = (All-pick HasTries i l.running w rest e v.running_tries).1;
    sleeping_tries =
        All-append HasTries l.sleeping (again ∷ []) v.sleeping_tries (retry-HasTries w h, tt);
  }
    where
      again : CommandWrapper F
      again = record w { attempt = (w.attempt + 1) % 4294967296 }

  pub finish-LaneInv :
      (l : Lane F) (i : ℕ) (w : CommandWrapper F) (rest : List (CommandWrapper F))
      → pick i l.finishing ≡ some (w, rest)
      → LaneInv l
      → LaneInv (mark_completed (with_finishing rest l))
  unfolding mark_completed
  finish-LaneInv l i w rest e v = record {
    active_tasks = omega (arith, v.active_tasks, length-pick i l.finishing w rest e);
    within = omega (arith, v.within);
    delayed = v.delayed;
    pending_tries = v.pending_tries;
    running_tries = v.running_tries;
    sleeping_tries = v.sleeping_tries;
  }

  pub release-LaneInv :
      (l : Lane F) (n : ℕ)
      → l.releasing ≡ suc n
      → LaneInv l
      → LaneInv (with_releasing n (mark_completed l))
  unfolding mark_completed
  release-LaneInv l n e v = record {
    active_tasks = omega (arith, v.active_tasks);
    within = omega (arith, v.within);
    delayed = v.delayed;
    pending_tries = v.pending_tries;
    running_tries = v.running_tries;
    sleeping_tries = v.sleeping_tries;
  }

  pub wake-LaneInv :
      (l : Lane F) (i : ℕ) (w : CommandWrapper F) (rest : List (CommandWrapper F))
      → pick i l.sleeping ≡ some (w, rest)
      → LaneInv l
      → LaneInv (wake w (with_sleeping rest l))
  unfolding wake
  wake-LaneInv l i w rest e v =
      let a = All-pick HasTries i l.sleeping w rest e v.sleeping_tries in
      record {
        active_tasks = v.active_tasks;
        within = v.within;
        delayed = omega (arith, v.delayed, length-pick i l.sleeping w rest e);
        pending_tries = All-append HasTries l.pending (w ∷ []) v.pending_tries (a.0, tt);
        running_tries = v.running_tries;
        sleeping_tries = a.1;
      }

module _ (env : Env) where
  pub try_dequeue-Dequeued :
      (now : Now) (l : Lane (Fl env)) → LaneInv l → Dequeued (try_dequeue env now l)
  unfolding try_dequeue
  try_dequeue-Dequeued now l v = elim (Bool-cases (acquire env now l.rate_limiter).0) [
    | inl e ↦ rw e (dequeue-Dequeued limited (same v))
    | inr e ↦ rw e (same v)
  ]
    where
      limited : Lane (Fl env)
      limited = record l { rate_limiter = (acquire env now l.rate_limiter).1 }

      same : LaneInv l → LaneInv limited
      same v = record {
        active_tasks = v.active_tasks;
        within = v.within;
        delayed = v.delayed;
        pending_tries = v.pending_tries;
        running_tries = v.running_tries;
        sleeping_tries = v.sleeping_tries;
      }

  pub new-LaneInv :
      (now : Now) (id : String) (c : LaneConfig (Fl env)) (priority : ℕ) (storage : Bool)
      → LaneInv (with_storage env now id c priority storage)
  unfolding with_storage
  new-LaneInv now id c priority storage = record {
    active_tasks = refl;
    within = omega arith;
    delayed = refl;
    pending_tries = tt;
    running_tries = tt;
    sleeping_tries = tt;
  }
