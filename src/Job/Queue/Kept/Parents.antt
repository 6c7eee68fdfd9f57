-- ===== src/Job/Queue/Kept/Parents.antt =====
-- The effects on flow parents keep each `Kept` property of the map.
use Prim.Native.String.{String}
use lane.Prelude.{ℕ, ◌≡◌, refl, false, Option, none, some, arith}
use lane.Job.{
  Job, JobEnv, JobState, waiting, delayed, active, waiting_children, completed, failed, same_state,
  child_failed_deferred,
}
use lane.Job.Queue.{JobQueue, get, emit}
use lane.Job.Queue.Flow.{
  record_terminal_child_dependency, record_completed_child_dependency,
  record_ignored_child_dependency, record_failed_child_dependency,
  clear_child_dependency_side_index, record_ended_child, record_listed_child, record_failed_child,
}
use lane.Job.Queue.Flow.Parents.{
  Failures, state_after_dependencies, unblock, continue_found, restored, blocked,
  continue_parent_after_child_failure, restore_found, restore_parent_dependency_after_child_retry,
  defer_found, defer_parent_failure_after_child_failure, failed_parent, fail_found,
  fail_waiting_parent, settle_parent, release_found, release_parent_if_ready,
}
use lane.Job.Queue.Kept.{Jobs, Kept, if-kept, retire-kept}

pub after_inactive :
    (scheduled_at now : ℕ) → same_state (state_after_dependencies scheduled_at now) active ≡ false
unfolding state_after_dependencies
after_inactive scheduled_at now = ground arith

module _ {F V : Type 0} (I : Jobs F V → Type 0) (kept : Kept I) where
  pub unblock-kept :
      (id : String) (parent : Job F V) (prev : JobState) (d : Option String) (now : ℕ)
      (q : JobQueue F V)
      → get id q.jobs ≡ some parent
      → I q.jobs
      → I (unblock id parent prev d now q).jobs
  unfolding emit
  unblock-kept id parent prev d now q e v =
      kept.idled id parent _ q.jobs e refl
        (record {
          inactive = after_inactive parent.scheduled_at now;
          token = refl;
          lease = refl;
          worker = refl;
        })
        v

  continue_found-kept :
      (id : String) (now : ℕ) (o : Option (Job F V)) (q : JobQueue F V)
      → get id q.jobs ≡ o
      → I q.jobs
      → I (continue_found id now o q).jobs
  continue_found-kept id now none q e v = v
  continue_found-kept id now (some parent) q e v =
      if-kept I (same_state parent.state waiting_children) _ q
        (unblock-kept id parent waiting_children none now q e v) v

  pub continue_parent-kept :
      (id : String) (now : ℕ) (q : JobQueue F V)
      → I q.jobs
      → I (continue_parent_after_child_failure id now q).jobs
  unfolding continue_parent_after_child_failure
  continue_parent-kept id now q v = continue_found-kept id now (get id q.jobs) q refl v

  restored-kept :
      (id child : String) (now : ℕ) (parent : Job F V) (q : JobQueue F V)
      → get id q.jobs ≡ some parent
      → I q.jobs
      → I (restored id child now parent q).jobs
  unfolding clear_child_dependency_side_index emit
  restored-kept id child now parent q e v =
      let w =
        kept.idled id parent (blocked parent) q.jobs e refl
          (record { inactive = refl; token = refl; lease = refl; worker = refl }) v in
      if-kept I (same_state parent.state waiting_children) _ _ w w

  restore_found-kept :
      (id child : String) (now : ℕ) (o : Option (Job F V)) (q : JobQueue F V)
      → get id q.jobs ≡ o
      → I q.jobs
      → I (restore_found id child now o q).jobs
  restore_found-kept id child now none q e v = v
  restore_found-kept id child now (some parent) q e v =
      ground (arith, restored-kept id child now parent q e v)

  pub restore_parent-kept :
      (id child : String) (now : ℕ) (q : JobQueue F V)
      → I q.jobs
      → I (restore_parent_dependency_after_child_retry id child now q).jobs
  unfolding restore_parent_dependency_after_child_retry
  restore_parent-kept id child now q v = restore_found-kept id child now (get id q.jobs) q refl v

module _ (env : JobEnv) (I : Jobs env.F env.V → Type 0) where
  open env use {F, V, text}

  -- The side index of a flow is no part of the map.
  record_failed_child-kept :
      (parent : String) (child : Job F V) (q : JobQueue F V)
      → I q.jobs
      → I (record_failed_child env parent child q).jobs
  unfolding record_ignored_child_dependency record_failed_child_dependency
      clear_child_dependency_side_index
  record_failed_child-kept parent child q v = ground arith

  record_ended_child-kept :
      (parent : String) (child : Job F V) (s : JobState) (q : JobQueue F V)
      → I q.jobs
      → I (record_ended_child env parent child s q).jobs
  unfolding record_completed_child_dependency
  record_ended_child-kept parent child waiting q v = v
  record_ended_child-kept parent child delayed q v = v
  record_ended_child-kept parent child active q v = v
  record_ended_child-kept parent child waiting_children q v = v
  record_ended_child-kept parent child completed q v = v
  record_ended_child-kept parent child failed q v = record_failed_child-kept parent child q v

  record_listed_child-kept :
      (parent : String) (child : Job F V) (o : Option (Job F V)) (q : JobQueue F V)
      → I q.jobs
      → I (record_listed_child env parent child o q).jobs
  record_listed_child-kept parent child none q v = v
  record_listed_child-kept parent child (some listing) q v =
      ground (arith, record_ended_child-kept parent child child.state q v)

  pub record_terminal-kept :
      (parent : String) (child : Job F V) (q : JobQueue F V)
      → I q.jobs
      → I (record_terminal_child_dependency env parent child q).jobs
  unfolding record_terminal_child_dependency
  record_terminal-kept parent child q v =
      record_listed_child-kept parent child (get parent q.jobs) q v

module _ (env : JobEnv) (I : Jobs env.F env.V → Type 0) (kept : Kept I) where
  open env use {F, V, text}

  defer_found-kept :
      (id child : String) (now : ℕ) (o : Option (Job F V)) (q : JobQueue F V)
      → get id q.jobs ≡ o
      → I q.jobs
      → I (defer_found env id child now o q).jobs
  defer_found-kept id child now none q e v = v
  defer_found-kept id child now (some parent) q e v = ground (
    arith,
    unblock-kept I kept id parent parent.state (some (text (child_failed_deferred child))) now q e
        v,
  )

  pub defer_parent-kept :
      (id child : String) (now : ℕ) (q : JobQueue F V)
      → I q.jobs
      → I (defer_parent_failure_after_child_failure env id child now q).jobs
  unfolding defer_parent_failure_after_child_failure
  defer_parent-kept id child now q v = defer_found-kept id child now (get id q.jobs) q refl v

  fail_found-kept :
      (id reason : String) (now : ℕ) (o : Option (Job F V)) (q : JobQueue F V)
      → get id q.jobs ≡ o
      → I q.jobs
      → I (fail_found env id reason now o q).jobs
  unfolding emit
  fail_found-kept id reason now none q e v = v
  fail_found-kept id reason now (some parent) q e v = if-kept I _ q _ v (
      retire-kept env I kept _ _ _ id now _ (
        kept.idled id parent (failed_parent env reason now parent) q.jobs e refl
          (record { inactive = refl; token = refl; lease = refl; worker = refl }) v))

  pub fail_waiting_parent-kept :
      (id reason : String) (now : ℕ) (q : JobQueue F V)
      → I q.jobs
      → I (fail_waiting_parent env id reason now q).jobs
  unfolding fail_waiting_parent
  fail_waiting_parent-kept id reason now q v =
      fail_found-kept id reason now (get id q.jobs) q refl v

  settle_parent-kept :
      (id : String) (now : ℕ) (parent : Job F V) (o : Option Failures) (q : JobQueue F V)
      → get id q.jobs ≡ some parent
      → I q.jobs
      → I (settle_parent env id now parent o q).jobs
  settle_parent-kept id now parent none q e v = v
  settle_parent-kept id now parent (some (some child, f)) q e v = defer_parent-kept id child now q v
  settle_parent-kept id now parent (some (none, some (child, reason))) q e v =
      fail_waiting_parent-kept id _ now q v
  settle_parent-kept id now parent (some (none, none)) q e v =
      unblock-kept I kept id parent waiting_children none now q e v

  release_found-kept :
      (id : String) (now : ℕ) (o : Option (Job F V)) (q : JobQueue F V)
      → get id q.jobs ≡ o
      → I q.jobs
      → I (release_found env id now o q).jobs
  release_found-kept id now none q e v = v
  release_found-kept id now (some parent) q e v =
      if-kept I (same_state parent.state waiting_children) _ q
        (settle_parent-kept id now parent _ q e v) v

  pub release_parent-kept :
      (id : String) (now : ℕ) (q : JobQueue F V)
      → I q.jobs
      → I (release_parent_if_ready env id now q).jobs
  unfolding release_parent_if_ready
  release_parent-kept id now q v = release_found-kept id now (get id q.jobs) q refl v
