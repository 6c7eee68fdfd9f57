-- ===== src/CommandQueue/Outside.antt =====
-- src/queue.rs: `Lane::enqueue`, which clients can call on a lane object besides the steps of the
-- queue: it asks for no permit and looks at no shutdown.
use Prim.Native.String.{String}
use lane.Prelude.{ℕ, ◌+◌, ◌≡◌, false, some, get_elem?}
use lane.Lane.{Env, Fl, Lane, CommandWrapper, push_pending}
use lane.CommandQueue.{CommandQueue, new_wrapper, save_if, update}
use lane.CommandQueue.Step.{Step}
use lane.CommandQueue.Conservation.{enters}
use lane.CommandQueue.Answers.{of_id}

-- The wrapper of `enqueue_with_permit` without a permit.
unfoldable pub direct_wrapper : {F : Type 0} → Lane F → String → String → ℕ → CommandWrapper F
unfolding new_wrapper
direct_wrapper l id command_type utc = record (new_wrapper l id command_type utc) {
  work_permit = false;
}

module _ {F V : Type 0} where
  -- `Lane::enqueue` up to its storage call.
  unfoldable pub start_enqueue : Lane F → String → CommandQueue F V → CommandQueue F V
  unfolding save_if
  start_enqueue l id q = save_if l.storage id q

  -- The rest of it: the lane is as it is by then.
  unfoldable pub end_enqueue : ℕ → Lane F → CommandWrapper F → CommandQueue F V → CommandQueue F V
  unfolding push_pending
  end_enqueue a l w q = update a (push_pending w l) q

module _ (env : Env) {V : Type 0} where
  -- A step of the queue, or a part of a direct enqueue on one of the lanes.
  pub data Use (q : CommandQueue (Fl env) V) : CommandQueue (Fl env) V → Type 0 where
    steps : {r : CommandQueue (Fl env) V} → Step env q r → Use q r
    starts :
        (a : ℕ) (l : Lane (Fl env)) (id : String)
        → get_elem? q.store a ≡ some l
        → Use q (start_enqueue l id q)
    ends :
        (a : ℕ) (made l : Lane (Fl env)) (id command_type : String) (utc : ℕ)
        → get_elem? q.store a ≡ some l
        → Use q (end_enqueue a l (direct_wrapper made id command_type utc) q)

  pub data Uses (q : CommandQueue (Fl env) V) : CommandQueue (Fl env) V → Type 0 where
    unused : Uses q q
    used : {r s : CommandQueue (Fl env) V} → Uses q r → Use r s → Uses q s

  -- The submissions of an id that one use accepts, and those along a run of uses.
  abbrev pub accepted_by : (id : String) {p q : CommandQueue (Fl env) V} → Use p q → ℕ
  accepted_by id (steps s) = enters env (of_id id) s
  accepted_by id (starts a l new_id g) = 0
  accepted_by id (ends a made l new_id command_type utc g) = 0

  abbrev pub admissions : (id : String) {p q : CommandQueue (Fl env) V} → Uses p q → ℕ
  admissions id unused = 0
  admissions id (used run u) = admissions id run + accepted_by id u
