-- ===== src/CommandQueue/Totals.antt =====
-- Sums over the commands of a queue, and what submissions and pressure checks do to them.
use Prim.Native.String.{String}
use lane.Prelude.{
  ℕ, ◌+◌, ◌%◌, ◌≡◌, refl, ◌∙◌, Bool, true, false, Option, none, some, List, [], ◌∷◌, arith, sum_by,
  sum_by-append, sum_by-pick, sum_by-set, pick, get_elem?, if◌then◌else◌,
}
use lane.Error.{LaneError, Result, ok, err}
use lane.Lane.{
  Lane, CommandWrapper, Pressure, queue_lane_pressure, queue_lane_idle, check_pressure,
  push_pending,
}
use lane.Lane.Weight.{lane_weight, push_pending_weight, check_pressure_weight}
use lane.CommandQueue.{
  CommandQueue, submit, submit_admitted, submit_from, new_wrapper, admit, enqueue, find_lane,
  save_if, update,
}
use lane.CommandQueue.Scheduler.{check_lanes, check_at, emit_pressure}

-- Weights of the commands whose result is not sent, of those that are finishing, and of the results
-- sent, such that a command's weight does not depend on its attempts and goes over to its result.
pub record Weighing (F V : Type 0) : Type 0 where
  pub waiting : CommandWrapper F → ℕ
  pub finished : CommandWrapper F → ℕ
  pub answered : String × Result V → ℕ
  pub fresh : String → ℕ
  pub retried :
      (w : CommandWrapper F)
      → waiting (record w { attempt = (w.attempt + 1) % 4294967296 }) ≡ waiting w
  pub settled : (w : CommandWrapper F) (r : Result V) → waiting w ≡ finished w + answered (w.id, r)
  pub entered :
      (l : Lane F) (id command_type : String) (utc : ℕ)
      → waiting (new_wrapper l id command_type utc) ≡ fresh id

module _ {F V : Type 0} (m : Weighing F V) where
  open m use {waiting, finished, answered, fresh}

  abbrev pub weight : Lane F → ℕ
  weight = lane_weight waiting finished

  -- The sum over all commands of the queue and all results sent.
  abbrev pub total : CommandQueue F V → ℕ
  total q =
      sum_by (λ s. waiting s.1) q.submitting
      + sum_by (lane_weight waiting finished) q.store
      + sum_by answered q.sent

  -- What a submission adds, if it is accepted.
  abbrev pub accepted : String → Result (Unit {0}) → ℕ
  accepted id (ok x) = fresh id
  accepted id (err e) = 0

  pub update_total :
      (a : ℕ) (l l' : Lane F) (q : CommandQueue F V)
      → get_elem? q.store a ≡ some l
      → total (update a l' q) + weight l ≡ total q + weight l'
  update_total a l l' q g = omega (arith, sum_by-set weight q.store a l l' g)

  pub save_if_total :
      (b : Bool) (id : String) (q : CommandQueue F V) → total (save_if b id q) ≡ total q
  unfolding save_if
  save_if_total true id q = refl
  save_if_total false id q = refl

  admitted_total :
      (lane_id id command_type : String) (utc : ℕ) (q : CommandQueue F V) (o : Option (ℕ × Lane F))
      → total (submit_admitted lane_id id command_type utc q o).1
        ≡ total q + accepted id (submit_admitted lane_id id command_type utc q o).0
  unfolding submit_admitted
  admitted_total lane_id id command_type utc q none = omega arith
  admitted_total lane_id id command_type utc q (some (a, l)) =
      save_if_total l.storage id _
      ∙ omega (
        arith,
        sum_by-append (λ s. waiting s.1) q.submitting ((a, new_wrapper l id command_type utc) ∷ []),
        m.entered l id command_type utc,
      )

  abbrev AdmitTotalOf : CommandQueue F V → Result (CommandQueue F V) → Type 0
  AdmitTotalOf q (err e) = Unit
  AdmitTotalOf q (ok q') = total q' ≡ total q

  gate_total :
      (b : Bool) (e : LaneError) (q q' : CommandQueue F V)
      → total q' ≡ total q
      → AdmitTotalOf q (if b then err e else ok q')
  gate_total true e q q' h = tt
  gate_total false e q q' h = h

  submit_from_total :
      (lane_id id command_type : String) (utc : ℕ) (q : CommandQueue F V)
      (r : Result (CommandQueue F V))
      → AdmitTotalOf q r
      → total (submit_from lane_id id command_type utc q r).1
        ≡ total q + accepted id (submit_from lane_id id command_type utc q r).0
  unfolding submit_from
  submit_from_total lane_id id command_type utc q (err e) h = omega arith
  submit_from_total lane_id id command_type utc q (ok q') h =
      omega (arith, h, admitted_total lane_id id command_type utc q' (find_lane lane_id q'))

  pub submit_total :
      (lane_id id command_type : String) (utc : ℕ) (q : CommandQueue F V)
      → total (submit lane_id id command_type utc q).1
        ≡ total q + accepted id (submit lane_id id command_type utc q).0
  unfolding submit
  submit_total lane_id id command_type utc q =
      submit_from_total lane_id id command_type utc q (admit q)
        (gate_total q.is_shutting_down _ q _ refl)

  pub enqueue_total :
      (i a : ℕ) (l : Lane F) (w : CommandWrapper F) (rest : List (ℕ × CommandWrapper F))
      (q : CommandQueue F V)
      → pick i q.submitting ≡ some ((a, w), rest)
      → get_elem? q.store a ≡ some l
      → total (enqueue a l w (record q { submitting = rest })) ≡ total q
  unfolding enqueue
  enqueue_total i a l w rest q e g = omega (
    arith,
    sum_by-pick (λ s. waiting s.1) i q.submitting (a, w) rest e,
    sum_by-set weight q.store a l (push_pending w l) g,
    push_pending_weight waiting finished w l,
  )

  emit_pressure_total :
      (id : String) (e : Option Pressure) (q : CommandQueue F V)
      → total (emit_pressure id e q) ≡ total q
  unfolding emit_pressure
  emit_pressure_total id none q = refl
  emit_pressure_total id (some queue_lane_pressure) q = refl
  emit_pressure_total id (some queue_lane_idle) q = refl

  check_at_total :
      (id : String) (a : ℕ) (o : Option (Lane F)) (q : CommandQueue F V)
      → get_elem? q.store a ≡ o
      → total (check_at id a o q) ≡ total q
  unfolding check_at
  check_at_total id a none q e = refl
  check_at_total id a (some l) q e =
      emit_pressure_total id (check_pressure l).0 _
      ∙ omega (
        arith,
        update_total a l (check_pressure l).1 q e,
        check_pressure_weight waiting finished l,
      )

  pub check_lanes_total :
      (ls : List (String × ℕ)) (q : CommandQueue F V) → total (check_lanes ls q) ≡ total q
  unfolding check_lanes
  check_lanes_total [] q = refl
  check_lanes_total ((id, a) ∷ ls) q =
      check_lanes_total ls _ ∙ check_at_total id a (get_elem? q.store a) q refl
