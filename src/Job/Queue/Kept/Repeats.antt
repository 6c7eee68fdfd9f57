-- ===== src/Job/Queue/Kept/Repeats.antt =====
-- Changes of the repeat series keep each `Kept` property of the map.
use Prim.Native.String.{String}
use lane.Prelude.{ℕ, Option, none, some}
use lane.Error.{Result, ok, err}
use lane.Job.{Job, JobEnv, JobSpec}
use lane.Job.Queue.{JobQueue, str_eq}
use lane.Job.Queue.Dedup.{find_active_repeat_key}
use lane.Job.Queue.Add.{created}
use lane.Job.Queue.Repeats.{
  remove_owner, finish_upsert, upsert_owned, upsert_keyed, upsert_repeat, remove_found_repeat,
  remove_repeat,
}
use lane.Job.Queue.Kept.{
  Jobs, Kept, Idle, result_if-kept, checked-kept, remove_job_record-kept, insert_job-kept,
}
use lane.Job.Queue.Kept.Remove.{remove_checked-kept}
use lane.Job.Queue.Kept.Add.{created-Idle}

module _ (env : JobEnv) (I : Jobs env.F env.V → Type 0) (kept : Kept I) where
  open env use {F, V}

  remove_owner-kept :
      (o : Option (Job F V)) (q : JobQueue F V) → I q.jobs → I (remove_owner o q).jobs
  remove_owner-kept none q v = v
  remove_owner-kept (some owner) q v = remove_job_record-kept I kept owner.id q v

  finish_upsert-kept :
      (g : Result (Unit {0})) (job : Job F V) (now : ℕ) (q removed : JobQueue F V)
      → Idle job
      → I q.jobs
      → I removed.jobs
      → I (finish_upsert env g job now q removed).1.jobs
  finish_upsert-kept (err e) job now q removed i v w = v
  finish_upsert-kept (ok u) job now q removed i v w = insert_job-kept env I kept job now removed i w

  upsert_keyed-kept :
      (job : Job F V) (now : ℕ) (o : Option String) (q : JobQueue F V)
      → Idle job
      → I q.jobs
      → I (upsert_keyed env job now o q).1.jobs
  upsert_keyed-kept job now none q i v = v
  upsert_keyed-kept job now (some key) q i v =
      let owner = find_active_repeat_key q.jobs key in
      result_if-kept I (str_eq key "") (_, q) (upsert_owned env job key now owner q) v
        (finish_upsert-kept _ job now q (remove_owner owner q) i v (remove_owner-kept owner q v))

  pub upsert_repeat-kept :
      (queue uuid : String) (spec : JobSpec F V) (now : ℕ) (q : JobQueue F V)
      → I q.jobs
      → I (upsert_repeat env queue uuid spec now q).1.jobs
  unfolding upsert_repeat
  upsert_repeat-kept queue uuid spec now q v =
      let job = created env queue uuid spec now in
      checked-kept I _ q (upsert_keyed env job now job.repeat_key q) v
        (upsert_keyed-kept job now job.repeat_key q (created-Idle env queue uuid spec now) v)

  remove_found_repeat-kept :
      (now : ℕ) (o : Option (Job F V)) (q : JobQueue F V)
      → I q.jobs
      → I (remove_found_repeat env now o q).1.jobs
  remove_found_repeat-kept now none q v = v
  remove_found_repeat-kept now (some owner) q v = remove_checked-kept env I kept owner.id now _ q v

  pub remove_repeat-kept :
      (key : String) (now : ℕ) (q : JobQueue F V)
      → I q.jobs
      → I (remove_repeat env key now q).1.jobs
  unfolding remove_repeat
  remove_repeat-kept key now q v = remove_found_repeat-kept now _ q v
