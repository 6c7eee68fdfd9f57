-- ===== src/Job/Queue/Stalled/Recovery.antt =====
-- No stalled job is left by the recovery.
use Prim.Native.String.{String}
use text.Mathlib.Text.{◌==◌ as str_eq}
use lane.Prelude.{
  ℕ, ◌≡◌, refl, subst, ◌∙◌, ap, arith, Bool, true, false, ◌&&◌, ◌||◌, Option, none, some, List, [],
  ◌∷◌, All, All-map_pred, map, filter, has_text, Bool-cases, inl, inr, if◌then◌else◌, text_refl,
}
use lane.Prelude.Sort.{insert, sort_by}
use lane.Job.{Job, JobEnv, active, same_state}
use lane.Job.Queue.{JobQueue, get, values, next_waiting_sequence, put}
use lane.Job.Queue.Dedup.{reached}
use lane.Job.Queue.Stalled.{
  Recovered, is_stalled, stalled_before, stalled_jobs, recover_job, recover_each, failed_stalled,
  requeued_stalled, fails_stalled, recover_stalled_jobs,
}
use lane.Job.Queue.Kept.{result_if-kept, Idle}
use lane.Job.Queue.Kept.Entries.{other_text}
use lane.Job.Queue.Kept.Sound.{Any, Stable, Entry, Sound, Sound-Kept}
use lane.Job.Queue.Kept.Elsewhere.{write-Sound, missing-Sound}
use lane.Job.Queue.Kept.Stalled.{finish_recovery-kept}

module _ {F V : Type 0} where
  abbrev ids : List (Job F V) → List String
  ids = map (λ (j : Job F V). j.id)

  has_text-insert :
      (le : Job F V → Job F V → Bool) (x : String) (job : Job F V) (jobs : List (Job F V))
      → has_text x (ids (insert le job jobs)) ≡ (str_eq job.id x || has_text x (ids jobs))
  unfolding insert
  has_text-insert le x job [] = refl
  has_text-insert le x job (j ∷ jobs) = ground (arith, has_text-insert le x job jobs)

  has_text-sort_by :
      (le : Job F V → Job F V → Bool) (x : String) (jobs : List (Job F V))
      → has_text x (ids (sort_by le jobs)) ≡ has_text x (ids jobs)
  unfolding sort_by
  has_text-sort_by le x [] = refl
  has_text-sort_by le x (job ∷ jobs) =
      has_text-insert le x job (sort_by le jobs)
      ∙ ap (λ b. str_eq job.id x || b) (has_text-sort_by le x jobs)

  filter-has_text :
      (p : Job F V → Bool) (jobs : List (String × Job F V))
      → All (λ r. p r.1 ≡ true → has_text r.1.id (ids (filter p (values jobs))) ≡ true) jobs
  filter-has_text p [] = tt
  filter-has_text p ((k, job) ∷ jobs) = (first (p job) refl, later (p job) (filter-has_text p jobs))
    where
      first :
          (b : Bool)
          → p job ≡ b
          → p job ≡ true
          → has_text job.id
              (ids (if b then job ∷ filter p (values jobs) else filter p (values jobs)))
            ≡ true
      first true e t = ground (arith, text_refl job.id)
      first false e t = cc

      later :
          (b : Bool)
          → All (λ r. p r.1 ≡ true → has_text r.1.id (ids (filter p (values jobs))) ≡ true) jobs
          → All
              (λ r.
                p r.1 ≡ true
                → has_text r.1.id
                    (ids (if b then job ∷ filter p (values jobs) else filter p (values jobs)))
                  ≡ true)
              jobs
      later true a =
          All-map_pred (λ r. p r.1 ≡ true → has_text r.1.id (ids (filter p (values jobs))) ≡ true) _
            (λ r h e. ground (arith, h e)) jobs a
      later false a = a

module _ {F V : Type 0} (now : ℕ) where
  -- Only the listed jobs may be stalled.
  abbrev Listed : List String → Job F V → Type 0
  Listed left job = has_text job.id left ≡ false → is_stalled now job ≡ false

  inactive_job : (job : Job F V) → same_state job.state active ≡ false → is_stalled now job ≡ false
  inactive_job job f = ground (arith, f)

  Listed-Stable : (left : List String) → Stable (Listed left)
  Listed-Stable left = record {
    same = λ old job s p e.
        let q : is_stalled now job ≡ is_stalled now old =
          λ i. same_state (s.state i) active && reached (s.lease i) now in
        q ∙ p (subst (λ i. has_text i left ≡ false) s.id e);
    quieted = λ old job s p e. inactive_job job s.after;
    idle = λ job i e. inactive_job job i.inactive;
  }

module _ (env : JobEnv) (now : ℕ) where
  open env use {F, V}

  settled :
      (id : String) (left : List String) (old done : Job F V) (q : JobQueue F V)
      → get id q.jobs ≡ some old
      → done.id ≡ old.id
      → Idle done
      → Sound (Listed now (id ∷ left)) q.jobs
      → Sound (Listed now left) (put id done q.jobs)
  settled id left old done q e same idle v =
      write-Sound (Listed now (id ∷ left)) (Listed now left) id old done q.jobs
        (Listed-Stable now left) (λ j f p u. p (ground (arith, u, other_text j.id id f))) e same
        idle v

  recover_job-Sound :
      (id : String) (left : List String) (o : Option (Job F V)) (r : Recovered F V × JobQueue F V)
      → get id r.1.jobs ≡ o
      → Sound (Listed now (id ∷ left)) r.1.jobs
      → Sound (Listed now left) (recover_job env id now o r).1.jobs
  recover_job-Sound id left none (r, q) e v =
      missing-Sound (Listed now (id ∷ left)) (Listed now left) id q.jobs
        (λ j f p u. p (ground (arith, u, other_text j.id id f))) e v
  recover_job-Sound id left (some job) (r, q) e v =
      result_if-kept (Sound (Listed now left)) (fails_stalled job) _ _
        (settled id left job (failed_stalled env now job) q e refl
          (record { inactive = refl; token = refl; lease = refl; worker = refl }) v)
        (settled id left job (requeued_stalled env (next_waiting_sequence q.sequence) job) q e refl
          (record { inactive = refl; token = refl; lease = refl; worker = refl }) v)

  recover_each-Sound :
      (jobs : List (Job F V)) (r : Recovered F V × JobQueue F V)
      → Sound (Listed now (ids jobs)) r.1.jobs
      → Sound (Listed now []) (recover_each env jobs now r).1.jobs
  recover_each-Sound [] (r, q) v = v
  recover_each-Sound (job ∷ jobs) (r, q) v =
      recover_each-Sound jobs _
        (recover_job-Sound job.id (ids jobs) (get job.id q.jobs) (r, q) refl v)

  All-Listed :
      (jobs all : List (String × Job F V)) (left : List String)
      → All (λ r. is_stalled now r.1 ≡ true → has_text r.1.id left ≡ true) jobs
      → All (Entry Any) jobs
      → All (Entry (Listed now left)) jobs
  All-Listed [] all left h a = tt
  All-Listed ((k, job) ∷ jobs) all left h a = (
    record {
      key = a.0.key;
      leased = a.0.leased;
      also =
          λ u. elim (Bool-cases (is_stalled now job)) [ inl t ↦ let w = h.0 t in cc | inr t ↦ t ];
    },
    All-Listed jobs all left h.1 a.1,
  )

  -- After `recover_stalled_jobs` on a sound queue no job is active with a lease that has expired.
  pub recover_stalled_jobs-All :
      (q : JobQueue F V)
      → Sound Any q.jobs
      → All (λ r. is_stalled now r.1 ≡ false) (recover_stalled_jobs env now q).1.jobs
  unfolding recover_stalled_jobs stalled_jobs
  recover_stalled_jobs-All q v =
      let stalled = stalled_jobs now q in
      let listed =
        All-map_pred
          (λ r.
            is_stalled now r.1 ≡ true
            → has_text r.1.id (ids (filter (is_stalled now) (values q.jobs))) ≡ true)
          (λ r. is_stalled now r.1 ≡ true → has_text r.1.id (ids stalled) ≡ true)
          (λ r h e.
            has_text-sort_by stalled_before r.1.id (filter (is_stalled now) (values q.jobs)) ∙ h e)
          q.jobs (filter-has_text (is_stalled now) q.jobs) in
      let w =
        finish_recovery-kept env (Sound (Listed now [])) (Sound-Kept _ (Listed-Stable now [])) now
          (recover_each env stalled now (([], []), q))
          (recover_each-Sound stalled (([], []), q)
            (record {
              entries = All-Listed q.jobs q.jobs (ids stalled) listed v.entries;
              distinct = v.distinct;
            })) in
      All-map_pred (Entry (Listed now [])) _ (λ r e. e.also refl) _ w.entries
