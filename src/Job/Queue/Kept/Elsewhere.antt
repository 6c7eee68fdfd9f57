-- ===== src/Job/Queue/Kept/Elsewhere.antt =====
-- A write to one job turns a property of all jobs into one that the others have and the written job
-- gets by being idle.
use Prim.Native.String.{String}
use text.Mathlib.Text.{◌==◌ as str_eq}
use lane.Prelude.{
  ◌≡◌, sym, subst, ◌∙◌, arith, false, none, some, [], ◌∷◌, All, Bool-cases, inl, inr, same_text,
}
use lane.Job.{Job}
use lane.Job.Queue.{get, put}
use lane.Job.Queue.Kept.{Jobs, Idle}
use lane.Job.Queue.Kept.Entries.{Distinct, put-Distinct, get-entry}
use lane.Job.Queue.Kept.Sound.{Stable, Entry, Sound, Idle-Entry}

module _ {F V : Type 0} (P Q : Job F V → Type 0) (id : String) where
  -- What holds of the other jobs.
  abbrev pub Other : Type 0
  Other = (j : Job F V) → str_eq j.id id ≡ false → P j → Q j

  other-Entry :
      (k : String) (j : Job F V) → Other → str_eq k id ≡ false → Entry P (k, j) → Entry Q (k, j)
  other-Entry k j other f e = record {
    key = e.key;
    leased = e.leased;
    also = other j (subst (λ u. str_eq u id ≡ false) e.key f) e.also;
  }

  others-All :
      (jobs : Jobs F V) → Other → get id jobs ≡ none → All (Entry P) jobs → All (Entry Q) jobs
  others-All [] other n a = tt
  others-All ((k, j) ∷ jobs) other n a = elim (Bool-cases (str_eq k id)) [
    | inl t ↦ absurd (ground (arith, t, n))
    | inr t ↦ (other-Entry k j other t a.0, others-All jobs other (ground (arith, t, n)) a.1)
  ]

  put-All :
      (job : Job F V) (jobs : Jobs F V)
      → Stable Q
      → Other
      → id ≡ job.id
      → Idle job
      → Distinct jobs
      → All (Entry P) jobs
      → All (Entry Q) (put id job jobs)
  put-All job [] stable other e i d a = tt
  put-All job ((k, j) ∷ jobs) stable other e i d a = elim (Bool-cases (str_eq k id)) [
    | inl t ↦
        let p : k ≡ id = same_text k id t in
        rw t (
          Idle-Entry Q stable k job (p ∙ e) i,
          others-All jobs other (subst (λ u. get u jobs ≡ none) p d.0) a.1,
        )
    | inr t ↦ rw t (other-Entry k j other t a.0, put-All job jobs stable other e i d.1 a.1)
  ]

  pub write-Sound :
      (old job : Job F V) (jobs : Jobs F V)
      → Stable Q
      → Other
      → get id jobs ≡ some old
      → job.id ≡ old.id
      → Idle job
      → Sound P jobs
      → Sound Q (put id job jobs)
  write-Sound old job jobs stable other g e i v =
      let entry = get-entry (Entry P) id jobs old g v.entries in
      record {
        entries = put-All job jobs stable other (entry.key ∙ sym e) i v.distinct v.entries;
        distinct = put-Distinct id job jobs v.distinct;
      }

  pub missing-Sound : (jobs : Jobs F V) → Other → get id jobs ≡ none → Sound P jobs → Sound Q jobs
  missing-Sound jobs other n v = record {
    entries = others-All jobs other n v.entries;
    distinct = v.distinct;
  }
