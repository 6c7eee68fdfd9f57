-- ===== src/Job/Queue/Kept/Sound.antt =====
-- The well-formedness of the map of jobs, with a further property of each job, is `Kept`.
use Prim.Native.String.{String}
use text.Mathlib.Text.{◌==◌ as str_eq}
use lane.Prelude.{
  ◌≡◌, refl, sym, ap, subst, ◌∙◌, true, none, some, [], ◌∷◌, All, Bool-cases, inl, inr, is_some,
  same_text, text_refl,
}
use lane.Job.{Job, active, same_state}
use lane.Job.Queue.{get, put}
use lane.Job.Queue.Promotion.{Leased}
use lane.Job.Queue.Kept.{Jobs, Keyed, Kept, Idle, Same, Quieted}
use lane.Job.Queue.Kept.Entries.{
  Distinct, put-Distinct, insert-Distinct, erase-Distinct, get-entry, put-entry, insert-entry,
  erase-entry,
}

module _ {F V : Type 0} where
  -- No further property of a job.
  abbrev pub Any : Job F V → Type 0
  Any job = Unit

  -- What a further property of jobs must outlast.
  pub record Stable (P : Job F V → Type 0) : Type 0 where
    pub same : (old job : Job F V) → Same old job → P old → P job
    pub quieted : (old job : Job F V) → Quieted old job → P old → P job
    pub idle : (job : Job F V) → Idle job → P job

  pub Any-Stable : Stable Any
  Any-Stable = record { same = λ old job s p. tt; quieted = λ old job s p. tt; idle = λ job i. tt }

  -- A job that stands under its own id, and has a worker, a lock token and a lease exactly while it
  -- is active.
  pub record Entry (P : Job F V → Type 0) (r : String × Job F V) : Type 0 where
    pub key : r.0 ≡ r.1.id
    pub leased : Leased r.1
    pub also : P r.1

  pub record Sound (P : Job F V → Type 0) (jobs : Jobs F V) : Type 0 where
    pub entries : All (Entry P) jobs
    pub distinct : Distinct jobs

  get-later :
      (k : String) (head j : Job F V) (jobs : Jobs F V)
      → get k jobs ≡ none
      → get j.id jobs ≡ some j
      → get j.id ((k, head) ∷ jobs) ≡ some j
  get-later k head j jobs n e = elim (Bool-cases (str_eq k j.id)) [
    | inl t ↦ let p : k ≡ j.id = same_text k j.id t in cc
    | inr t ↦ rw t e
  ]

  later-Keyed :
      (k : String) (head : Job F V) (all jobs : Jobs F V)
      → get k all ≡ none
      → All (λ r. get r.1.id all ≡ some r.1) jobs
      → All (λ r. get r.1.id ((k, head) ∷ all) ≡ some r.1) jobs
  later-Keyed k head all [] n h = tt
  later-Keyed k head all ((h', j) ∷ jobs) n h =
      (get-later k head j all n h.0, later-Keyed k head all jobs n h.1)

  Sound-Keyed :
      (P : Job F V → Type 0) (jobs : Jobs F V) → All (Entry P) jobs → Distinct jobs → Keyed jobs
  Sound-Keyed P [] a d = tt
  Sound-Keyed P ((k, j) ∷ jobs) a d =
      let t : str_eq k j.id ≡ true = subst (λ u. str_eq k u ≡ true) a.0.key (text_refl k) in
      (rw t refl, later-Keyed k j jobs jobs d.0 (Sound-Keyed P jobs a.1 d.1))

module _ {F V : Type 0} (P : Job F V → Type 0) (stable : Stable P) where
  Same-Entry :
      (id : String) (old job : Job F V) → Same old job → Entry P (id, old) → Entry P (id, job)
  Same-Entry id old job s e = record {
    key = e.key ∙ sym s.id;
    leased = record {
      token = ap is_some s.token ∙ e.leased.token ∙ ap (λ t. same_state t active) (sym s.state);
      lease = ap is_some s.lease ∙ e.leased.lease ∙ ap (λ t. same_state t active) (sym s.state);
      worker = ap is_some s.worker ∙ e.leased.worker ∙ ap (λ t. same_state t active) (sym s.state);
    };
    also = stable.same old job s e.also;
  }

  Quieted-Entry :
      (id : String) (old job : Job F V) → Quieted old job → Entry P (id, old) → Entry P (id, job)
  Quieted-Entry id old job s e = record {
    key = e.key ∙ sym s.id;
    leased = record {
      token = ap is_some s.token ∙ e.leased.token ∙ s.before ∙ sym s.after;
      lease = ap is_some s.lease ∙ e.leased.lease ∙ s.before ∙ sym s.after;
      worker = ap is_some s.worker ∙ e.leased.worker ∙ s.before ∙ sym s.after;
    };
    also = stable.quieted old job s e.also;
  }

  pub Idle-Entry : (id : String) (job : Job F V) → id ≡ job.id → Idle job → Entry P (id, job)
  Idle-Entry id job k i = record {
    key = k;
    leased = record {
      token = ap is_some i.token ∙ sym i.inactive;
      lease = ap is_some i.lease ∙ sym i.inactive;
      worker = ap is_some i.worker ∙ sym i.inactive;
    };
    also = stable.idle job i;
  }

  pub put-Sound :
      (id : String) (old job : Job F V) (jobs : Jobs F V)
      → get id jobs ≡ some old
      → (Entry P (id, old) → Entry P (id, job))
      → Sound P jobs
      → Sound P (put id job jobs)
  put-Sound id old job jobs e f v = record {
    entries =
        put-entry (Entry P) id jobs job (f (get-entry (Entry P) id jobs old e v.entries)) v.entries;
    distinct = put-Distinct id job jobs v.distinct;
  }

  pub Sound-Kept : Kept (Sound P)
  Sound-Kept = record {
    keyed = λ jobs v. Sound-Keyed P jobs v.entries v.distinct;
    same = λ id old job jobs e s v. put-Sound id old job jobs e (Same-Entry id old job s) v;
    quieted = λ id old job jobs e s v. put-Sound id old job jobs e (Quieted-Entry id old job s) v;
    idled = λ id old job jobs e k i v.
        put-Sound id old job jobs e (λ p. Idle-Entry id job (p.key ∙ sym k) i) v;
    inserted = λ job jobs i v. record {
      entries = insert-entry (Entry P) job.id jobs job (Idle-Entry job.id job refl i) v.entries;
      distinct = insert-Distinct job.id job jobs v.distinct;
    };
    erased = λ id jobs v. record {
      entries = erase-entry (Entry P) id jobs v.entries;
      distinct = erase-Distinct id jobs v.distinct;
    };
  }
