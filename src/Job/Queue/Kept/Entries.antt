-- ===== src/Job/Queue/Kept/Entries.antt =====
-- Predicates of the entries of the map of jobs, and that its keys are distinct, under each change.
use Prim.Native.String.{String}
use text.Mathlib.Text.{◌==◌ as str_eq}
use lane.Prelude.{
  ◌≡◌, refl, sym, subst, arith, true, false, none, some, [], ◌∷◌, All, Bool-cases, inl, inr,
  insert_at, erase, same_text, text_refl,
}
use lane.Job.{Job}
use lane.Job.Queue.{get, put}
use lane.Job.Queue.Kept.{Jobs}

pub other_text : (s t : String) → str_eq s t ≡ false → str_eq t s ≡ false
other_text s t h = elim (Bool-cases (str_eq t s)) [
  | inl e ↦
      let p : s ≡ t = sym (same_text t s e) in
      let q : str_eq s t ≡ true = subst (λ u. str_eq s u ≡ true) p (text_refl s) in cc
  | inr e ↦ e
]

module _ {F V : Type 0} where
  abbrev pub Distinct : Jobs F V → Type 0
  Distinct [] = Unit
  Distinct ((k, job) ∷ jobs) = (get k jobs ≡ none) × Distinct jobs

  get-put-none :
      (k id : String) (job : Job F V) (jobs : Jobs F V)
      → get k jobs ≡ none
      → get k (put id job jobs) ≡ none
  get-put-none k id job [] e = refl
  get-put-none k id job ((h, j) ∷ jobs) e = ground (arith, get-put-none k id job jobs)

  pub put-Distinct :
      (id : String) (job : Job F V) (jobs : Jobs F V) → Distinct jobs → Distinct (put id job jobs)
  put-Distinct id job [] d = tt
  put-Distinct id job ((h, j) ∷ jobs) d =
      ground (arith, get-put-none h id job jobs d.0, put-Distinct id job jobs d.1)

  get-insert-none :
      (k id : String) (job : Job F V) (jobs : Jobs F V)
      → str_eq id k ≡ false
      → get k jobs ≡ none
      → get k (insert_at id job jobs) ≡ none
  get-insert-none k id job [] n e = rw n refl
  get-insert-none k id job ((h, j) ∷ jobs) n e = ground (arith, get-insert-none k id job jobs n)

  pub insert-Distinct :
      (id : String) (job : Job F V) (jobs : Jobs F V)
      → Distinct jobs
      → Distinct (insert_at id job jobs)
  insert-Distinct id job [] d = (refl, tt)
  insert-Distinct id job ((h, j) ∷ jobs) d = elim (Bool-cases (str_eq h id)) [
    | inl t ↦ rw t (d.0, d.1)
    | inr t ↦
        rw t
          (get-insert-none h id job jobs (other_text h id t) d.0, insert-Distinct id job jobs d.1)
  ]

  get-erase-none :
      (k id : String) (jobs : Jobs F V) → get k jobs ≡ none → get k (erase id jobs) ≡ none
  get-erase-none k id [] e = refl
  get-erase-none k id ((h, j) ∷ jobs) e = ground (arith, get-erase-none k id jobs)

  pub erase-Distinct : (id : String) (jobs : Jobs F V) → Distinct jobs → Distinct (erase id jobs)
  erase-Distinct id [] d = tt
  erase-Distinct id ((h, j) ∷ jobs) d =
      ground (arith, get-erase-none h id jobs d.0, erase-Distinct id jobs d.1)

module _ {F V : Type 0} (P : String × Job F V → Type 0) where
  pub get-entry :
      (id : String) (jobs : Jobs F V) (job : Job F V)
      → get id jobs ≡ some job
      → All P jobs
      → P (id, job)
  get-entry id [] job e a = cc
  get-entry id ((k, j) ∷ jobs) job e a = elim (Bool-cases (str_eq k id)) [
    | inl t ↦
        let p : k ≡ id = same_text k id t in
        let f : j ≡ job = ground (arith, e, t) in
        subst (λ h. P (h, job)) p (subst (λ i. P (k, i)) f a.0)
    | inr t ↦ get-entry id jobs job (ground (arith, e, t)) a.1
  ]

  pub put-entry :
      (id : String) (jobs : Jobs F V) (job : Job F V)
      → P (id, job)
      → All P jobs
      → All P (put id job jobs)
  put-entry id [] job p a = tt
  put-entry id ((k, j) ∷ jobs) job p a = elim (Bool-cases (str_eq k id)) [
    | inl t ↦ rw t (subst (λ h. P (h, job)) (sym (same_text k id t)) p, a.1)
    | inr t ↦ rw t (a.0, put-entry id jobs job p a.1)
  ]

  pub insert-entry :
      (id : String) (jobs : Jobs F V) (job : Job F V)
      → P (id, job)
      → All P jobs
      → All P (insert_at id job jobs)
  insert-entry id [] job p a = (p, tt)
  insert-entry id ((k, j) ∷ jobs) job p a = elim (Bool-cases (str_eq k id)) [
    | inl t ↦ rw t (subst (λ h. P (h, job)) (sym (same_text k id t)) p, a.1)
    | inr t ↦ rw t (a.0, insert-entry id jobs job p a.1)
  ]

  pub erase-entry : (id : String) (jobs : Jobs F V) → All P jobs → All P (erase id jobs)
  erase-entry id [] a = tt
  erase-entry id ((k, j) ∷ jobs) a = ground (arith, erase-entry id jobs a.1)
