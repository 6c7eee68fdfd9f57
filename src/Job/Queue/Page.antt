-- ===== src/Job/Queue/Page.antt =====
-- src/job/memory.rs: `redis_range` and `log_page`, the pages of a job's log. An `isize` index is an
-- integer: `negsuc n` is -(n + 1).
use mathlib.Core.List.{reverse}
use lane.Prelude.{
  ℕ, zero, suc, ap, sym, ◌∙◌, ◌⊎◌, length-drop, ◌+◌, ◌-◌, ◌≤◌, ◌<◌, ◌≡◌, refl, arith, Bool, true,
  false, ◌||◌, List, [], ◌∷◌, length, drop, take, ltb, leb, min, if◌then◌else◌, Bool-cases, inl,
  inr, ◌==◌,
}
use lane.Job.{JobLogEntry}

pub data ℤ : Type 0 where
  pos negsuc : ℕ → ℤ

abbrev isize_max : ℕ
isize_max = 9223372036854775807

-- `len as isize + index`, where it is negative 0.
unfoldable pub normalize_redis_index : ℤ → ℕ → ℕ
normalize_redis_index (pos n) len = n
normalize_redis_index (negsuc n) len = len - (n + 1)

abbrev slice {ℓ} : {A : Type ℓ} → List A → ℕ → ℕ → List A
slice items first last =
    if ltb last first || leb (length items) first
    then []
    else take (min last (length items - 1) + 1 - first) (drop first items)

unfoldable pub redis_range {ℓ} : {A : Type ℓ} → List A → ℤ → ℤ → List A
unfolding normalize_redis_index
redis_range [] first last = []
redis_range (x ∷ xs) first last =
    let len = length (x ∷ xs) in
    slice (x ∷ xs) (normalize_redis_index first len) (normalize_redis_index last len)

-- `index.saturating_add(1).saturating_neg()`
unfoldable pub mirrored : ℤ → ℤ
mirrored (pos n) = if n == isize_max then negsuc (isize_max - 1) else negsuc n
mirrored (negsuc n) = pos n

unfoldable pub log_page : List JobLogEntry → ℤ → ℤ → Bool → List JobLogEntry × ℕ
unfolding redis_range mirrored
log_page logs first last true = (redis_range logs first last, length logs)
log_page logs first last false =
    (reverse (redis_range logs (mirrored last) (mirrored first)), length logs)

slice_first {ℓ} :
    {A : Type ℓ} (x : A) (xs : List A) (last : ℕ) → last ≡ 0 → slice (x ∷ xs) 0 last ≡ x ∷ []
slice_first x xs last h = elim (Bool-cases (ltb last 0 || leb (length (x ∷ xs)) 0)) [
  | inl e ↦ ground arith
  | inr e ↦
      let one : min last (length (x ∷ xs) - 1) + 1 - 0 ≡ 1 = omega (arith, h) in
      rw e (ap (λ k. take k (x ∷ xs)) one)
]

pub take_none {ℓ} : {A : Type ℓ} (n : ℕ) → take {A = A} n [] ≡ []
take_none zero = refl
take_none (suc n) = refl

pub take_all {ℓ} : {A : Type ℓ} (n : ℕ) (xs : List A) → length xs ≤ n → take n xs ≡ xs
take_all zero [] h = refl
take_all zero (x ∷ xs) h = ground arith
take_all (suc n) [] h = refl
take_all (suc n) (x ∷ xs) h = ap (λ t. x ∷ t) (take_all n xs (omega (arith, h)))

-- Two lengths take the same if they are equal or both reach the end.
take_same {ℓ} :
    {A : Type ℓ} (m n : ℕ) (xs : List A)
    → (m ≡ n) ⊎ (length xs ≤ m × length xs ≤ n)
    → take m xs ≡ take n xs
take_same m n xs (inl e) = ap (λ k. take k xs) e
take_same m n xs (inr (g, h)) = take_all m xs g ∙ sym (take_all n xs h)

pub drop_all {ℓ} : {A : Type ℓ} (n : ℕ) (xs : List A) → length xs ≤ n → drop n xs ≡ []
drop_all zero [] h = refl
drop_all zero (x ∷ xs) h = ground arith
drop_all (suc n) [] h = refl
drop_all (suc n) (x ∷ xs) h = drop_all n xs (omega (arith, h))

slice_between {ℓ} :
    {A : Type ℓ} (xs : List A) (s e : ℕ) → slice xs s e ≡ take (e + 1 - s) (drop s xs)
slice_between xs s e = elim (Bool-cases (ltb e s)) [
  | inl b ↦
      let nothing : e + 1 - s ≡ 0 = ground arith in
      rw b (sym (ap (λ k. take k (drop s xs)) nothing))
  | inr b ↦ elim (Bool-cases (leb (length xs) s)) [
    | inl c ↦
        rw (b, c)
          (sym (ap (take (e + 1 - s)) (drop_all s xs (ground arith)) ∙ take_none (e + 1 - s)))
    | inr c ↦
        rw (b, c)
          (take_same (min e (length xs - 1) + 1 - s) (e + 1 - s) (drop s xs)
            (ends (ground arith) (length-drop s xs)))
  ]
]
  where
    ends :
        s < length xs
        → length (drop s xs) ≡ length xs - s
        → ((min e (length xs - 1) + 1 - s ≡ e + 1 - s)
            ⊎ (length (drop s xs) ≤ min e (length xs - 1) + 1 - s × length (drop s xs) ≤ e + 1 - s))
    ends c d = elim (Bool-cases (ltb e (length xs))) [
      | inl f ↦ inl (ground arith)
      | inr f ↦ inr (ground arith)
    ]

redis_range_between {ℓ} :
    {A : Type ℓ} (xs : List A) (s e : ℕ)
    → redis_range xs (pos s) (pos e) ≡ take (e + 1 - s) (drop s xs)
unfolding redis_range
redis_range_between [] s e =
    sym (ap (take (e + 1 - s)) (drop_all s [] (omega arith)) ∙ take_none (e + 1 - s))
redis_range_between (x ∷ xs) s e = slice_between (x ∷ xs) s e

-- An end before the first item is taken for the first item: the range from 0 to such an end is not
-- empty, as it would be for Redis, but holds the first item.
pub redis_range_before_first {ℓ} :
    {A : Type ℓ} (x : A) (xs : List A) (n : ℕ)
    → length (x ∷ xs) ≤ n
    → redis_range (x ∷ xs) (pos 0) (negsuc n) ≡ x ∷ []
unfolding redis_range
redis_range_before_first x xs n h = slice_first x xs (length (x ∷ xs) - (n + 1)) (omega (arith, h))

-- For any log and any two indices from the front, the ascending page holds the entries from the one
-- to the other as far as there are any, and the number of all.
pub log_page_between :
    (logs : List JobLogEntry) (s e : ℕ)
    → log_page logs (pos s) (pos e) true ≡ (take (e + 1 - s) (drop s logs), length logs)
unfolding log_page
log_page_between logs s e = ap (λ r. (r, length logs)) (redis_range_between logs s e)
