-- ===== src/RateLimit/Bucket.antt =====
-- The token bucket hands out at most the tokens that it held and those that time has earned.
use lane.Prelude.{
  ◌⊎◌, inl, inr, ℕ, ◌+◌, ◌-◌, ◌≤◌, ◌<◌, ◌≡◌, true, List, [], ◌∷◌, if◌then◌else◌, arith, Bool-cases,
  ◌∙◌, ltb, subst,
}
use lane.Float.{Float, u64_max}
use lane.RateLimit.{TokenBucketLimiter, refill, try_bucket, new_tokens}

module _ (float : Float) where
  -- The tokens that the refill at `now` adds, at most.
  unfoldable pub earned : ℕ → TokenBucketLimiter float.F → ℕ
  earned now l = new_tokens float l (now - l.last_refill)

  abbrev pub Within : TokenBucketLimiter float.F → Type 0
  Within l = l.tokens ≤ l.capacity

  refill-le :
      (now : ℕ) (l : TokenBucketLimiter float.F)
      → (refill float now l).tokens ≤ l.tokens + earned now l
  unfolding refill earned
  refill-le now l = ground arith

  -- Grants of a run of calls at the given instants.
  unfoldable pub grants : List ℕ → TokenBucketLimiter float.F → ℕ
  grants [] l = 0
  grants (now ∷ rest) l =
      let (granted, l') = try_bucket float now l in (if granted then 1 else 0) + grants rest l'

  -- The instants do not run backwards, from `start` to `end`.
  abbrev pub Clock : ℕ → List ℕ → ℕ → Type 0
  Clock start [] end = start ≤ end
  Clock start (now ∷ rest) end = (start ≤ now) × Clock now rest end

  abbrev pub total : List ℕ → ℕ
  total [] = 0
  total (d ∷ ds) = d + total ds

  -- The tokens that each of some periods earns at the rate `rate`.
  abbrev pub worth : float.F → List ℕ → ℕ
  worth rate [] = 0
  worth rate (d ∷ ds) = float.to_u64 (float.times (float.as_secs_f64 d) rate) + worth rate ds

  -- Periods that add up to at most `span` and pay for `n` grants beyond `held`.
  abbrev pub Paid : float.F → ℕ → ℕ → ℕ → Type 0
  Paid rate held span n =
      (periods : List ℕ) × (total periods ≤ span) × (n ≤ held + worth rate periods)

  -- A call takes one token from the refilled bucket and succeeds, or the bucket is empty after the
  -- refill and the call fails; so tokens and grants balance.
  try_bucket-balance :
      (now : ℕ) (l : TokenBucketLimiter float.F)
      → (if (try_bucket float now l).0 then 1 else 0) + (try_bucket float now l).1.tokens
        ≡ (refill float now l).tokens
  unfolding try_bucket
  try_bucket-balance now l = ground arith

  try_bucket-last_refill :
      (now : ℕ) (l : TokenBucketLimiter float.F)
      → (try_bucket float now l).1.last_refill ≡ (refill float now l).last_refill
  unfolding try_bucket
  try_bucket-last_refill now l = ground arith

  try_bucket-rate :
      (now : ℕ) (l : TokenBucketLimiter float.F)
      → (try_bucket float now l).1.refill_rate ≡ l.refill_rate
  unfolding try_bucket refill
  try_bucket-rate now l = ground arith

  -- A refill adds nothing and leaves its instant, or it adds what the time since then has earned
  -- and moves the instant to now.
  refill-cases :
      (now : ℕ) (l : TokenBucketLimiter float.F)
      → (((refill float now l).last_refill ≡ l.last_refill)
          × ((refill float now l).tokens ≤ l.tokens))
        ⊎ (((refill float now l).last_refill ≡ now)
            × ((refill float now l).tokens ≤ l.tokens + earned now l))
  unfolding refill earned new_tokens
  refill-cases now l =
      elim (Bool-cases (float.is_positive (float.as_secs_f64 (now - l.last_refill)))) [
        | inr e ↦ inl (ground (arith, e), ground (arith, e))
        | inl e ↦ elim (Bool-cases (ltb 0 (new_tokens float l (now - l.last_refill)))) [
          | inr z ↦ inl (ground (arith, e, z), ground (arith, e, z))
          | inl z ↦ inr (ground (arith, e, z), ground (arith, e, z))
        ]
      ]

  Clock-le : (start : ℕ) (times : List ℕ) (end : ℕ) → Clock start times end → start ≤ end
  Clock-le start [] end c = c
  Clock-le start (now ∷ rest) end c = omega (arith, c.0, Clock-le now rest end c.1)

  Clock-earlier :
      (first start : ℕ) (times : List ℕ) (end : ℕ)
      → first ≤ start
      → Clock start times end
      → Clock first times end
  Clock-earlier first start [] end h c = omega (arith, h, c)
  Clock-earlier first start (now ∷ rest) end h c = (omega (arith, h, c.0), c.1)

  -- Over any run of calls that follow one another, at instants that do not run backwards and end at
  -- `end`: there are periods, which add up to no more than the time from the last refill before the
  -- run to `end`, such that the grants are at most the tokens that the bucket held and those that
  -- its rate gives for each of the periods. So no time earns twice; also where a sum wraps.
  pub grants-le :
      (times : List ℕ) (end : ℕ) (l : TokenBucketLimiter float.F)
      → Clock l.last_refill times end
      → Paid l.refill_rate l.tokens (end - l.last_refill) (grants times l)
  unfolding grants earned new_tokens
  grants-le [] end l c = ([], omega arith, omega arith)
  grants-le (now ∷ rest) end l c =
      let l' = (try_bucket float now l).1 in
      let balance = try_bucket-balance now l in
      let same = try_bucket-last_refill now l in
      elim (refill-cases now l) [
        | inl (kept, few) ↦
            let first : l'.last_refill ≡ l.last_refill = same ∙ kept in
            let (periods, short, paid) =
              subst (λ rate. Paid rate l'.tokens (end - l'.last_refill) (grants rest l'))
                (try_bucket-rate now l)
                (grants-le rest end l'
                  (Clock-earlier l'.last_refill now rest end (omega (arith, first, c.0)) c.1)) in
            (periods, omega (arith, short, first), omega (arith, paid, balance, few))
        | inr (moved, more) ↦
            let first : l'.last_refill ≡ now = same ∙ moved in
            let (periods, short, paid) =
              subst (λ rate. Paid rate l'.tokens (end - l'.last_refill) (grants rest l'))
                (try_bucket-rate now l)
                (grants-le rest end l'
                  (Clock-earlier l'.last_refill now rest end (omega (arith, first)) c.1)) in
            (
              (now - l.last_refill) ∷ periods,
              omega (arith, short, first, c.0, Clock-le now rest end c.1),
              omega (arith, paid, balance, more),
            )
      ]

  -- No call lets a bucket hold more tokens than its capacity, and none changes the capacity.
  pub try_bucket-Within :
      (now : ℕ) (l : TokenBucketLimiter float.F)
      → Within l
      → Within (try_bucket float now l).1 × ((try_bucket float now l).1.capacity ≡ l.capacity)
  unfolding try_bucket refill
  try_bucket-Within now l w = ground arith

  -- Where the tokens at hand and those earned come to 2^64 or more, a refill leaves fewer tokens
  -- than there were: the sum wraps before it is capped.
  pub refill_wraps :
      (now : ℕ) (l : TokenBucketLimiter float.F)
      → float.is_positive (float.as_secs_f64 (now - l.last_refill)) ≡ true
      → l.tokens ≤ u64_max
      → 18446744073709551616 ≤ l.tokens + earned now l
      → (refill float now l).tokens < l.tokens
  unfolding refill earned
  refill_wraps now l h t o =
      ground (
        arith,
        float.to_u64-le (float.times (float.as_secs_f64 (now - l.last_refill)) l.refill_rate),
      )
