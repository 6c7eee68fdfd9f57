-- ===== src/Float/Whole.antt =====
-- Whole numbers without rounding or overflow meet the laws of `Float`.
use native.Mathlib.Nat.{mul-one, pow-suc}
use lane.Prelude.{ℕ, zero, suc, ◌*◌, ◌/◌, ◌^◌, ◌≤◌, ◌<◌, ◌≡◌, refl, min, arith, ltb}
use lane.Float.{Float, u64_max}

one_pow : (k : ℕ) → 1 ^ k ≡ 1
one_pow zero = omega arith
one_pow (suc k) = omega (arith, pow-suc 1 k, one_pow k)

pub whole_one : (n k : ℕ) → n < 2 ^ 53 → min (n * 1 ^ k) u64_max ≡ n
whole_one n k h = rw (one_pow k, mul-one n) (omega arith)

pub whole-le : (x : ℕ) → min x u64_max ≤ u64_max
whole-le x = omega arith

abbrev pub whole : Float
whole = record {
  F = ℕ;
  of_ℕ = λ n. n;
  times = λ a b. a * b;
  divide = λ a b. a / b;
  powi = λ a k. a ^ k;
  as_secs_f64 = λ d. d / 1000000000;
  is_positive = λ x. ltb 0 x;
  to_u64 = λ x. min x u64_max;
  powi_one = whole_one;
  powi_two = λ n k h hk. refl;
  to_u64-le = whole-le;
}
