-- ===== src/Float.antt =====
-- `f64`, as the program uses it: a parameter of the modules that compute with floats.
pub mod Whole
use lane.Prelude.{ℕ, ◌*◌, ◌^◌, ◌≤◌, ◌<◌, ◌≡◌, min, Bool}

abbrev pub u64_max : ℕ
u64_max = 18446744073709551615

-- The laws are those of IEEE 754 and of Rust's casts: whole numbers below 2^53 are exact, powers of
-- one are one, a product with a power of two is exact up to overflow, and `as u64` saturates.
-- `powi` takes the bits of its `i32`; durations are nanoseconds.
pub record Float : Type 1 where
  pub F : Type 0
  pub of_ℕ : ℕ → F
  pub times : F → F → F
  pub divide : F → F → F
  pub powi : F → ℕ → F
  pub as_secs_f64 : ℕ → F
  pub is_positive : F → Bool
  pub to_u64 : F → ℕ
  pub powi_one : (n k : ℕ) → n < 2 ^ 53 → to_u64 (times (of_ℕ n) (powi (of_ℕ 1) k)) ≡ n
  pub powi_two :
      (n k : ℕ)
      → n < 2 ^ 53
      → k < 2 ^ 31
      → to_u64 (times (of_ℕ n) (powi (of_ℕ 2) k)) ≡ min (n * 2 ^ k) u64_max
  pub to_u64-le : (x : F) → to_u64 x ≤ u64_max
