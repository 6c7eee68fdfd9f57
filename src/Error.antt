-- ===== src/Error.antt =====
-- src/error.rs: `LaneError` and `Result`.
use Prim.Native.String.{String}
use lane.Prelude.{ℕ, Bool, true, false}

pub data LaneError : Type 0 where
  lane_not_found : String → LaneError
  queue_error : String → LaneError
  config_error : String → LaneError
  command_error : String → LaneError
  job_not_found : String → LaneError
  job_state_conflict : String → LaneError
  job_lease_conflict : String → LaneError
  unrecoverable_job : String → LaneError
  timeout : ℕ → LaneError
  shutdown_in_progress : LaneError
  other : String → LaneError

pub data Result {ℓ} (A : Type ℓ) : Type ℓ where
  ok : A → Result A
  err : LaneError → Result A

infixl 5 ◌>>=◌ ◌>>◌
-- The `?` operator, in a do block.
abbrev pub ◌>>=◌ {ℓ κ} : {A : Type ℓ} {B : Type κ} → Result A → (A → Result B) → Result B
err problem >>= k = err problem
ok value >>= k = k value

abbrev pub ◌>>◌ {ℓ} : {B : Type ℓ} → Result (Unit {0}) → Result B → Result B
err problem >> k = err problem
ok done >> k = k

unfoldable pub is_unrecoverable_job : LaneError → Bool
is_unrecoverable_job (unrecoverable_job reason) = true
is_unrecoverable_job _ = false

-- `matches!(err, LaneError::Timeout(_))`
unfoldable pub is_timeout : LaneError → Bool
is_timeout (timeout d) = true
is_timeout _ = false
