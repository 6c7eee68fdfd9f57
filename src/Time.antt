-- ===== src/Time.antt =====
-- `std::time::Duration`, in nanoseconds, and the arithmetic on numbers that the modules share.
use lane.Prelude.{ℕ, ◌*◌, ◌/◌}

abbrev pub from_millis : ℕ → ℕ
from_millis ms = ms * 1000000

abbrev pub from_secs : ℕ → ℕ
from_secs s = s * 1000000000

abbrev pub as_millis : ℕ → ℕ
as_millis d = d / 1000000
