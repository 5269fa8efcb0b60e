-- ===== src/Util.antt =====
-- include/tiny_util.h and util/tiny_util.cxx: the clock. Its reading is a number of nanoseconds since
-- the start of the steady clock, which never goes back.
use tiny_network_repository.Prelude.{ℕ, ◌/◌, ◌≡◌, arith}

-- `duration_cast<microseconds>`
unfoldable pub time_micro : ℕ → ℕ
time_micro nanos = nanos / 1000

unfoldable pub time_milli : ℕ → ℕ
unfolding time_micro
time_milli nanos = time_micro nanos / 1000

-- The milliseconds are the whole ones of the reading.
pub time_milli_lem : (nanos : ℕ) → time_milli nanos ≡ nanos / 1000000
unfolding time_milli time_micro
time_milli_lem nanos = omega arith
