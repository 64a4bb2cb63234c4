-- ===== src/Time.antt =====
-- The time macros of include/enet/time.h, on enet_uint32 milliseconds that wrap.
pub mod Order
use enet_revamp.Base.{ℕ, Bool, not, leb, if◌then◌else◌, sub32}

-- ENET_TIME_OVERFLOW: one day.
abbrev pub overflow : ℕ
overflow = 86400000

unfoldable pub time_less : ℕ → ℕ → Bool
time_less a b = leb overflow (sub32 a b)

unfoldable pub time_greater : ℕ → ℕ → Bool
time_greater a b = leb overflow (sub32 b a)

unfoldable pub time_less_equal : ℕ → ℕ → Bool
unfolding time_greater
time_less_equal a b = not (time_greater a b)

unfoldable pub time_greater_equal : ℕ → ℕ → Bool
unfolding time_less
time_greater_equal a b = not (time_less a b)

unfoldable pub time_difference : ℕ → ℕ → ℕ
time_difference a b = if leb overflow (sub32 a b) then sub32 b a else sub32 a b
