-- ===== src/Base/Words.antt =====
-- Machine words as native numbers. The C types are enet_uint8, enet_uint16, enet_uint32
-- (include/enet/types.h) and size_t, taken to have 64 bits.
use Prim.Native.Nat.{ℕ, ◌+◌, ◌-◌, ◌*◌, ◌/◌, ◌%◌, ◌^◌}
use mathlib.Core.Bool.{Bool}
use enet_revamp.Base.Tests.{◌==◌, ltb, if◌then◌else◌}

abbrev pub u8 : ℕ → ℕ
u8 x = x % 256

abbrev pub u16 : ℕ → ℕ
u16 x = x % 65536

abbrev pub u32 : ℕ → ℕ
u32 x = x % 4294967296

abbrev pub u64 : ℕ → ℕ
u64 x = x % 18446744073709551616

-- a - b on enet_uint16, enet_uint32 and size_t.
abbrev pub sub16 : ℕ → ℕ → ℕ
sub16 a b = (a + 65536 - b) % 65536

abbrev pub sub32 : ℕ → ℕ → ℕ
sub32 a b = (a + 4294967296 - b) % 4294967296

abbrev pub sub64 : ℕ → ℕ → ℕ
sub64 a b = (a + 18446744073709551616 - b) % 18446744073709551616

-- ENET_HOST_TO_NET_32 on a machine that stores the lowest byte of a number first: the four bytes
-- change their order.
abbrev pub host_to_net_32 : ℕ → ℕ
host_to_net_32 x =
    x % 256 * 16777216 + x / 256 % 256 * 65536 + x / 65536 % 256 * 256 + x / 16777216 % 256

-- `x & (1 << k) != 0`, `x |= 1 << k` and `x &= ~(1 << k)`.
unfoldable pub bit : ℕ → ℕ → Bool
bit k x = x / 2 ^ k % 2 == 1

unfoldable pub set_bit : ℕ → ℕ → ℕ
unfolding bit
set_bit k x = if bit k x then x else x + 2 ^ k

unfoldable pub clear_bit : ℕ → ℕ → ℕ
unfolding bit
clear_bit k x = if bit k x then x - 2 ^ k else x

-- ENET_MAX, ENET_MIN and ENET_DIFFERENCE of include/enet/utility.h.
abbrev pub enet_max : ℕ → ℕ → ℕ
enet_max x y = if ltb y x then x else y

abbrev pub enet_min : ℕ → ℕ → ℕ
enet_min x y = if ltb x y then x else y

abbrev pub enet_difference : ℕ → ℕ → ℕ
enet_difference x y = if ltb x y then sub32 y x else sub32 x y
