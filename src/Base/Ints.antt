-- ===== src/Base/Ints.antt =====
-- Go's `int` and `uint32` as bit patterns in native numbers: an `int` is a number below 2 ^ 64 and
-- stands for a negative value from 2 ^ 63 on. Sums and differences wrap.
use Prim.Native.Nat.{ℕ, ◌+◌, ◌-◌, ◌%◌, ◌^◌}
use mathlib.Core.Bool.{Bool}
use go_data_structures.Base.Tests.{ltb, leb}

abbrev pub add_int : ℕ → ℕ → ℕ
add_int a b = (a + b) % 2 ^ 64

abbrev pub sub_int : ℕ → ℕ → ℕ
sub_int a b = (a + 2 ^ 64 - b) % 2 ^ 64

-- `a < 0`
abbrev pub is_negative : ℕ → Bool
is_negative a = leb (2 ^ 63) a

-- `a < b`: the order of the signed values.
abbrev pub lt_int : ℕ → ℕ → Bool
lt_int a b = ltb ((a + 2 ^ 63) % 2 ^ 64) ((b + 2 ^ 63) % 2 ^ 64)

abbrev pub add_u32 : ℕ → ℕ → ℕ
add_u32 a b = (a + b) % 2 ^ 32

abbrev pub sub_u32 : ℕ → ℕ → ℕ
sub_u32 a b = (a + 2 ^ 32 - b) % 2 ^ 32
