-- ===== src/Base/Words.antt =====
-- Unsigned machine words of the target, LP64: `unsigned int` has 32 bits, `unsigned long` and
-- `unsigned long long` have 64. Values are plain numbers, and each operation wraps.
use Prim.Native.Nat.{ℕ, ◌+◌, ◌-◌, ◌/◌, ◌%◌, ◌^◌}
use mathlib.Core.Bool.{Bool}
use nagios_plugins_linux.Base.Tests.{◌==◌}

abbrev pub u32 : ℕ → ℕ
u32 n = n % 2 ^ 32

abbrev pub u64 : ℕ → ℕ
u64 n = n % 2 ^ 64

-- `~0UL`
abbrev pub ulong_max : ℕ
ulong_max = 2 ^ 64 - 1

-- `-` on numbers stops at 0, so the modulus is added first.
abbrev pub sub32 : ℕ → ℕ → ℕ
sub32 a b = (a + 2 ^ 32 - b) % 2 ^ 32

abbrev pub sub64 : ℕ → ℕ → ℕ
sub64 a b = (a + 2 ^ 64 - b) % 2 ^ 64

abbrev pub add64 : ℕ → ℕ → ℕ
add64 a b = u64 (a + b)

-- `flags & flag`, for a flag of one bit
abbrev pub bit_of : ℕ → ℕ → Bool
bit_of flags flag = (flags / flag) % 2 == 1
