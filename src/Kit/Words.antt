-- ===== src/Kit/Words.antt =====
-- Machine words as native numbers: a w-bit word is its bit pattern, below 2 ^ w.
use Prim.Native.Nat.{ℕ, ◌+◌, ◌-◌, ◌*◌, ◌/◌, ◌%◌, ◌^◌}
use zltool_kit.Kit.Tests.{leb, if◌then◌else◌}
use mathlib.Core.Bool.{Bool}

abbrev pub u8 : ℕ → ℕ
u8 a = a % 2 ^ 8

abbrev pub u16 : ℕ → ℕ
u16 a = a % 2 ^ 16

abbrev pub u32 : ℕ → ℕ
u32 a = a % 2 ^ 32

abbrev pub u64 : ℕ → ℕ
u64 a = a % 2 ^ 64

abbrev pub add32 : ℕ → ℕ → ℕ
add32 a b = (a + b) % 2 ^ 32

abbrev pub sub32 : ℕ → ℕ → ℕ
sub32 a b = (a + (2 ^ 32 - b)) % 2 ^ 32

abbrev pub mul32 : ℕ → ℕ → ℕ
mul32 a b = (a * b) % 2 ^ 32

abbrev pub sub64 : ℕ → ℕ → ℕ
sub64 a b = (a + (2 ^ 64 - b)) % 2 ^ 64

-- The sign of an int32_t whose pattern is `w`.
abbrev pub is_neg32 : ℕ → Bool
is_neg32 w = leb (2 ^ 31) w

-- `int32_t` divided by a positive constant; the quotient is cut towards zero.
abbrev pub sdiv32 : ℕ → ℕ → ℕ
sdiv32 w d = if is_neg32 w then (2 ^ 32 - (2 ^ 32 - w) / d) % 2 ^ 32 else w / d

-- `abs` on an int32_t.
abbrev pub abs32 : ℕ → ℕ
abs32 w = if is_neg32 w then (2 ^ 32 - w) % 2 ^ 32 else w

-- An int32_t as a 64-bit `long`.
abbrev pub sext64 : ℕ → ℕ
sext64 w = if is_neg32 w then w + (2 ^ 64 - 2 ^ 32) else w

-- A `long` divided by a positive constant.
abbrev pub sdiv64 : ℕ → ℕ → ℕ
sdiv64 w d = if leb (2 ^ 63) w then (2 ^ 64 - (2 ^ 64 - w) / d) % 2 ^ 64 else w / d
