-- ===== src/Base/Words.antt =====
-- 32-bit words (uint32, and int as its bit pattern) with their wrap-around.
use Prim.Native.Nat.{ℕ, zero, suc, ◌+◌, ◌-◌, ◌*◌, ◌/◌, ◌%◌, ◌^◌}
use mathlib.Core.Bool.{Bool}
use akaris_old.Base.Tests.{leb, ◌==◌}

abbrev pub u32_mod : ℕ
u32_mod = 2 ^ 32

abbrev pub add32 : ℕ → ℕ → ℕ
add32 a b = (a + b) % u32_mod

abbrev pub sub32 : ℕ → ℕ → ℕ
sub32 a b = (a + (u32_mod - b % u32_mod)) % u32_mod

abbrev pub mul32 : ℕ → ℕ → ℕ
mul32 a b = (a * b) % u32_mod

-- The sign of the `int` with this bit pattern.
abbrev pub is_neg : ℕ → Bool
is_neg a = leb (2 ^ 31) a

-- PAGE_SIZE of config.h.
abbrev pub page_size : ℕ
page_size = 4096

-- A flag that is a power of two is set in a word.
abbrev pub has_flag : (word flag : ℕ) → Bool
has_flag word flag = (word / flag) % 2 == 1

abbrev pub or_bit : ℕ → ℕ → ℕ
or_bit zero b = b
or_bit (suc a) b = 1

-- `a | b` of the lowest bits.
abbrev pub or_bits : (width : ℕ) → ℕ → ℕ → ℕ
or_bits zero a b = 0
or_bits (suc w) a b = or_bit (a % 2) (b % 2) + 2 * or_bits w (a / 2) (b / 2)
