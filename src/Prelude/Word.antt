-- ===== src/Prelude/Word.antt =====
-- The `uint` and `int` of the C sources: both are 32-bit patterns, numbers below 2 ^ 32. Where the
-- source compares an `int` as signed, the model tests the sign bit.
use Prim.Native.Nat.{ℕ, ◌+◌, ◌-◌, ◌%◌, ◌^◌, bit_and}
use mathlib.Core.Bool.{Bool, not, ◌||◌}
use cs537_project.Prelude.Tests.{leb, ◌==◌}

abbrev pub word : ℕ
word = 2 ^ 32

abbrev pub add32 : ℕ → ℕ → ℕ
add32 a b = (a + b) % 2 ^ 32

-- `-` on ℕ stops at 0, so the modulus is added first.
abbrev pub sub32 : ℕ → ℕ → ℕ
sub32 a b = (a + 2 ^ 32 - b) % 2 ^ 32

-- The sign of an `int`.
abbrev pub is_neg : ℕ → Bool
is_neg x = leb (2 ^ 31) x

-- `x <= 0` of an `int`.
abbrev pub le_zero : ℕ → Bool
le_zero x = is_neg x || (x == 0)

-- `flags & mask` read as a condition. (The test is on the number that the bit operation gives.)
abbrev pub has_flag : ℕ → ℕ → Bool
has_flag flags mask = not (bit_and flags mask == 0)

-- `return -1`, `FAILED` of wmap.h: the pattern of -1.
abbrev pub failed : ℕ
failed = 2 ^ 32 - 1
