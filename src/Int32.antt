-- ===== src/Int32.antt =====
-- structures.h: `int32`. Arithmetic on an `int` is done on integers and wrapped to 32 bits in two's
-- complement; a signed overflow, which C++ leaves undefined, is read as wrapping.
pub mod Congruence
use stunt.Prelude.{ℕ, ◌+◌, ◌-◌, ◌%◌, ◌^◌, ◌≤◌, ◌<◌, ltb, if◌then◌else◌}
use stunt.Prelude.Int.{ℤ, pos, negsuc, pos_part, neg_part}

-- The pattern of the low 32 bits.
unfoldable pub bits : ℤ → ℕ
bits (pos n) = n % 2 ^ 32
bits (negsuc n) = 2 ^ 32 - 1 - n % 2 ^ 32

-- The integer that a pattern stands for.
unfoldable pub signed32 : ℕ → ℤ
signed32 w = if ltb w (2 ^ 31) then pos w else negsuc (2 ^ 32 - w - 1)

unfoldable pub wrap32 : ℤ → ℤ
unfolding bits signed32
wrap32 a = signed32 (bits a)

abbrev pub maxint : ℤ
maxint = pos 2147483647

abbrev pub minint : ℤ
minint = negsuc 2147483647

-- MININT ≤ a ≤ MAXINT
pub record IsInt32 (a : ℤ) : Type 0 where
  pub above : neg_part a ≤ 2147483648
  pub below : pos_part a ≤ 2147483647
