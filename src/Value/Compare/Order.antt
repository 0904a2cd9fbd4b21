-- ===== src/Value/Compare/Order.antt =====
-- The sign of a comparison of integers, by whether their difference fits.
use stunt.Prelude.{ℕ, ◌+◌, ◌*◌, ◌≤◌, ◌≡◌, refl, Bool, ◌&&◌, arith, leb, if◌then◌else◌}
use mathlib.Core.Option.{some}
use stunt.Prelude.Int.{ℤ, pos, pos_part, neg_part, ◌-ℤ◌, ltb_ℤ, -ℤ_parts}
use stunt.Text.Case.{Text}
use stunt.Int32.{wrap32, IsInt32}
use stunt.Int32.Congruence.{wrap32-IsInt32, wrap32-Cong}
use stunt.Value.{Floats, int}
use stunt.Value.Compare.{compare}

-- MININT ≤ a ≤ MAXINT, as a test.
abbrev pub fits : ℤ → Bool
fits a = leb (neg_part a) 2147483648 && leb (pos_part a) 2147483647

-- Two integers of 32 bits: the result of `compare` is negative exactly when the first is the smaller
-- one, if their difference fits an int32; if it does not fit, it is negative exactly when the first
-- is the larger one, so the order is turned round.
pub compare-int :
    (f : Floats) (strcmp : Text → Text → ℤ) (shared case_matters : Bool) (a b : ℤ)
    → IsInt32 a
    → IsInt32 b
    → (r : ℤ) × (compare f strcmp shared case_matters (int a) (int b) ≡ some r)
      × (ltb_ℤ r (pos 0) ≡ (if fits (a -ℤ b) then ltb_ℤ a b else ltb_ℤ b a))
unfolding compare
compare-int f strcmp shared case_matters a b h k =
    let c = wrap32-Cong (a -ℤ b) in
    let w = wrap32-IsInt32 (a -ℤ b) in
    (
      wrap32 (a -ℤ b),
      refl,
      sign a b (wrap32 (a -ℤ b)) c.up c.down h.above h.below k.above k.below w.above w.below
          c.even_out,
    )
  where
    sign :
        (a b r : ℤ) (up down : ℕ)
        → neg_part a ≤ 2147483648
        → pos_part a ≤ 2147483647
        → neg_part b ≤ 2147483648
        → pos_part b ≤ 2147483647
        → neg_part r ≤ 2147483648
        → pos_part r ≤ 2147483647
        → pos_part r + neg_part (a -ℤ b) + up * 4294967296
          ≡ pos_part (a -ℤ b) + neg_part r + down * 4294967296
        → ltb_ℤ r (pos 0) ≡ (if fits (a -ℤ b) then ltb_ℤ a b else ltb_ℤ b a)
    sign a b r up down ha hb hc hd he hf e = ground (arith, -ℤ_parts a b)
