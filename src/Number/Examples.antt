-- ===== src/Number/Examples.antt =====
-- The arithmetic, on numbers.
use stunt.Prelude.{◌<◌, ◌≡◌, ◌≢◌, Option, arith}
use stunt.Prelude.Int.{ℤ, pos, negsuc, ◌+ℤ◌, ◌-ℤ◌, ◌*ℤ◌}
use stunt.Int32.{IsInt32, maxint, wrap32}
use stunt.Value.{int}
use stunt.Value.Sample.{whole_floats}
use stunt.Number.{do_add, do_subtract, do_multiply, do_divide, do_modulus}
use stunt.Number.Power.{Pow, do_power}
use stunt.Number.Power.Squaring.{power, do_power-power}
use stunt.Number.Laws.{abs, Wrapped, do_divide-do_modulus, do_subtract-do_add}

abbrev no_pow : Pow
no_pow = record { pow = λ a b. Option.none; of_int = λ a. 0 }

do_divide-do_modulus_example :
    (q : ℤ) × (r : ℤ) × (do_divide whole_floats (int (negsuc 16)) (int (pos 5)) ≡ int q)
    × (do_modulus whole_floats (int (negsuc 16)) (int (pos 5)) ≡ int r)
    × IsInt32 q
    × IsInt32 r
    × (abs r < abs (pos 5))
    × (wrap32 (q *ℤ pos 5 +ℤ r) ≡ negsuc 16)
do_divide-do_modulus_example =
    do_divide-do_modulus whole_floats (negsuc 16) (pos 5)
      (record { above = omega arith; below = omega arith })
      (record { above = omega arith; below = omega arith }) five
  where
    five : pos 5 ≢ pos 0
    five e = cc

do_subtract-do_add_example :
    Wrapped (do_add whole_floats (int maxint) (int (pos 7))) (maxint +ℤ pos 7)
    × Wrapped (do_subtract whole_floats (int maxint) (int (pos 7))) (maxint -ℤ pos 7)
    × Wrapped (do_multiply whole_floats (int maxint) (int (pos 7))) (maxint *ℤ pos 7)
    × (do_subtract whole_floats (do_add whole_floats (int maxint) (int (pos 7))) (int (pos 7))
        ≡ int maxint)
do_subtract-do_add_example =
    do_subtract-do_add whole_floats maxint (pos 7)
      (record { above = omega arith; below = omega arith })

do_power-power_example :
    do_power whole_floats no_pow (int (negsuc 2)) (int (pos 41))
    ≡ int (wrap32 (power (negsuc 2) 41))
do_power-power_example = do_power-power whole_floats no_pow (negsuc 2) 41 (omega arith)
