-- ===== src/Number/Power.antt =====
-- numbers.cc: `do_power`. Integer powers are computed by squaring.
pub mod Squaring
use stunt.Prelude.{
  ℕ, zero, suc, ◌*◌, ◌/◌, ◌%◌, Bool, true, false, not, ◌&&◌, ◌||◌, Option, some, ◌==◌,
  if◌then◌else◌,
}
use stunt.Prelude.Int.{ℤ, pos, negsuc, ◌*ℤ◌, eqb_ℤ}
use stunt.Int32.{wrap32}
use stunt.Value.{e_type, e_div, e_float, Var, int, err, float, Floats}

-- `while (b != 0) { if (b % 2 != 0) r *= a; a *= a; b >>= 1; }` on fuel; `none` means that the fuel
-- ran out.
pub power_loop : ℕ → ℤ → ℕ → ℤ → Option ℤ
power_loop zero a b r = Option.none
power_loop (suc fuel) a b r =
    let rest =
      power_loop fuel (wrap32 (a *ℤ a)) (b / 2) (if b % 2 == 0 then r else wrap32 (r *ℤ a)) in
    if b == 0 then some r else rest

-- An exponent below 2 ^ 31 is halved to 0 in 31 rounds; one more ends the loop.
abbrev pub power_fuel : ℕ
power_fuel = 32

-- The C library's `pow`: `none` if it sets `errno`.
pub record Pow : Type 0 where
  pub pow : ℕ → ℕ → Option ℕ
  pub of_int : ℤ → ℕ

module _ (f : Floats) (p : Pow) where
  unfoldable pub int_power : ℤ → ℤ → Var
  int_power a (pos b) = elim (power_loop power_fuel a b (pos 1)) [
    | Option.none ↦ Var.none
    | some r ↦ int r
  ]
  int_power a (negsuc b) =
      if eqb_ℤ a (negsuc 0)
      then int (if suc b % 2 == 0 then pos 1 else negsuc 0)
      else if eqb_ℤ a (pos 0)
      then err e_div
      else if eqb_ℤ a (pos 1)
      then int (pos 1)
      else int (pos 0)

  float_power : ℕ → ℕ → Var
  float_power d e = elim (p.pow d e) [
    | Option.none ↦ err e_float
    | some r ↦ if f.is_real r then float r else err e_float
  ]

  unfoldable pub do_power : Var → Var → Var
  unfolding float_power
  do_power (int a) (int b) = int_power a b
  do_power (float a) (int b) = float_power a (p.of_int b)
  do_power (float a) (float b) = float_power a b
  do_power _ _ = err e_type
