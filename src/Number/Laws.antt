-- ===== src/Number/Laws.antt =====
-- What the integer operations compute.
use native.Mathlib.Nat.{div-add-mod, div-le_self, div-le_of_le-mul, le_trans, mod-le, mod-lt}
use stunt.Prelude.{
  ℕ, zero, suc, ◌+◌, ◌*◌, ◌/◌, ◌%◌, ◌≤◌, ◌<◌, ◌≡◌, ◌≢◌, refl, ap, arith, true, false, ◌&&◌, &&-true,
  Bool-cases, inl, inr,
}
use stunt.Prelude.Int.{
  ℤ, pos, negsuc, neg_part, pos_part, sub_ℕ, ◌+ℤ◌, ◌-ℤ◌, ◌*ℤ◌, eqb_ℤ, eqb_ℤ_iff, eq_of_parts,
  +ℤ_parts, +ℤ_cancel,
}
use stunt.Int32.{wrap32, minint, IsInt32}
use stunt.Int32.Congruence.{
  Cong, Cong-eq, Cong-trans, Cong-minus, wrap32-Cong, *ℤ_parts, wrap32_fits, wrap32-IsInt32,
}
use stunt.Value.{Var, int, Floats}
use stunt.Number.{quotient, remainder, do_divide, do_modulus, do_add, do_subtract, do_multiply}

sub_ℕ_zero : (n : ℕ) → (pos_part (sub_ℕ 0 n) ≡ 0) × (neg_part (sub_ℕ 0 n) ≡ n)
sub_ℕ_zero n = (ground arith, ground arith)

quotient-remainder : (a b : ℤ) → quotient a b *ℤ b +ℤ remainder a b ≡ a
unfolding quotient remainder
quotient-remainder (pos a) (pos b) = eq_of_parts _ _ (
    omega (
      arith,
      *ℤ_parts (pos (a / b)) (pos b),
      +ℤ_parts (pos (a / b) *ℤ pos b) (pos (a % b)),
      div-add-mod a b,
    ))
quotient-remainder (pos a) (negsuc b) =
    let z = sub_ℕ_zero (a / suc b) in
    let p = *ℤ_parts (sub_ℕ 0 (a / suc b)) (negsuc b) in
    eq_of_parts _ _ (
      omega (
        arith,
        rw (z.0, z.1) at p,
        +ℤ_parts (sub_ℕ 0 (a / suc b) *ℤ negsuc b) (pos (a % suc b)),
        div-add-mod a (suc b),
      ))
quotient-remainder (negsuc a) (pos b) =
    let z = sub_ℕ_zero (suc a / b) in
    let p = *ℤ_parts (sub_ℕ 0 (suc a / b)) (pos b) in
    eq_of_parts _ _ (
      omega (
        arith,
        sub_ℕ_zero (suc a % b),
        rw (z.0, z.1) at p,
        +ℤ_parts (sub_ℕ 0 (suc a / b) *ℤ pos b) (sub_ℕ 0 (suc a % b)),
        div-add-mod (suc a) b,
      ))
quotient-remainder (negsuc a) (negsuc b) =
    let z = sub_ℕ_zero (suc a % suc b) in
    eq_of_parts _ _ (
      omega (
        arith,
        z,
        *ℤ_parts (pos (suc a / suc b)) (negsuc b),
        +ℤ_parts (pos (suc a / suc b) *ℤ negsuc b) (sub_ℕ 0 (suc a % suc b)),
        div-add-mod (suc a) (suc b),
      ))

halved : (a b : ℕ) → suc a ≤ 2147483648 → suc a ≤ suc (suc b) * 1073741824
halved a b h = omega arith

-- Only MININT / -1 leaves the 32 bits.
quotient-IsInt32 :
    (a b : ℤ)
    → IsInt32 a
    → IsInt32 b
    → (eqb_ℤ a minint && eqb_ℤ b (negsuc 0)) ≡ false
    → IsInt32 (quotient a b)
unfolding quotient
quotient-IsInt32 (pos a) (pos b) h k t = record {
  above = omega arith;
  below = omega (arith, div-le_self a b, h.below);
}
quotient-IsInt32 (pos a) (negsuc b) h k t =
    let z = sub_ℕ_zero (a / suc b) in
    record { above = omega (arith, z, div-le_self a (suc b), h.below); below = omega (arith, z) }
quotient-IsInt32 (negsuc a) (pos b) h k t =
    let z = sub_ℕ_zero (suc a / b) in
    record { above = omega (arith, z, div-le_self (suc a) b, h.above); below = omega (arith, z) }
quotient-IsInt32 (negsuc a) (negsuc zero) h k t = record {
  above = omega arith;
  below = ground arith;
}
quotient-IsInt32 (negsuc a) (negsuc (suc b)) h k t = record {
  above = omega arith;
  below = le_trans (div-le_of_le-mul (suc (suc b)) (halved a b h.above)) (omega arith);
}

remainder-IsInt32 : (a b : ℤ) → IsInt32 a → IsInt32 (remainder a b)
unfolding remainder
remainder-IsInt32 (pos a) (pos b) h = record {
  above = omega arith;
  below = omega (arith, mod-le a b, h.below);
}
remainder-IsInt32 (pos a) (negsuc b) h = record {
  above = omega arith;
  below = omega (arith, mod-le a (suc b), h.below);
}
remainder-IsInt32 (negsuc a) (pos b) h =
    let z = sub_ℕ_zero (suc a % b) in
    record { above = omega (arith, z, mod-le (suc a) b, h.above); below = omega (arith, z) }
remainder-IsInt32 (negsuc a) (negsuc b) h =
    let z = sub_ℕ_zero (suc a % suc b) in
    record { above = omega (arith, z, mod-le (suc a) (suc b), h.above); below = omega (arith, z) }

abbrev pub abs : ℤ → ℕ
abs a = pos_part a + neg_part a

abs_pos : (b : ℤ) → b ≢ pos 0 → 0 < abs b
abs_pos b h = ground arith

remainder-lt : (a b : ℤ) → b ≢ pos 0 → abs (remainder a b) < abs b
unfolding remainder
remainder-lt (pos a) (pos b) h = let p = abs_pos (pos b) h in omega (arith, mod-lt a p)
remainder-lt (pos a) (negsuc b) h = omega arith
remainder-lt (negsuc a) (pos b) h =
    let p = abs_pos (pos b) h in omega (arith, sub_ℕ_zero (suc a % b), mod-lt (suc a) p)
remainder-lt (negsuc a) (negsuc b) h = omega (arith, sub_ℕ_zero (suc a % suc b))

overflow :
    (a b : ℤ) → (eqb_ℤ a minint && eqb_ℤ b (negsuc 0)) ≡ true → wrap32 (minint *ℤ b +ℤ pos 0) ≡ a
overflow a b h =
    let e = &&-true _ _ h in
    rw ((eqb_ℤ_iff a minint).0 e.0, (eqb_ℤ_iff b (negsuc 0)).0 e.1)
      (unfold wrap32 ◌*ℤ◌ ◌+ℤ◌ in refl)

-- For 32-bit integers and a divisor other than 0: do_divide and do_modulus answer with integers, the quotient and the remainder are 32-bit integers, the
-- remainder is smaller than the divisor, and together they give the dividend back, once wrapped.
pub do_divide-do_modulus :
    (f : Floats) (a b : ℤ)
    → IsInt32 a
    → IsInt32 b
    → b ≢ pos 0
    → (q : ℤ) × (r : ℤ) × (do_divide f (int a) (int b) ≡ int q)
      × (do_modulus f (int a) (int b) ≡ int r)
      × IsInt32 q
      × IsInt32 r
      × (abs r < abs b)
      × (wrap32 (q *ℤ b +ℤ r) ≡ a)
unfolding do_divide do_modulus
do_divide-do_modulus f a b h k nz = elim (Bool-cases (eqb_ℤ b (pos 0))) [
  | inl z ↦ absurd (nz ((eqb_ℤ_iff b (pos 0)).0 z))
  | inr n ↦ elim (Bool-cases (eqb_ℤ a minint && eqb_ℤ b (negsuc 0))) [
    | inl over ↦ (
      minint,
      pos 0,
      rw (n, over),
      rw (n, over),
      record { above = omega arith; below = omega arith },
      record { above = omega arith; below = omega arith },
      abs_pos b nz,
      overflow a b over,
    )
    | inr fits ↦ (
      quotient a b,
      remainder a b,
      rw (n, fits),
      rw (n, fits),
      quotient-IsInt32 a b h k fits,
      remainder-IsInt32 a b h,
      remainder-lt a b nz,
      rw (quotient-remainder a b) (wrap32_fits a h),
    )
  ]
]

-- The result is a 32-bit integer that differs from the exact one by a multiple of 2 ^ 32.
abbrev pub Wrapped : Var → ℤ → Type 0
Wrapped v exact = (r : ℤ) × (v ≡ int r) × IsInt32 r × Cong r exact

wrap32-Wrapped : (a : ℤ) → Wrapped (int (wrap32 a)) a
wrap32-Wrapped a = (wrap32 a, refl, wrap32-IsInt32 a, wrap32-Cong a)

-- The sum, the difference and the product of two integers are 32-bit integers that differ from the
-- exact ones by a multiple of 2 ^ 32, and the sum less b is a again if a is a 32-bit integer, also
-- where the sum wraps.
pub do_subtract-do_add :
    (f : Floats) (a b : ℤ)
    → IsInt32 a
    → Wrapped (do_add f (int a) (int b)) (a +ℤ b)
      × Wrapped (do_subtract f (int a) (int b)) (a -ℤ b)
      × Wrapped (do_multiply f (int a) (int b)) (a *ℤ b)
      × (do_subtract f (do_add f (int a) (int b)) (int b) ≡ int a)
unfolding do_add do_subtract do_multiply
do_subtract-do_add f a b h = (
  wrap32-Wrapped (a +ℤ b),
  wrap32-Wrapped (a -ℤ b),
  wrap32-Wrapped (a *ℤ b),
  ap int (
      Cong-eq _ a (wrap32-IsInt32 _) h (
        Cong-trans (wrap32-Cong _) (
          rw (+ℤ_cancel a b) at (Cong-minus (wrap32 (a +ℤ b)) (a +ℤ b) b (wrap32-Cong (a +ℤ b)))))),
)
