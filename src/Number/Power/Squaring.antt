-- ===== src/Number/Power/Squaring.antt =====
-- Squaring computes the power, modulo 2 ^ 32.
use native.Mathlib.Nat.{pow-suc}
use stunt.Prelude.{
  ℕ, zero, suc, ◌+◌, ◌*◌, ◌/◌, ◌%◌, ◌^◌, ◌≤◌, ◌<◌, ◌≡◌, refl, sym, ap, ◌∙◌, true, false, some,
  arith, ◌==◌, Bool-cases, inl, inr,
}
use stunt.Prelude.Int.{ℤ, pos, pos_part, neg_part, ◌*ℤ◌, eq_of_parts}
use stunt.Int32.{wrap32, IsInt32}
use stunt.Int32.Congruence.{
  Cong, Cong-refl, Cong-trans, Cong-wrap32, Cong-*, *ℤ_parts, wrap32-Cong, wrap32_fits,
  wrap32-IsInt32,
}
use stunt.Value.{int, Floats}
use stunt.Number.Power.{power_loop, Pow, int_power, do_power}

-- The integer power, by repeated multiplication.
pub power : ℤ → ℕ → ℤ
power a zero = pos 1
power a (suc n) = a *ℤ power a n

*ℤ_comm : (a b : ℤ) → a *ℤ b ≡ b *ℤ a
*ℤ_comm a b = eq_of_parts _ _ (omega (arith, *ℤ_parts a b, *ℤ_parts b a))

*ℤ_assoc : (a b c : ℤ) → a *ℤ b *ℤ c ≡ a *ℤ (b *ℤ c)
*ℤ_assoc a b c = eq_of_parts _ _ (
    omega (
      arith,
      *ℤ_parts (a *ℤ b) c,
      *ℤ_parts a (b *ℤ c),
      ap (λ (t : ℕ). t * pos_part c) (*ℤ_parts a b),
      ap (λ (t : ℕ). t * neg_part c) (*ℤ_parts a b),
      ap (λ (t : ℕ). t * pos_part a) (*ℤ_parts b c),
      ap (λ (t : ℕ). t * neg_part a) (*ℤ_parts b c),
    ))

*ℤ_one : (a : ℤ) → a *ℤ pos 1 ≡ a
*ℤ_one a = eq_of_parts _ _ (omega (arith, *ℤ_parts a (pos 1)))

*ℤ_swap : (a b c : ℤ) → a *ℤ (b *ℤ c) ≡ b *ℤ (a *ℤ c)
*ℤ_swap a b c = sym (*ℤ_assoc a b c) ∙ ap (λ t. t *ℤ c) (*ℤ_comm a b) ∙ *ℤ_assoc b a c

power-square : (a : ℤ) (n m : ℕ) → m ≡ n + n → power a m ≡ power (a *ℤ a) n
unfolding power
power-square a zero zero e = refl
power-square a zero (suc m) e = absurd (omega arith)
power-square a (suc n) zero e = absurd (omega arith)
power-square a (suc n) (suc zero) e = absurd (omega arith)
power-square a (suc n) (suc (suc m)) e =
    rw (power-square a n m (omega arith)) (sym (*ℤ_assoc a a (power (a *ℤ a) n)))

power-odd : (a : ℤ) (n m : ℕ) → m ≡ suc (n + n) → power a m ≡ a *ℤ power (a *ℤ a) n
unfolding power
power-odd a n zero e = absurd (omega arith)
power-odd a n (suc m) e = rw (power-square a n m (omega arith)) refl

Cong-*2 : {a b c d : ℤ} → Cong a b → Cong c d → Cong (a *ℤ c) (b *ℤ d)
Cong-*2 {a} {b} {c} {d} p q =
    Cong-trans (Cong-* a b c p) (rw (*ℤ_comm b c, *ℤ_comm b d) (Cong-* c d b q))

Cong-power : {a b : ℤ} (n : ℕ) → Cong a b → Cong (power a n) (power b n)
unfolding power
Cong-power zero p = Cong-refl (pos 1)
Cong-power (suc n) p = Cong-*2 p (Cong-power n p)

-- One round keeps r * a ^ b modulo 2 ^ 32.
module _ (a r : ℤ) (b : ℕ) where
  round_even : (b % 2 == 0) ≡ true → Cong (r *ℤ power (wrap32 (a *ℤ a)) (b / 2)) (r *ℤ power a b)
  round_even even =
      rw (power-square a (b / 2) b (ground arith))
        (Cong-*2 (Cong-refl r) (Cong-power (b / 2) (wrap32-Cong (a *ℤ a))))

  odd_power : (b % 2 == 0) ≡ false → power a b ≡ a *ℤ power (a *ℤ a) (b / 2)
  odd_power odd = power-odd a (b / 2) b (ground arith)

  round_odd :
      (b % 2 == 0) ≡ false
      → Cong (wrap32 (r *ℤ a) *ℤ power (wrap32 (a *ℤ a)) (b / 2)) (r *ℤ power a b)
  round_odd odd =
      rw (odd_power odd, ← *ℤ_assoc r a (power (a *ℤ a) (b / 2)))
        (Cong-*2 (wrap32-Cong (r *ℤ a)) (Cong-power (b / 2) (wrap32-Cong (a *ℤ a))))

below_one : (b : ℕ) → b < 2 ^ 0 → (b == 0) ≡ true
below_one b h = ground arith

halved : (fuel b : ℕ) → b < 2 ^ suc fuel → b / 2 < 2 ^ fuel
halved fuel b h = omega (arith, pow-suc 2 fuel)

power_zero : (a r : ℤ) (b : ℕ) → IsInt32 r → (b == 0) ≡ true → wrap32 (r *ℤ power a b) ≡ r
unfolding power
power_zero a r zero k h = rw (*ℤ_one r) (wrap32_fits r k)
power_zero a r (suc b) k h = absurd (ground arith)

power_loop-power :
    (fuel : ℕ) (a : ℤ) (b : ℕ) (r : ℤ)
    → b < 2 ^ fuel
    → IsInt32 r
    → power_loop (suc fuel) a b r ≡ some (wrap32 (r *ℤ power a b))
unfolding power_loop
power_loop-power zero a b r h k =
    rw (below_one b h) (ap some (sym (power_zero a r b k (below_one b h))))
power_loop-power (suc fuel) a b r h k = elim (Bool-cases (b == 0)) [
  | inl z ↦ rw z (ap some (sym (power_zero a r b k z)))
  | inr nz ↦ elim (Bool-cases (b % 2 == 0)) [
    | inl even ↦
        rw (nz, even)
          (power_loop-power fuel (wrap32 (a *ℤ a)) (b / 2) r (halved fuel b h) k
            ∙ ap some (Cong-wrap32 _ _ (round_even a r b even)))
    | inr odd ↦
        rw (nz, odd)
          (power_loop-power fuel (wrap32 (a *ℤ a)) (b / 2) (wrap32 (r *ℤ a)) (halved fuel b h)
              (wrap32-IsInt32 (r *ℤ a))
            ∙ ap some (Cong-wrap32 _ _ (round_odd a r b odd)))
  ]
]

-- For an exponent from 0 to 2147483647, do_power is the integer power, wrapped to 32 bits.
pub do_power-power :
    (f : Floats) (p : Pow) (a : ℤ) (b : ℕ)
    → b ≤ 2147483647
    → do_power f p (int a) (int (pos b)) ≡ int (wrap32 (power a b))
unfolding do_power int_power
do_power-power f p a b h =
    rw
      (
        power_loop-power 31 a b (pos 1) (omega arith)
            (record { above = omega arith; below = omega arith }),
        do_power,
        int_power,
      )
      (ap (λ t. int (wrap32 t)) (*ℤ_comm (pos 1) (power a b) ∙ *ℤ_one (power a b)))
