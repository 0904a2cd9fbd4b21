-- ===== src/Int32/Congruence.antt =====
-- Wrapping stays within 32 bits, changes nothing there, and keeps an integer modulo 2 ^ 32.
use stunt.Prelude.{ℕ, ◌+◌, ◌-◌, ◌*◌, ◌/◌, ◌%◌, ◌≡◌, ap, arith, ltb, Bool-cases, inl, inr}
use stunt.Prelude.Int.{ℤ, pos, negsuc, pos_part, neg_part, ◌+ℤ◌, ◌-ℤ◌, ◌*ℤ◌, int_laws, eq_of_parts}
use stunt.Int32.{wrap32, IsInt32}

pub wrap32-IsInt32 : (a : ℤ) → IsInt32 (wrap32 a)
unfolding wrap32
wrap32-IsInt32 a = record { above = ground arith; below = ground arith }

pub wrap32_fits : (a : ℤ) → IsInt32 a → wrap32 a ≡ a
unfolding wrap32
wrap32_fits (pos n) h = ground arith
wrap32_fits (negsuc n) h = ground arith

-- a ≡ b modulo 2 ^ 32: a + u * 2 ^ 32 is b + v * 2 ^ 32.
pub record Cong (a b : ℤ) : Type 0 where
  pub up : ℕ
  pub down : ℕ
  pub even_out :
      pos_part a + neg_part b + up * 4294967296 ≡ pos_part b + neg_part a + down * 4294967296

pub Cong-refl : (a : ℤ) → Cong a a
Cong-refl a = record { up = 0; down = 0; even_out = omega arith }

pub Cong-sym : {a b : ℤ} → Cong a b → Cong b a
Cong-sym c = record { up = c.down; down = c.up; even_out = omega arith }

pub Cong-trans : {a b d : ℤ} → Cong a b → Cong b d → Cong a d
Cong-trans c e = record { up = c.up + e.up; down = c.down + e.down; even_out = omega arith }

pub wrap32-Cong : (a : ℤ) → Cong (wrap32 a) a
unfolding wrap32
wrap32-Cong (pos n) = elim (Bool-cases (ltb (n % 4294967296) 2147483648)) [
  | inl low ↦ rw low (record { up = n / 4294967296; down = 0; even_out = omega arith })
  | inr high ↦ rw high (record { up = n / 4294967296 + 1; down = 0; even_out = ground arith })
]
wrap32-Cong (negsuc n) = elim (Bool-cases (ltb (4294967295 - n % 4294967296) 2147483648)) [
  | inl low ↦ rw low (record { up = 0; down = n / 4294967296 + 1; even_out = omega arith })
  | inr high ↦ rw high (record { up = 0; down = n / 4294967296; even_out = ground arith })
]

-- Two congruent integers of 32 bits are one.
pub Cong-eq : (a b : ℤ) → IsInt32 a → IsInt32 b → Cong a b → a ≡ b
Cong-eq a b h k c = eq_of_parts a b (omega arith)

pub Cong-wrap32 : (a b : ℤ) → Cong a b → wrap32 a ≡ wrap32 b
Cong-wrap32 a b c =
    Cong-eq (wrap32 a) (wrap32 b) (wrap32-IsInt32 a) (wrap32-IsInt32 b)
      (Cong-trans (wrap32-Cong a) (Cong-trans c (Cong-sym (wrap32-Cong b))))

pub *ℤ_parts :
    (a b : ℤ)
    → pos_part (a *ℤ b) + pos_part a * neg_part b + neg_part a * pos_part b
      ≡ neg_part (a *ℤ b) + pos_part a * pos_part b + neg_part a * neg_part b
unfolding ◌*ℤ◌
*ℤ_parts a b = ground arith

pub Cong-* : (a b d : ℤ) → Cong a b → Cong (a *ℤ d) (b *ℤ d)
Cong-* a b d c = record {
  up = c.up * pos_part d + c.down * neg_part d;
  down = c.down * pos_part d + c.up * neg_part d;
  even_out = omega (
    arith,
    *ℤ_parts a d,
    *ℤ_parts b d,
    ap (λ (t : ℕ). t * pos_part d) c.even_out,
    ap (λ (t : ℕ). t * neg_part d) c.even_out,
  );
}

pub Cong-+ : (a b d : ℤ) → Cong a b → Cong (a +ℤ d) (b +ℤ d)
Cong-+ a b d c = record { up = c.up; down = c.down; even_out = omega int_laws }

pub Cong-minus : (a b d : ℤ) → Cong a b → Cong (a -ℤ d) (b -ℤ d)
Cong-minus a b d c = record { up = c.up; down = c.down; even_out = omega int_laws }
