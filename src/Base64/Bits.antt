-- ===== src/Base64/Bits.antt =====
-- The bit operations of the encoder and the decoder as arithmetic, by tables.
use Prim.Native.Nat.{bit_or}
use stunt.Prelude.{
  ℕ, ◌+◌, ◌*◌, ◌<◌, ◌≡◌, refl, Bool, true, false, ◌&&◌, not, arith, ◌==◌, ==_iff, &&-true, not-true,
  every_below, every_below-at,
}
use stunt.Base64.Tables.{char_of, value_of}

-- A field of `n` values below one of `k` values of the next power of two.
table2 : (n k s : ℕ) → Bool
unfolding every_below
table2 n k s = every_below n (λ x. every_below k (λ y. bit_or (x * s) y == x * s + y))

table2_sound : (n k s x y : ℕ) → table2 n k s ≡ true → x < n → y < k → bit_or (x * s) y ≡ x * s + y
unfolding table2
table2_sound n k s x y h hx hy = (==_iff _ _).0 (
    every_below-at k y _ hy
      (every_below-at n x (λ z. every_below k (λ t. bit_or (z * s) t == z * s + t)) hx h))

module _ (x y : ℕ) where
  pub or_4 : x < 64 → y < 4 → bit_or (x * 4) y ≡ x * 4 + y
  unfolding table2
  or_4 = table2_sound 64 4 4 x y refl

  pub or_16 : x < 64 → y < 16 → bit_or (x * 16) y ≡ x * 16 + y
  unfolding table2
  or_16 = table2_sound 64 16 16 x y refl

  pub or_64 : x < 64 → y < 64 → bit_or (x * 64) y ≡ x * 64 + y
  unfolding table2
  or_64 = table2_sound 64 64 64 x y refl

  pub or_16_4 : x < 16 → y < 4 → bit_or (x * 4) y ≡ x * 4 + y
  or_16_4 h k = or_4 (omega arith) k

value_check_all :
    (safe : Bool)
    → every_below 64 (λ x. (value_of safe (char_of safe x) == x) && not (char_of safe x == b'='))
      ≡ true
unfolding value_of char_of every_below
value_check_all false = refl
value_check_all true = refl

module _ (safe : Bool) (x : ℕ) (h : x < 64) where
  checked : ((value_of safe (char_of safe x) == x) ≡ true) × (not (char_of safe x == b'=') ≡ true)
  checked = &&-true _ _ (every_below-at 64 x _ h (value_check_all safe))

  -- The tables invert the alphabets.
  pub value_of-char_of : value_of safe (char_of safe x) ≡ x
  value_of-char_of = (==_iff _ _).0 checked.0

  -- No alphabet has the pad.
  pub char_of_no_pad : (char_of safe x == b'=') ≡ false
  char_of_no_pad = not-true _ checked.1
