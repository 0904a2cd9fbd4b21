-- ===== src/Base64/Blocks.antt =====
-- What the decoder's second loop makes of the text that the encoder writes.
use Prim.Native.Nat.{bit_or}
use stunt.Prelude.{
  ℕ, suc, ◌+◌, ◌-◌, ◌*◌, ◌/◌, ◌%◌, ◌<◌, ◌≡◌, refl, ap, Bool, true, false, [], ◌∷◌, ◌++◌, List, map,
  arith, length, length-append, take, take-append, replicate, ◌==◌,
}
use stunt.Text.Case.{Text}
use stunt.Text.Binary.Roundtrip.{AreBytes}
use stunt.Base64.{encode, Decoded, blocks, trim}
use stunt.Base64.Tables.{char_of, value_of}
use stunt.Base64.Bits.{or_4, or_16, or_64, value_of-char_of, char_of_no_pad}

abbrev pub cell : Bool → ℕ → ℕ × ℕ
cell safe c = (value_of safe c, c)

-- What the decoder's second loop holds after the text of `raw`: the bytes, with one or two bytes
-- more if there are pads.
pub data Holds (raw : Text) (d : Decoded) : Type 0 where
  full : d.bytes ≡ raw → (d.ar2 == b'=') ≡ false → (d.ar3 == b'=') ≡ false → Holds raw d
  one_more :
      (x : ℕ)
      → d.bytes ≡ raw ++ x ∷ []
      → (d.ar2 == b'=') ≡ false
      → (d.ar3 == b'=') ≡ true
      → Holds raw d
  two_more : (x y : ℕ) → d.bytes ≡ raw ++ x ∷ y ∷ [] → (d.ar2 == b'=') ≡ true → Holds raw d

take-append_but : (s t : Text) (n : ℕ) → length t ≡ n → take (length (s ++ t) - n) (s ++ t) ≡ s
take-append_but s t n e =
    let kept : length (s ++ t) - n ≡ length s = omega (arith, length-append s t) in
    rw kept (take-append s t)

pub trim-Holds : {raw : Text} {d : Decoded} → Holds raw d → trim d ≡ raw
trim-Holds {raw} {d} (full e p q) = rw (p, q) e
trim-Holds {raw} {d} (one_more x e p q) = rw (p, q, e) (take-append_but raw (x ∷ []) 1 refl)
trim-Holds {raw} {d} (two_more x y e p) = rw (p, e) (take-append_but raw (x ∷ y ∷ []) 2 refl)

-- The three bytes that a block of four characters stands for.
module _ (a b c : ℕ) (ha : a < 256) (hb : b < 256) (hc : c < 256) where
  second : bit_or (a % 4 * 16) (b / 16) ≡ a % 4 * 16 + b / 16
  second = or_16 (a % 4) (b / 16) (omega arith) (omega arith)

  third : bit_or (b % 16 * 4) (c / 64) ≡ b % 16 * 4 + c / 64
  third = or_4 (b % 16) (c / 64) (omega arith) (omega arith)

  pub second_lt : bit_or (a % 4 * 16) (b / 16) < 64
  second_lt = rw second (omega arith)

  pub third_lt : bit_or (b % 16 * 4) (c / 64) < 64
  third_lt = rw third (omega arith)

  first_byte : bit_or (a / 4 * 4) (bit_or (a % 4 * 16) (b / 16) / 16) % 256 ≡ a
  first_byte =
      rw (second, or_4 (a / 4) ((a % 4 * 16 + b / 16) / 16) (omega arith) (omega arith))
        (omega arith)

  second_byte :
      bit_or (bit_or (a % 4 * 16) (b / 16) * 16) (bit_or (b % 16 * 4) (c / 64) / 4) % 256 ≡ b
  second_byte =
      rw
        (
          second,
          third,
          or_16 (a % 4 * 16 + b / 16) ((b % 16 * 4 + c / 64) / 4) (omega arith) (omega arith),
        )
        (omega arith)

  third_byte : bit_or (bit_or (b % 16 * 4) (c / 64) * 64) (c % 64) % 256 ≡ c
  third_byte =
      rw (third, or_64 (b % 16 * 4 + c / 64) (c % 64) (omega arith) (omega arith)) (omega arith)

  -- The last byte but one of a text that ends in one pad.
  last_of_two : bit_or (bit_or (a % 4 * 16) (b / 16) * 16) (b % 16 * 4 / 4) % 256 ≡ b
  last_of_two =
      rw (second, or_16 (a % 4 * 16 + b / 16) (b % 16 * 4 / 4) (omega arith) (omega arith))
        (omega arith)

last_of_one : (a : ℕ) → a < 256 → bit_or (a / 4 * 4) (a % 4 * 16 / 16) % 256 ≡ a
last_of_one a ha = rw (or_4 (a / 4) (a % 4 * 16 / 16) (omega arith) (omega arith)) (omega arith)

abbrev pub tail : Text → List (ℕ × ℕ)
tail s = replicate (length s % 4) (0, b'=')

tail-block : (x y z w : ℕ) (s : Text) → tail (x ∷ y ∷ z ∷ w ∷ s) ≡ tail s
tail-block x y z w s =
    let e : suc (suc (suc (suc (length s)))) % 4 ≡ length s % 4 = omega arith in
    ap (λ n. replicate n (0, b'=')) e

Holds-block :
    {x y z : ℕ} {raw : Text} {d : Decoded}
    → Holds raw d
    → Holds (x ∷ y ∷ z ∷ raw) (record { bytes = x ∷ y ∷ z ∷ d.bytes; ar2 = d.ar2; ar3 = d.ar3 })
Holds-block {x} {y} {z} (full e p q) = full (ap (λ s. x ∷ y ∷ z ∷ s) e) p q
Holds-block {x} {y} {z} (one_more u e p q) = one_more u (ap (λ s. x ∷ y ∷ z ∷ s) e) p q
Holds-block {x} {y} {z} (two_more u v e p) = two_more u v (ap (λ s. x ∷ y ∷ z ∷ s) e) p

pub blocks-encode :
    (safe : Bool) (raw : Text) (ar2 ar3 : ℕ)
    → AreBytes raw
    → (ar2 == b'=') ≡ false
    → (ar3 == b'=') ≡ false
    → Holds raw (blocks (map (cell safe) (encode safe raw) ++ tail (encode safe raw)) ar2 ar3)
unfolding blocks encode
blocks-encode safe [] ar2 ar3 h p q = full refl p q
blocks-encode false (a ∷ []) ar2 ar3 h p q =
    rw
      (
        value_of-char_of false (a / 4) (omega arith),
        value_of-char_of false (a % 4 * 16) (omega arith),
        last_of_one a h.0,
      )
      (two_more _ _ refl refl)
blocks-encode true (a ∷ []) ar2 ar3 h p q =
    rw
      (
        value_of-char_of true (a / 4) (omega arith),
        value_of-char_of true (a % 4 * 16) (omega arith),
        last_of_one a h.0,
      )
      (two_more _ _ refl refl)
blocks-encode false (a ∷ b ∷ []) ar2 ar3 h p q =
    rw
      (
        value_of-char_of false (a / 4) (omega arith),
        value_of-char_of false _ (second_lt a b 0 h.0 h.1.0 (omega arith)),
        value_of-char_of false (b % 16 * 4) (omega arith),
        first_byte a b 0 h.0 h.1.0 (omega arith),
        last_of_two a b 0 h.0 h.1.0 (omega arith),
      )
      (one_more _ refl (char_of_no_pad false (b % 16 * 4) (omega arith)) refl)
blocks-encode true (a ∷ b ∷ []) ar2 ar3 h p q =
    rw
      (
        value_of-char_of true (a / 4) (omega arith),
        value_of-char_of true _ (second_lt a b 0 h.0 h.1.0 (omega arith)),
        value_of-char_of true (b % 16 * 4) (omega arith),
        first_byte a b 0 h.0 h.1.0 (omega arith),
        last_of_two a b 0 h.0 h.1.0 (omega arith),
      )
      (one_more _ refl (char_of_no_pad true (b % 16 * 4) (omega arith)) refl)
blocks-encode safe (a ∷ b ∷ c ∷ raw) ar2 ar3 h p q =
    rw
      (
        value_of-char_of safe (a / 4) (omega arith),
        value_of-char_of safe _ (second_lt a b c h.0 h.1.0 h.1.1.0),
        value_of-char_of safe _ (third_lt a b c h.0 h.1.0 h.1.1.0),
        value_of-char_of safe (c % 64) (omega arith),
        first_byte a b c h.0 h.1.0 h.1.1.0,
        second_byte a b c h.0 h.1.0 h.1.1.0,
        third_byte a b c h.0 h.1.0 h.1.1.0,
        tail-block,
      )
      (Holds-block (
        blocks-encode safe raw (char_of safe (bit_or (b % 16 * 4) (c / 64))) (char_of safe (c % 64))
          h.1.1.1 (char_of_no_pad safe _ (third_lt a b c h.0 h.1.0 h.1.1.0))
          (char_of_no_pad safe (c % 64) (omega arith))))
