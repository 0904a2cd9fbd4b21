-- ===== src/Text/Binary/Roundtrip.antt =====
-- Writing bytes as a binary string and reading them back.
use mathlib.Core.Option
use stunt.Prelude.{
  ℕ, ◌/◌, ◌%◌, ◌≤◌, ◌<◌, ◌≡◌, refl, true, false, some, [], ◌∷◌, arith, ◌==◌, Bool-cases, inl, inr,
}
use stunt.Text.Case.{Text}
use stunt.Text.Binary.{
  is_plain, hex_digit, hex_value, hex_pair, push, raw_bytes_to_binary, binary_to_raw_bytes,
}

abbrev pub AreBytes : Text → Type 0
AreBytes [] = Unit {0}
AreBytes (c ∷ s) = (c < 256) × AreBytes s

hex_value-hex_digit : (n : ℕ) → n < 16 → hex_value (hex_digit n) ≡ some n
unfolding hex_value hex_digit
hex_value-hex_digit n h = ground arith

hex_pair-hex_digit : (c : ℕ) → c < 256 → hex_pair (hex_digit (c / 16)) (hex_digit (c % 16)) ≡ some c
unfolding hex_pair
hex_pair-hex_digit c h = ground (arith, hex_value-hex_digit (c / 16), hex_value-hex_digit (c % 16))

-- A byte that is no tilde stands for itself.
read-plain :
    (c : ℕ) (s : Text)
    → (c == b'~') ≡ false
    → binary_to_raw_bytes (c ∷ s) ≡ Option.map (λ r. c ∷ r) (binary_to_raw_bytes s)
unfolding binary_to_raw_bytes
read-plain c [] h = rw h
read-plain c (a ∷ []) h = rw h
read-plain c (a ∷ b ∷ s) h = rw h

read-escape :
    (a b : ℕ) (s : Text)
    → binary_to_raw_bytes (b'~' ∷ a ∷ b ∷ s) ≡ push (hex_pair a b) (binary_to_raw_bytes s)
unfolding binary_to_raw_bytes
read-escape a b s = refl

plain_no_tilde : (c : ℕ) → is_plain c ≡ true → (c == b'~') ≡ false
plain_no_tilde c h = ground arith

-- Bytes below 256 that are written as a binary string are read back as they were.
pub binary_to_raw_bytes-raw_bytes_to_binary :
    (s : Text) → AreBytes s → binary_to_raw_bytes (raw_bytes_to_binary s) ≡ some s
unfolding raw_bytes_to_binary
binary_to_raw_bytes-raw_bytes_to_binary [] h = unfold binary_to_raw_bytes in refl
binary_to_raw_bytes-raw_bytes_to_binary (c ∷ s) h = elim (Bool-cases (is_plain c)) [
  | inl plain ↦
      rw
        (
          plain,
          read-plain c _ (plain_no_tilde c plain),
          binary_to_raw_bytes-raw_bytes_to_binary s h.1,
        )
        refl
  | inr other ↦
      rw
        (
          other,
          read-escape _ _ (raw_bytes_to_binary s),
          hex_pair-hex_digit c h.0,
          binary_to_raw_bytes-raw_bytes_to_binary s h.1,
        )
        refl
]

-- Every byte of a binary string is printable.
abbrev pub ArePrintable : Text → Type 0
ArePrintable [] = Unit {0}
ArePrintable (c ∷ s) = (32 ≤ c) × (c ≤ 126) × ArePrintable s

hex_digit-printable : (n : ℕ) → n < 16 → (32 ≤ hex_digit n) × (hex_digit n ≤ 126)
unfolding hex_digit
hex_digit-printable n h = ground arith

-- The binary string of any bytes below 256 consists of the characters from 32 to 126.
pub raw_bytes_to_binary-ArePrintable :
    (s : Text) → AreBytes s → ArePrintable (raw_bytes_to_binary s)
unfolding raw_bytes_to_binary
raw_bytes_to_binary-ArePrintable [] h = tt
raw_bytes_to_binary-ArePrintable (c ∷ s) h = elim (Bool-cases (is_plain c)) [
  | inl plain ↦ rw plain (ground arith, ground arith, raw_bytes_to_binary-ArePrintable s h.1)
  | inr other ↦
      let hi = hex_digit-printable (c / 16) (omega arith) in
      let lo = hex_digit-printable (c % 16) (omega arith) in
      rw other (
        omega arith,
        omega arith,
        (hi.0, hi.1, (lo.0, lo.1, raw_bytes_to_binary-ArePrintable s h.1)),
      )
]
