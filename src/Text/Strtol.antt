-- ===== src/Text/Strtol.antt =====
-- The C library's `strtol` in base 10, with a `long` of 64 bits, and its result in an `int`.
use stunt.Prelude.{
  ℕ, ◌+◌, ◌-◌, ◌*◌, ◌^◌, Bool, true, false, ◌&&◌, ◌||◌, [], ◌∷◌, ltb, leb, ◌==◌, if◌then◌else◌,
}
use stunt.Prelude.Int.{ℤ, pos, sub_ℕ}
use stunt.Int32.{wrap32}
use stunt.Text.Case.{Text}

abbrev pub is_digit : ℕ → Bool
is_digit c = leb b'0' c && leb c b'9'

abbrev pub is_space : ℕ → Bool
is_space c = (c == b' ') || leb 9 c && leb c 13

-- The value of the digits, after a value so far, and what they leave.
unfoldable pub digits : ℕ → Text → ℕ × Text
digits n [] = (n, [])
digits n (c ∷ s) =
    let more = digits (n * 10 + (c - b'0')) s in if is_digit c then more else (n, c ∷ s)

abbrev pub starts_with_digit : Text → Bool
starts_with_digit [] = false
starts_with_digit (c ∷ s) = is_digit c

unfoldable pub skip_space : Text → Text
skip_space [] = []
skip_space (c ∷ s) = let rest = skip_space s in if is_space c then rest else c ∷ s

abbrev pub is_minus : Text → Bool
is_minus [] = false
is_minus (c ∷ s) = c == b'-'

abbrev pub skip_sign : Text → Text
skip_sign [] = []
skip_sign (c ∷ s) = if (c == b'-') || (c == b'+') then s else c ∷ s

-- A number that is out of range is the largest or the smallest `long`.
abbrev pub long_of : Bool → ℕ → ℤ
long_of true n = if ltb (2 ^ 63) n then sub_ℕ 0 (2 ^ 63) else sub_ℕ 0 n
long_of false n = if leb (2 ^ 63) n then pos (2 ^ 63 - 1) else pos n

-- The number, and the text at `*endptr`: all of it, if there are no digits.
unfoldable pub strtol : Text → ℤ × Text
strtol s =
    let body = skip_sign (skip_space s) in
    let (n, rest) = digits 0 body in
    if starts_with_digit body then (long_of (is_minus (skip_space s)) n, rest) else (pos 0, s)

-- The assignment to an `int`.
unfoldable pub strtol_int : Text → ℤ × Text
strtol_int s = let (r, rest) = strtol s in (wrap32 r, rest)
