-- ===== src/Text/Binary.antt =====
-- utils.cc: MOO binary strings, in which a byte that is not printable is written `~XX`.
pub mod Roundtrip
use mathlib.Core.Option
use stunt.Prelude.{
  ℕ, ◌+◌, ◌-◌, ◌*◌, ◌/◌, ◌%◌, Bool, ◌&&◌, ◌||◌, not, Option, none, some, [], ◌∷◌, ltb, leb, ◌==◌,
  if◌then◌else◌,
}
use stunt.Text.Case.{Text}

-- C's `isgraph` in the "C" locale.
abbrev pub is_graph : ℕ → Bool
is_graph c = leb 33 c && leb c 126

abbrev pub is_plain : ℕ → Bool
is_plain c = not (c == b'~') && (is_graph c || c == b' ')

-- A digit of `%02x`.
pub hex_digit : ℕ → ℕ
hex_digit n = if ltb n 10 then 48 + n else 87 + n

unfoldable pub raw_bytes_to_binary : Text → Text
unfolding hex_digit
raw_bytes_to_binary [] = []
raw_bytes_to_binary (c ∷ s) =
    let rest = raw_bytes_to_binary s in
    if is_plain c then c ∷ rest else b'~' ∷ hex_digit (c / 16) ∷ hex_digit (c % 16) ∷ rest

unfoldable pub raw_bytes_to_clean : Text → Text
raw_bytes_to_clean [] = []
raw_bytes_to_clean (c ∷ s) =
    let rest = raw_bytes_to_clean s in if is_graph c || c == b' ' then c ∷ rest else rest

abbrev to_upper : ℕ → ℕ
to_upper c = if leb b'a' c && leb c b'z' then c - 32 else c

-- The value of a hexadecimal digit, once it is a capital.
pub hex_value : ℕ → Option ℕ
hex_value c =
    let u = to_upper c in
    if leb b'0' u && leb u b'9'
    then some (u - b'0')
    else if leb b'A' u && leb u b'F'
    then some (u - b'A' + 10)
    else none

-- One escape: two digits, `none` if either is no digit.
pub hex_pair : ℕ → ℕ → Option ℕ
unfolding hex_value
hex_pair a b = elim (hex_value a) [
  | none ↦ none
  | some x ↦ elim (hex_value b) [ none ↦ none | some y ↦ some (x * 16 + y) ]
]

abbrev pub push : Option ℕ → Option Text → Option Text
push none t = none
push (some c) t = Option.map (λ s. c ∷ s) t

-- A string that ends within an escape is refused: its terminating NUL is no digit.
unfoldable pub binary_to_raw_bytes : Text → Option Text
unfolding hex_pair
binary_to_raw_bytes [] = some []
binary_to_raw_bytes (c ∷ []) = if c == b'~' then none else some (c ∷ [])
binary_to_raw_bytes (c ∷ a ∷ []) =
    let rest = binary_to_raw_bytes (a ∷ []) in if c == b'~' then none else push (some c) rest
binary_to_raw_bytes (c ∷ a ∷ b ∷ s) =
    let plain = push (some c) (binary_to_raw_bytes (a ∷ b ∷ s)) in
    let escaped = push (hex_pair a b) (binary_to_raw_bytes s) in
    if c == b'~' then escaped else plain
