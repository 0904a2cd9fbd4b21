-- ===== src/Base64.antt =====
-- base64.cc: the encoder and the decoder of `encode_base64()` and `decode_base64()`.
pub mod Tables
pub mod Examples
pub mod Bits
pub mod Blocks
pub mod Roundtrip
use Prim.Native.Nat.{bit_or}
use stunt.Prelude.{
  ℕ, suc, ◌+◌, ◌-◌, ◌*◌, ◌/◌, ◌%◌, Bool, true, false, ◌&&◌, ◌||◌, not, Option, none, some, [], ◌∷◌,
  ◌++◌, List, map, length, take, replicate, ltb, leb, ◌==◌, if◌then◌else◌,
}
use stunt.Text.Case.{Text}
use stunt.Text.Binary.{binary_to_raw_bytes, raw_bytes_to_binary}
use stunt.Base64.Tables.{char_of, value_of}

-- What a call can raise; all but `too_large` are E_INVARG with their message.
pub data Error : Type 0 where
  invalid_binary invalid_character pad_character too_many_pads invalid_length too_large : Error

pub data Result {ℓ} (A : Type ℓ) : Type ℓ where
  ok : A → Result A
  err : Error → Result A

abbrev pub pads : Bool → Text → Text
pads safe p = if safe then [] else p

-- The encoder's loop, and what it does with the one or two bytes that are left.
unfoldable pub encode : Bool → Text → Text
encode safe [] = []
encode safe (a ∷ []) =
    char_of safe (a / 4) ∷ char_of safe (a % 4 * 16) ∷ pads safe (b'=' ∷ b'=' ∷ [])
encode safe (a ∷ b ∷ []) =
    char_of safe (a / 4)
    ∷ char_of safe (bit_or (a % 4 * 16) (b / 16))
    ∷ char_of safe (b % 16 * 4)
    ∷ pads safe (b'=' ∷ [])
encode safe (a ∷ b ∷ c ∷ rest) =
    char_of safe (a / 4)
    ∷ char_of safe (bit_or (a % 4 * 16) (b / 16))
    ∷ char_of safe (bit_or (b % 16 * 4) (c / 64))
    ∷ char_of safe (c % 64)
    ∷ encode safe rest

-- `max` is `stream_alloc_maximum`.
unfoldable pub encode_base64 : ℕ → Bool → Text → Result Text
encode_base64 max safe str = elim (binary_to_raw_bytes str) [
  | none ↦ err invalid_binary
  | some raw ↦ if ltb max (length raw / 3 * 4) then err too_large else ok (encode safe raw)
]

-- The first loop of the decoder: it refuses, or counts the pads.
unfoldable pub check : Bool → Text → ℕ → Result ℕ
check safe [] pad = ok pad
check safe (c ∷ s) pad =
    let rest = check safe s (if c == b'=' then suc pad else pad) in
    if value_of safe c == 80
    then err invalid_character
    else if not (pad == 0) && not (c == b'=')
    then err pad_character
    else rest

-- What the second loop leaves: the bytes, and the cells 2 and 3 of `ar`.
pub record Decoded : Type 0 where
  pub bytes : Text
  pub ar2 : ℕ
  pub ar3 : ℕ

-- A cell is an entry of `block` with the character that it comes from. What is left of the last
-- block writes no byte, and it is never long enough to reach the cells 2 and 3.
unfoldable pub blocks : List (ℕ × ℕ) → ℕ → ℕ → Decoded
blocks ((b0, _) ∷ (b1, _) ∷ (b2, c2) ∷ (b3, c3) ∷ rest) ar2 ar3 =
    let later = blocks rest c2 c3 in
    record {
      bytes =
          bit_or (b0 * 4) (b1 / 16) % 256
          ∷ bit_or (b1 * 16) (b2 / 4) % 256
          ∷ bit_or (b2 * 64) b3 % 256
          ∷ later.bytes;
      ar2 = later.ar2;
      ar3 = later.ar3;
    }
blocks _ ar2 ar3 = record { bytes = []; ar2 = ar2; ar3 = ar3 }

-- The loop runs over the text and `len % 4` cells more.
abbrev pub cells : Bool → Text → List (ℕ × ℕ)
cells safe s = map (λ c. (value_of safe c, c)) s ++ replicate (length s % 4) (0, b'=')

-- `size` without the bytes that the pads stand for.
abbrev pub trim : Decoded → Text
trim d =
    let size = length d.bytes in
    if d.ar2 == b'='
    then take (size - 2) d.bytes
    else if d.ar3 == b'='
    then take (size - 1) d.bytes
    else d.bytes

unfoldable pub decode_raw : ℕ → Bool → Text → ℕ → Result Text
decode_raw max safe s pad =
    let len = length s in
    if ltb 2 pad
    then err too_many_pads
    else if (len - pad == 1) || (not safe && not (len % 4 == 0))
    then err invalid_length
    else if ltb max (len / 4 * 3)
    then err too_large
    else ok (trim (blocks (cells safe s) 0 0))

unfoldable pub decode_base64 : ℕ → Bool → Text → Result Text
decode_base64 max safe s = elim (check safe s 0) [
  | err e ↦ err e
  | ok pad ↦ elim (decode_raw max safe s pad) [
    | err e ↦ err e
    | ok raw ↦ ok (raw_bytes_to_binary raw)
  ]
]
