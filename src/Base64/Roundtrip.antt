-- ===== src/Base64/Roundtrip.antt =====
-- Base64 text decodes to the bytes that it encodes.
use stunt.Prelude.{
  ℕ, ◌-◌, ◌*◌, ◌/◌, ◌%◌, ◌≤◌, ◌<◌, ◌≡◌, refl, ◌∙◌, Bool, true, false, ◌&&◌, not, [], ◌∷◌, ap, arith,
  length, ltb, le→ltb, ◌==◌,
}
use stunt.Text.Case.{Text}
use stunt.Text.Binary.{raw_bytes_to_binary}
use stunt.Text.Binary.Roundtrip.{AreBytes, binary_to_raw_bytes-raw_bytes_to_binary}
use stunt.Base64.{ok, encode, encode_base64, check, decode_raw, decode_base64}
use stunt.Base64.Tables.{char_of, value_of}
use stunt.Base64.Bits.{value_of-char_of, char_of_no_pad}
use stunt.Base64.Blocks.{trim-Holds, blocks-encode, second_lt, third_lt}

check-char :
    (safe : Bool) (x : ℕ) (s : Text) → x < 64 → check safe (char_of safe x ∷ s) 0 ≡ check safe s 0
unfolding check
check-char safe x s h = rw (value_of-char_of safe x h, char_of_no_pad safe x h) (ground arith)

-- The first loop of the decoder accepts what the encoder writes.
record Accepted (safe : Bool) (s : Text) : Type 0 where
  pad : ℕ
  counted : check safe s 0 ≡ ok pad
  few : ltb 2 pad ≡ false
  not_one : (length s - pad == 1) ≡ false
  whole : (not safe && not (length s % 4 == 0)) ≡ false

Accepted-block :
    (safe : Bool) (x y z w : ℕ) (s : Text)
    → x < 64
    → y < 64
    → z < 64
    → w < 64
    → Accepted safe s
    → Accepted safe (char_of safe x ∷ char_of safe y ∷ char_of safe z ∷ char_of safe w ∷ s)
Accepted-block safe x y z w s hx hy hz hw a = record {
  pad = a.pad;
  counted =
      check-char safe x _ hx
      ∙ check-char safe y _ hy
      ∙ check-char safe z _ hz
      ∙ check-char safe w s hw
      ∙ a.counted;
  few = a.few;
  not_one = ground (arith, a.few, a.not_one);
  whole = ground (arith, a.whole);
}

encode-Accepted : (safe : Bool) (raw : Text) → AreBytes raw → Accepted safe (encode safe raw)
unfolding encode
encode-Accepted safe [] h = record {
  pad = 0;
  counted = unfold check in refl;
  few = refl;
  not_one = refl;
  whole = ground arith;
}
encode-Accepted false (a ∷ []) h = record {
  pad = 2;
  counted =
      check-char false (a / 4) _ (omega arith)
      ∙ check-char false (a % 4 * 16) _ (omega arith)
      ∙ unfold check value_of in refl;
  few = refl;
  not_one = refl;
  whole = refl;
}
encode-Accepted true (a ∷ []) h = record {
  pad = 0;
  counted =
      check-char true (a / 4) _ (omega arith)
      ∙ check-char true (a % 4 * 16) _ (omega arith)
      ∙ unfold check in refl;
  few = refl;
  not_one = refl;
  whole = refl;
}
encode-Accepted false (a ∷ b ∷ []) h = record {
  pad = 1;
  counted =
      check-char false (a / 4) _ (omega arith)
      ∙ check-char false _ _ (second_lt a b 0 h.0 h.1.0 (omega arith))
      ∙ check-char false (b % 16 * 4) _ (omega arith)
      ∙ unfold check value_of in refl;
  few = refl;
  not_one = refl;
  whole = refl;
}
encode-Accepted true (a ∷ b ∷ []) h = record {
  pad = 0;
  counted =
      check-char true (a / 4) _ (omega arith)
      ∙ check-char true _ _ (second_lt a b 0 h.0 h.1.0 (omega arith))
      ∙ check-char true (b % 16 * 4) _ (omega arith)
      ∙ unfold check in refl;
  few = refl;
  not_one = refl;
  whole = refl;
}
encode-Accepted safe (a ∷ b ∷ c ∷ raw) h =
    Accepted-block safe _ _ _ _ (encode safe raw) (omega arith) (second_lt a b c h.0 h.1.0 h.1.1.0)
      (third_lt a b c h.0 h.1.0 h.1.1.0) (omega arith) (encode-Accepted safe raw h.1.1.1)

module _ (max : ℕ) (safe : Bool) (raw : Text) (bytes : AreBytes raw) where
  decode_raw-encode :
      length (encode safe raw) / 4 * 3 ≤ max
      → (a : Accepted safe (encode safe raw)) → decode_raw max safe (encode safe raw) a.pad ≡ ok raw
  unfolding decode_raw
  decode_raw-encode small a =
      rw (a.few, a.not_one, a.whole, le→ltb max _ small)
        (ap ok (trim-Holds (blocks-encode safe raw 0 0 bytes refl refl)))

  decode_base64-encode :
      length (encode safe raw) / 4 * 3 ≤ max
      → decode_base64 max safe (encode safe raw) ≡ ok (raw_bytes_to_binary raw)
  unfolding decode_base64
  decode_base64-encode small =
      let a = encode-Accepted safe raw bytes in
      rw (a.counted, decode_base64, decode_raw-encode small a) refl

  encode_base64-ok :
      (e : Text) → encode_base64 max safe (raw_bytes_to_binary raw) ≡ ok e → e ≡ encode safe raw
  unfolding encode_base64
  encode_base64-ok e p = ground (arith, binary_to_raw_bytes-raw_bytes_to_binary raw bytes)

-- If encode_base64 returns a text for the binary string of some bytes, then decode_base64 turns that
-- text into the binary string again, in either alphabet, as long as the text is within the decoder's
-- limit.
pub decode_base64-encode_base64 :
    (max : ℕ) (safe : Bool) (raw e : Text)
    → AreBytes raw
    → encode_base64 max safe (raw_bytes_to_binary raw) ≡ ok e
    → length e / 4 * 3 ≤ max
    → decode_base64 max safe e ≡ ok (raw_bytes_to_binary raw)
decode_base64-encode_base64 max safe raw e h p small =
    let q = encode_base64-ok max safe raw h e p in
    rw q (decode_base64-encode max safe raw h (rw q at small))
