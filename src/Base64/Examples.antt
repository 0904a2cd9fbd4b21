-- ===== src/Base64/Examples.antt =====
-- The round trip of three bytes.
use stunt.Prelude.{◌≡◌, refl, true, [], ◌∷◌, arith}
use stunt.Text.Case.{Text}
use stunt.Text.Binary.{raw_bytes_to_binary, binary_to_raw_bytes}
use stunt.Base64.{ok, encode, encode_base64, decode_base64}
use stunt.Base64.Tables.{char_of}
use stunt.Base64.Roundtrip.{decode_base64-encode_base64}

-- The bytes 0, 255 and 65 in the alphabet for URLs, `AP9B`.
abbrev three : Text
three = 0 ∷ 255 ∷ 65 ∷ []

abbrev coded : Text
coded = 65 ∷ 80 ∷ 57 ∷ 66 ∷ []

three-coded : encode_base64 100 true (raw_bytes_to_binary three) ≡ ok coded
unfolding encode_base64 binary_to_raw_bytes raw_bytes_to_binary encode char_of
three-coded = refl

decode_base64-encode_base64_example : decode_base64 100 true coded ≡ ok (raw_bytes_to_binary three)
decode_base64-encode_base64_example =
    decode_base64-encode_base64 100 true three coded (omega arith, (omega arith, (omega arith, tt)))
      three-coded (omega arith)
