-- ===== src/Base64/Tables.antt =====
-- base64.cc: the alphabets and the tables that invert them, plain and URL-safe. An entry 80 marks a
-- character that is in neither, 90 the pad.
use stunt.Prelude.{ℕ, Bool, [], ◌∷◌, get_or, if◌then◌else◌}
use stunt.Text.Case.{Text}
use stunt.Text.Codes.{codes}

base64_chars : Text
base64_chars = codes "ABCDEFGHIJKLMNOPQRSTUVWXYZabcdefghijklmnopqrstuvwxyz0123456789+/"

url_safe_base64_chars : Text
url_safe_base64_chars = codes "ABCDEFGHIJKLMNOPQRSTUVWXYZabcdefghijklmnopqrstuvwxyz0123456789-_"

base64_table : Text
base64_table =
    80 ∷ 80 ∷ 80 ∷ 80 ∷ 80 ∷ 80 ∷ 80 ∷ 80 ∷ 80 ∷ 80 ∷ 80 ∷ 80 ∷ 80 ∷ 80 ∷ 80 ∷ 80 ∷ 80 ∷ 80 ∷ 80
    ∷ 80 ∷ 80 ∷ 80 ∷ 80 ∷ 80 ∷ 80 ∷ 80 ∷ 80 ∷ 80 ∷ 80 ∷ 80 ∷ 80 ∷ 80 ∷ 80 ∷ 80 ∷ 80 ∷ 80 ∷ 80 ∷ 80
    ∷ 80 ∷ 80 ∷ 80 ∷ 80 ∷ 80 ∷ 62 ∷ 80 ∷ 80 ∷ 80 ∷ 63 ∷ 52 ∷ 53 ∷ 54 ∷ 55 ∷ 56 ∷ 57 ∷ 58 ∷ 59 ∷ 60
    ∷ 61 ∷ 80 ∷ 80 ∷ 80 ∷ 90 ∷ 80 ∷ 80 ∷ 80 ∷ 0 ∷ 1 ∷ 2 ∷ 3 ∷ 4 ∷ 5 ∷ 6 ∷ 7 ∷ 8 ∷ 9 ∷ 10 ∷ 11 ∷ 12
    ∷ 13 ∷ 14 ∷ 15 ∷ 16 ∷ 17 ∷ 18 ∷ 19 ∷ 20 ∷ 21 ∷ 22 ∷ 23 ∷ 24 ∷ 25 ∷ 80 ∷ 80 ∷ 80 ∷ 80 ∷ 80 ∷ 80
    ∷ 26 ∷ 27 ∷ 28 ∷ 29 ∷ 30 ∷ 31 ∷ 32 ∷ 33 ∷ 34 ∷ 35 ∷ 36 ∷ 37 ∷ 38 ∷ 39 ∷ 40 ∷ 41 ∷ 42 ∷ 43 ∷ 44
    ∷ 45 ∷ 46 ∷ 47 ∷ 48 ∷ 49 ∷ 50 ∷ 51 ∷ 80 ∷ 80 ∷ 80 ∷ 80 ∷ 80 ∷ 80 ∷ 80 ∷ 80 ∷ 80 ∷ 80 ∷ 80 ∷ 80
    ∷ 80 ∷ 80 ∷ 80 ∷ 80 ∷ 80 ∷ 80 ∷ 80 ∷ 80 ∷ 80 ∷ 80 ∷ 80 ∷ 80 ∷ 80 ∷ 80 ∷ 80 ∷ 80 ∷ 80 ∷ 80 ∷ 80
    ∷ 80 ∷ 80 ∷ 80 ∷ 80 ∷ 80 ∷ 80 ∷ 80 ∷ 80 ∷ 80 ∷ 80 ∷ 80 ∷ 80 ∷ 80 ∷ 80 ∷ 80 ∷ 80 ∷ 80 ∷ 80 ∷ 80
    ∷ 80 ∷ 80 ∷ 80 ∷ 80 ∷ 80 ∷ 80 ∷ 80 ∷ 80 ∷ 80 ∷ 80 ∷ 80 ∷ 80 ∷ 80 ∷ 80 ∷ 80 ∷ 80 ∷ 80 ∷ 80 ∷ 80
    ∷ 80 ∷ 80 ∷ 80 ∷ 80 ∷ 80 ∷ 80 ∷ 80 ∷ 80 ∷ 80 ∷ 80 ∷ 80 ∷ 80 ∷ 80 ∷ 80 ∷ 80 ∷ 80 ∷ 80 ∷ 80 ∷ 80
    ∷ 80 ∷ 80 ∷ 80 ∷ 80 ∷ 80 ∷ 80 ∷ 80 ∷ 80 ∷ 80 ∷ 80 ∷ 80 ∷ 80 ∷ 80 ∷ 80 ∷ 80 ∷ 80 ∷ 80 ∷ 80 ∷ 80
    ∷ 80 ∷ 80 ∷ 80 ∷ 80 ∷ 80 ∷ 80 ∷ 80 ∷ 80 ∷ 80 ∷ 80 ∷ 80 ∷ 80 ∷ 80 ∷ 80 ∷ 80 ∷ 80 ∷ 80 ∷ 80 ∷ 80
    ∷ 80 ∷ 80 ∷ 80 ∷ 80 ∷ 80 ∷ 80 ∷ 80 ∷ []

url_safe_base64_table : Text
url_safe_base64_table =
    80 ∷ 80 ∷ 80 ∷ 80 ∷ 80 ∷ 80 ∷ 80 ∷ 80 ∷ 80 ∷ 80 ∷ 80 ∷ 80 ∷ 80 ∷ 80 ∷ 80 ∷ 80 ∷ 80 ∷ 80 ∷ 80
    ∷ 80 ∷ 80 ∷ 80 ∷ 80 ∷ 80 ∷ 80 ∷ 80 ∷ 80 ∷ 80 ∷ 80 ∷ 80 ∷ 80 ∷ 80 ∷ 80 ∷ 80 ∷ 80 ∷ 80 ∷ 80 ∷ 80
    ∷ 80 ∷ 80 ∷ 80 ∷ 80 ∷ 80 ∷ 80 ∷ 80 ∷ 62 ∷ 80 ∷ 80 ∷ 52 ∷ 53 ∷ 54 ∷ 55 ∷ 56 ∷ 57 ∷ 58 ∷ 59 ∷ 60
    ∷ 61 ∷ 80 ∷ 80 ∷ 80 ∷ 90 ∷ 80 ∷ 80 ∷ 80 ∷ 0 ∷ 1 ∷ 2 ∷ 3 ∷ 4 ∷ 5 ∷ 6 ∷ 7 ∷ 8 ∷ 9 ∷ 10 ∷ 11 ∷ 12
    ∷ 13 ∷ 14 ∷ 15 ∷ 16 ∷ 17 ∷ 18 ∷ 19 ∷ 20 ∷ 21 ∷ 22 ∷ 23 ∷ 24 ∷ 25 ∷ 80 ∷ 80 ∷ 80 ∷ 80 ∷ 63 ∷ 80
    ∷ 26 ∷ 27 ∷ 28 ∷ 29 ∷ 30 ∷ 31 ∷ 32 ∷ 33 ∷ 34 ∷ 35 ∷ 36 ∷ 37 ∷ 38 ∷ 39 ∷ 40 ∷ 41 ∷ 42 ∷ 43 ∷ 44
    ∷ 45 ∷ 46 ∷ 47 ∷ 48 ∷ 49 ∷ 50 ∷ 51 ∷ 80 ∷ 80 ∷ 80 ∷ 80 ∷ 80 ∷ 80 ∷ 80 ∷ 80 ∷ 80 ∷ 80 ∷ 80 ∷ 80
    ∷ 80 ∷ 80 ∷ 80 ∷ 80 ∷ 80 ∷ 80 ∷ 80 ∷ 80 ∷ 80 ∷ 80 ∷ 80 ∷ 80 ∷ 80 ∷ 80 ∷ 80 ∷ 80 ∷ 80 ∷ 80 ∷ 80
    ∷ 80 ∷ 80 ∷ 80 ∷ 80 ∷ 80 ∷ 80 ∷ 80 ∷ 80 ∷ 80 ∷ 80 ∷ 80 ∷ 80 ∷ 80 ∷ 80 ∷ 80 ∷ 80 ∷ 80 ∷ 80 ∷ 80
    ∷ 80 ∷ 80 ∷ 80 ∷ 80 ∷ 80 ∷ 80 ∷ 80 ∷ 80 ∷ 80 ∷ 80 ∷ 80 ∷ 80 ∷ 80 ∷ 80 ∷ 80 ∷ 80 ∷ 80 ∷ 80 ∷ 80
    ∷ 80 ∷ 80 ∷ 80 ∷ 80 ∷ 80 ∷ 80 ∷ 80 ∷ 80 ∷ 80 ∷ 80 ∷ 80 ∷ 80 ∷ 80 ∷ 80 ∷ 80 ∷ 80 ∷ 80 ∷ 80 ∷ 80
    ∷ 80 ∷ 80 ∷ 80 ∷ 80 ∷ 80 ∷ 80 ∷ 80 ∷ 80 ∷ 80 ∷ 80 ∷ 80 ∷ 80 ∷ 80 ∷ 80 ∷ 80 ∷ 80 ∷ 80 ∷ 80 ∷ 80
    ∷ 80 ∷ 80 ∷ 80 ∷ 80 ∷ 80 ∷ 80 ∷ 80 ∷ 80 ∷ 80 ∷ 80 ∷ 80 ∷ 80 ∷ 80 ∷ 80 ∷ 80 ∷ 80 ∷ 80 ∷ 80 ∷ 80
    ∷ 80 ∷ 80 ∷ 80 ∷ 80 ∷ 80 ∷ 80 ∷ 80 ∷ []

-- `chars[i]`
unfoldable pub char_of : Bool → ℕ → ℕ
unfolding base64_chars url_safe_base64_chars
char_of safe i = get_or (if safe then url_safe_base64_chars else base64_chars) i 0

-- `table[c]`
unfoldable pub value_of : Bool → ℕ → ℕ
unfolding base64_table url_safe_base64_table
value_of safe c = get_or (if safe then url_safe_base64_table else base64_table) c 80
