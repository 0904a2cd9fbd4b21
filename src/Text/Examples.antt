-- ===== src/Text/Examples.antt =====
-- The functions on strings, on strings.
use stunt.Prelude.{◌||◌, ◌≡◌, refl, true, false, some, [], ◌∷◌, arith, length}
use stunt.Prelude.Int.{ℤ, pos, negsuc, ◌-ℤ◌, ◌+ℤ◌}
use stunt.Text.Case.{Text}
use stunt.Text.Pieces.{strrangeset, strget}
use stunt.Text.Ranged.{strget-strrangeset}
use stunt.Text.Verb.{verbcasecmp}
use stunt.Text.Verb.Spec.{join, any_matches}
use stunt.Text.Verb.Names.{verbcasecmp-join}
use stunt.Text.Binary.{raw_bytes_to_binary, binary_to_raw_bytes}
use stunt.Text.Binary.Roundtrip.{binary_to_raw_bytes-raw_bytes_to_binary}
use stunt.Text.Search.{strindex, strrindex, stream_add_strsub}
use stunt.Text.Search.Found.{IsFirst, IsLast, stands, strindex-IsFirst}
use stunt.Text.Search.Replaced.{stream_add_strsub-ends}
use stunt.Text.Substitute.{
  bf_substitute, check_subs_list, bad_pairs, invalid_pair, fill, pair_at, read,
}
use stunt.Text.Substitute.Inside.{Answers, bf_substitute-inside}
use stunt.Value.{Var, Items, int, str, list, nil, cons}
use stunt.Value.Equality.{count}
use stunt.Lists.Builtins.{make_var_pack}

-- `foo*bar`
abbrev foo_bar : Text
foo_bar = 102 ∷ 111 ∷ 111 ∷ 42 ∷ 98 ∷ 97 ∷ 114 ∷ []

-- `get`
abbrev get : Text
get = 103 ∷ 101 ∷ 116 ∷ []

-- `foob`
abbrev word : Text
word = 102 ∷ 111 ∷ 111 ∷ 98 ∷ []

verbcasecmp-join_example :
    verbcasecmp false (join (get ∷ foo_bar ∷ [])) word
    ≡ some (false || any_matches (get ∷ foo_bar ∷ []) word)
verbcasecmp-join_example =
    verbcasecmp-join false (get ∷ foo_bar ∷ []) word
      ((refl, (refl, (refl, tt))), ((refl, (refl, (refl, (refl, (refl, (refl, (refl, tt))))))), tt))

binary_to_raw_bytes-raw_bytes_to_binary_example :
    binary_to_raw_bytes (raw_bytes_to_binary (0 ∷ 126 ∷ 255 ∷ [])) ≡ some (0 ∷ 126 ∷ 255 ∷ [])
binary_to_raw_bytes-raw_bytes_to_binary_example =
    binary_to_raw_bytes-raw_bytes_to_binary (0 ∷ 126 ∷ 255 ∷ [])
      (omega arith, (omega arith, (omega arith, tt)))

strindex-IsFirst_example :
    IsFirst (stands true (111 ∷ []) foo_bar) 0 (strindex foo_bar (111 ∷ []) true)
    × IsLast (stands true (111 ∷ []) foo_bar) (strrindex foo_bar (length foo_bar) (111 ∷ []) true)
strindex-IsFirst_example = strindex-IsFirst foo_bar (111 ∷ []) true

stream_add_strsub-ends_example :
    ((result : Text) × (stream_add_strsub 8 foo_bar (111 ∷ []) get false ≡ some result))
    × (stream_add_strsub 8 foo_bar (111 ∷ []) (111 ∷ []) true ≡ some foo_bar)
stream_add_strsub-ends_example = stream_add_strsub-ends 8 foo_bar 111 [] get false (omega arith)

-- The last letter of the value.
strget-strrangeset_example : strget (strrangeset foo_bar 2 3 get) 4 ≡ strget get 3
strget-strrangeset_example =
    strget-strrangeset foo_bar get 2 3 4 (omega arith) (omega arith) (omega arith)

-- A match of the letters 2 to 4 of `foob`, with one part, the letter 2.
abbrev pair : ℤ → ℤ → Var
pair a b = list (cons (int a) (cons (int b) nil))

abbrev no_part : Var
no_part = pair (pos 0) (negsuc 0)

abbrev parts : Items
parts = cons (pair (pos 2) (pos 2)) (
    cons no_part (
      cons no_part (
        cons no_part
          (cons no_part (cons no_part (cons no_part (cons no_part (cons no_part nil))))))))

abbrev found : Var
found = list (cons (int (pos 2)) (cons (int (pos 4)) (cons (list parts) (cons (str word) nil))))

-- `%0-%1`
abbrev template : Text
template = 37 ∷ 48 ∷ 45 ∷ 37 ∷ 49 ∷ []

bf_substitute-inside_example : Answers (bf_substitute template found)
bf_substitute-inside_example = bf_substitute-inside template found

substituted : bf_substitute template found ≡ some (make_var_pack (111 ∷ 111 ∷ 98 ∷ 45 ∷ 111 ∷ []))
unfolding bf_substitute check_subs_list bad_pairs invalid_pair count fill pair_at read ◌-ℤ◌ ◌+ℤ◌
substituted = refl
