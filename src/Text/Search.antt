-- ===== src/Text/Search.antt =====
-- utils.cc: searching and replacing in strings.
pub mod Found
pub mod Replaced
pub mod Builtins
pub mod Translated
use stunt.Prelude.{
  ℕ, zero, suc, ◌+◌, ◌-◌, Bool, true, false, ◌&&◌, Option, none, some, List, [], ◌∷◌, ◌++◌, length,
  drop, leb, ◌==◌, if◌then◌else◌,
}
use mathlib.Core.Option
use stunt.Prelude.Int.{pos, eqb_ℤ}
use stunt.Text.Case.{Text, mystrncasecmp}

-- `strncmp(s, t, n) == 0`
unfoldable pub strncmp_eq : Text → Text → ℕ → Bool
strncmp_eq s t zero = true
strncmp_eq [] [] (suc n) = true
strncmp_eq [] (y ∷ t) (suc n) = false
strncmp_eq (x ∷ s) [] (suc n) = false
strncmp_eq (x ∷ s) (y ∷ t) (suc n) = (x == y) && strncmp_eq s t n

-- `!(case_counts ? strncmp(s, what, what_len) : mystrncasecmp(s, what, what_len))`
unfoldable pub matches : Bool → Text → Text → Bool
matches case_counts what s =
    if case_counts
    then strncmp_eq s what (length what)
    else eqb_ℤ (mystrncasecmp s what (length what)) (pos 0)

-- The loop of `strindex` at `s`, which is `i` characters into the source.
unfoldable pub strindex_from : Bool → Text → ℕ → Text → ℕ
strindex_from case_counts what i [] =
    if leb (length what) 0 && matches case_counts what [] then i + 1 else 0
strindex_from case_counts what i (c ∷ s) =
    let later = strindex_from case_counts what (i + 1) s in
    if leb (length what) (length s + 1)
    then (if matches case_counts what (c ∷ s) then i + 1 else later)
    else 0

unfoldable pub strindex : Text → Text → Bool → ℕ
strindex source what case_counts = strindex_from case_counts what 0 source

-- The loop of `strrindex`, where `s - source + 1` is the number that counts down.
unfoldable pub strrindex_from : Bool → Text → Text → ℕ → ℕ
strrindex_from case_counts what source zero = 0
strrindex_from case_counts what source (suc k) =
    let earlier = strrindex_from case_counts what source k in
    if matches case_counts what (drop k source) then suc k else earlier

-- `source_len` is the length of the source, or a smaller number that the caller gives.
unfoldable pub strrindex : Text → ℕ → Text → Bool → ℕ
strrindex source source_len what case_counts =
    strrindex_from case_counts what source (source_len + 1 - length what)

-- The loop of `stream_add_strsub`, on fuel: with an empty `what` it does not end.
unfoldable pub stream_add_strsub : ℕ → Text → Text → Text → Bool → Option Text
stream_add_strsub zero source what with_ case_counts = none
stream_add_strsub (suc fuel) [] what with_ case_counts = some []
stream_add_strsub (suc fuel) (c ∷ source) what with_ case_counts =
    let replaced =
      stream_add_strsub fuel (drop (length what) (c ∷ source)) what with_ case_counts in
    let kept = stream_add_strsub fuel source what with_ case_counts in
    if matches case_counts what (c ∷ source)
    then Option.map (λ rest. with_ ++ rest) replaced
    else Option.map (λ rest. c ∷ rest) kept
