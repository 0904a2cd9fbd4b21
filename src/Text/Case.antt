-- ===== src/Text/Case.antt =====
-- utils.cc: the case-folding table, the comparisons that ignore case, and the string hash.
use stunt.Prelude.{
  ℕ, zero, suc, ◌+◌, ◌-◌, ◌*◌, ◌/◌, ◌%◌, ◌^◌, ◌&&◌, List, [], ◌∷◌, ltb, leb, ◌==◌, if◌then◌else◌,
}
use stunt.Prelude.Int.{ℤ, pos, sub_ℕ, ◌-ℤ◌}

-- A string of bytes.
abbrev pub Text : Type 0
Text = List ℕ

-- The table `cmap`: ASCII capitals go to small letters, every other byte to itself.
unfoldable pub cmap : ℕ → ℕ
cmap c = if leb 65 c && leb c 90 then c + 32 else c

-- An entry of `cmap` as the signed `char` that it is.
unfoldable pub schar : ℕ → ℤ
schar c = if ltb c 128 then pos c else sub_ℕ c 256

unfoldable pub mystrcasecmp : Text → Text → ℤ
unfolding cmap schar ◌-ℤ◌
mystrcasecmp [] [] = pos 0
mystrcasecmp [] (y ∷ t) = pos 0 -ℤ schar (cmap y)
mystrcasecmp (x ∷ s) [] = schar (cmap x)
mystrcasecmp (x ∷ s) (y ∷ t) =
    let rest = mystrcasecmp s t in
    if cmap x == cmap y then rest else schar (cmap x) -ℤ schar (cmap y)

unfoldable pub mystrncasecmp : Text → Text → ℕ → ℤ
unfolding cmap schar ◌-ℤ◌
mystrncasecmp s t zero = pos 0
mystrncasecmp [] [] (suc n) = pos 0
mystrncasecmp [] (y ∷ t) (suc n) = pos 0 -ℤ schar (cmap y)
mystrncasecmp (x ∷ s) [] (suc n) = schar (cmap x)
mystrncasecmp (x ∷ s) (y ∷ t) (suc n) =
    let rest = mystrncasecmp s t n in
    if cmap x == cmap y then rest else schar (cmap x) -ℤ schar (cmap y)

-- An entry of `cmap` converted to `unsigned`: a negative `char` is sign-extended.
abbrev extended : ℕ → ℕ
extended c = if ltb c 128 then c else c + (2 ^ 32 - 256)

hash_step : ℕ → ℕ → ℕ
unfolding cmap
hash_step ans c = (ans * 8 % 2 ^ 32 + ans / 2 ^ 28 + extended (cmap c)) % 2 ^ 32

str_hash_from : ℕ → Text → ℕ
unfolding hash_step
str_hash_from ans [] = ans
str_hash_from ans (c ∷ s) = str_hash_from (hash_step ans c) s

unfoldable pub str_hash : Text → ℕ
unfolding str_hash_from
str_hash s = str_hash_from 0 s
