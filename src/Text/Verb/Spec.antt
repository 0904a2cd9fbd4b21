-- ===== src/Text/Verb/Spec.antt =====
-- What a verb's name says of the words that it matches.
use stunt.Prelude.{
  ℕ, ◌+◌, ◌≡◌, Bool, true, false, ◌&&◌, ◌||◌, List, [], ◌∷◌, ◌++◌, leb, length, ◌==◌, if◌then◌else◌,
}
use stunt.Text.Case.{Text, cmap}
use stunt.Text.Verb.{at_end}

-- The name without its stars.
unfoldable pub letters : Text → Text
letters [] = []
letters (c ∷ n) = let rest = letters n in if c == b'*' then rest else c ∷ rest

-- How many letters stand before the first star, or all of them.
unfoldable pub required : Text → ℕ
required [] = 0
required (c ∷ n) = let rest = required n in if c == b'*' then 0 else rest + 1

unfoldable pub ends_in_star : Text → Bool
ends_in_star [] = false
ends_in_star (c ∷ []) = c == b'*'
ends_in_star (c ∷ d ∷ n) = ends_in_star (d ∷ n)

-- The first text begins the second, case aside.
unfoldable pub begins : Text → Text → Bool
begins [] t = true
begins (x ∷ s) [] = false
begins (x ∷ s) (y ∷ t) = (cmap x == cmap y) && begins s t

-- A word is a beginning of the letters that takes in the required ones, or, if the name ends in a
-- star, an extension of the letters.
abbrev pub name_matches : Text → Text → Bool
name_matches n w =
    (begins w (letters n) && leb (required n) (length w))
    || (ends_in_star n && begins (letters n) w)

abbrev pub NoSpace : Text → Type 0
NoSpace [] = Unit {0}
NoSpace (c ∷ n) = ((c == b' ') ≡ false) × NoSpace n

-- The text of a verb that has several names.
abbrev pub join : List Text → Text
join [] = []
join (n ∷ []) = n
join (n ∷ m ∷ r) = n ++ (b' ' ∷ join (m ∷ r))

abbrev pub AreNames : List Text → Type 0
AreNames [] = Unit {0}
AreNames ([] ∷ r) = ⊥
AreNames ((c ∷ n) ∷ r) = NoSpace (c ∷ n) × AreNames r

abbrev pub any_matches : List Text → Text → Bool
any_matches [] w = false
any_matches (n ∷ r) w = name_matches n w || any_matches r w

-- Where a name ends: at the end of the verb, or at a space.
abbrev pub Ends : Text → Type 0
Ends v = at_end v ≡ true
