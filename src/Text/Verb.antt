-- ===== src/Text/Verb.antt =====
-- utils.cc: `verbcasecmp`, which says whether a word names a verb.
pub mod Spec
pub mod Accepts
pub mod Names
use stunt.Prelude.{
  ℕ, zero, suc, ◌+◌, Bool, true, false, ◌||◌, not, Option, none, some, List, [], ◌∷◌, length, ◌==◌,
  if◌then◌else◌,
}
use stunt.Text.Case.{Text, cmap}

-- What the last star was: none, one inside the name, one at its end.
pub data Star : Type 0 where
  unstarred inner end : Star

abbrev pub at_end : Text → Bool
at_end [] = true
at_end (c ∷ v) = c == b' '

abbrev pub star_after : Text → Star
star_after v = if at_end v then end else inner

-- Where the inner loop stops: what is left of the verb and of the word, and the last star.
pub record Scan : Type 0 where
  pub v : Text
  pub w : Text
  pub star : Star

-- The inner loop `while (1)`, from the first byte of a name.
pub scan : Text → Text → Star → Scan
unfolding cmap
scan [] w star = record { v = []; w = w; star = star }
scan (c ∷ v) [] star =
    let starred = scan v [] (star_after v) in
    if c == b'*' then starred else record { v = c ∷ v; w = []; star = star }
scan (c ∷ v) (d ∷ w) star =
    let starred = scan v (d ∷ w) (star_after v) in
    let next = scan v w star in
    if c == b'*'
    then starred
    else if c == b' '
    then record { v = c ∷ v; w = d ∷ w; star = star }
    else if cmap d == cmap c
    then next
    else record { v = c ∷ v; w = d ∷ w; star = star }

abbrev pub is_starred : Star → Bool
is_starred unstarred = false
is_starred _ = true

abbrev pub is_end : Star → Bool
is_end end = true
is_end _ = false

-- The test after the inner loop.
pub accepts : Scan → Bool
accepts s = elim s.w [ [] ↦ is_starred s.star || at_end s.v | _ ↦ is_end s.star ]

pub skip_spaces : Text → Text
skip_spaces [] = []
skip_spaces (c ∷ v) = let rest = skip_spaces v in if c == b' ' then rest else c ∷ v

-- The two loops that go on to the next name.
pub skip_name : Text → Text
unfolding skip_spaces
skip_name [] = []
skip_name (c ∷ v) = let rest = skip_name v in if c == b' ' then skip_spaces (c ∷ v) else rest

-- The outer loop on fuel; `none` means that the fuel ran out.
pub names_loop : ℕ → Text → Text → Option Bool
unfolding scan accepts skip_name
names_loop zero v word = none
names_loop (suc f) [] word = some false
names_loop (suc f) (c ∷ v) word =
    let rest = names_loop f (skip_name (scan (c ∷ v) word unstarred).v) word in
    if accepts (scan (c ∷ v) word unstarred) then some true else rest

-- `same` says whether the two arguments are one pointer.
unfoldable pub verbcasecmp : Bool → Text → Text → Option Bool
unfolding names_loop
verbcasecmp same verb word = if same then some true else names_loop (length verb + 1) verb word
