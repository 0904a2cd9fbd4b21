-- ===== src/Text/Pieces.antt =====
-- list.cc: ranges and characters of strings.
use stunt.Prelude.{
  ℕ, ◌+◌, ◌-◌, [], ◌∷◌, ◌++◌, Option, length, take, drop, get_elem?, ltb, if◌then◌else◌,
}
use mathlib.Core.Option
use stunt.Text.Case.{Text}

-- The three loops copy what is left of the range, the new value, and what is right of the range.
unfoldable pub strrangeset : Text → ℕ → ℕ → Text → Text
strrangeset base from to value =
    let lenleft = if ltb 1 from then from - 1 else 0 in
    let lenright = if ltb to (length base) then length base - to else 0 in
    take lenleft base ++ (value ++ take lenright (drop to base))

unfoldable pub substr : Text → ℕ → ℕ → Text
substr str lower upper =
    if ltb upper lower then [] else take (upper - lower + 1) (drop (lower - 1) str)

-- `none` is a read outside the string.
unfoldable pub strget : Text → ℕ → Option Text
strget str i = Option.map (λ c. c ∷ []) (get_elem? str (i - 1))
