-- ===== src/Value/Examples.antt =====
-- The comparisons, on values.
use stunt.Prelude.{◌≡◌, refl, true, false, [], ◌∷◌, arith, if◌then◌else◌}
use mathlib.Core.Option.{some}
use stunt.Prelude.Int.{ℤ, pos, negsuc, ◌-ℤ◌, ltb_ℤ}
use stunt.Text.Case.{mystrcasecmp}
use stunt.Int32.{maxint}
use stunt.Value.{Var, int, str, list, nil, cons}
use stunt.Value.Equality.{equality, count}
use stunt.Value.Equality.Folded.{are_characters}
use stunt.Value.Equality.Decided.{is_plain, fold_case, Decides, equality-is_plain}
use stunt.Value.Sample.{whole_floats}
use stunt.Value.Compare.{compare}
use stunt.Value.Compare.Order.{fits, compare-int}

compare-int_example :
    (r : ℤ) × (compare whole_floats mystrcasecmp true true (int maxint) (int (negsuc 0)) ≡ some r)
    × (ltb_ℤ r (pos 0)
        ≡ (if fits (maxint -ℤ negsuc 0) then ltb_ℤ maxint (negsuc 0) else ltb_ℤ (negsuc 0) maxint))
compare-int_example =
    compare-int whole_floats mystrcasecmp true true maxint (negsuc 0)
      (record { above = omega arith; below = omega arith })
      (record { above = omega arith; below = omega arith })

-- The list {1, {"a"}}.
abbrev nested : Var
nested = list (cons (int (pos 1)) (cons (list (cons (str (97 ∷ [])) nil)) nil))

nested-is_plain : is_plain nested ≡ true
unfolding is_plain are_characters
nested-is_plain = refl

-- The list {1, {"A"}}.
abbrev nested_capital : Var
nested_capital = list (cons (int (pos 1)) (cons (list (cons (str (65 ∷ [])) nil)) nil))

nested_capital-is_plain : is_plain nested_capital ≡ true
unfolding is_plain are_characters
nested_capital-is_plain = refl

equality-is_plain_example :
    Decides
      (equality whole_floats false nested nested_capital)
      (fold_case false nested ≡ fold_case false nested_capital)
equality-is_plain_example =
    equality-is_plain whole_floats false nested nested_capital nested-is_plain
      nested_capital-is_plain

capital_found : equality whole_floats false nested nested_capital ≡ some true
unfolding equality mystrcasecmp count
capital_found = refl
