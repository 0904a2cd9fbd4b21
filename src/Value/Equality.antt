-- ===== src/Value/Equality.antt =====
-- utils.cc, list.cc, map.cc: `equality`, `listequal`, `mapequal`.
pub mod Folded
pub mod Decided
use stunt.Prelude.{ℕ, suc, Bool, true, false, ◌&&◌, List, [], ◌∷◌, ◌++◌, ◌==◌, if◌then◌else◌}
use mathlib.Core.Option.{Option, some}
use stunt.Prelude.Int.{pos, eqb_ℤ}
use stunt.Text.Case.{Text, mystrcasecmp}
use stunt.Value.{
  Floats, error_code, Var, Items, Node, int, obj, str, err, list, clear, catch, finally, float,
  iter, anon, nil, cons, leaf, node,
}

unfoldable pub strcmp_eq : Text → Text → Bool
strcmp_eq [] [] = true
strcmp_eq (x ∷ s) (y ∷ t) = (x == y) && strcmp_eq s t
strcmp_eq _ _ = false

unfoldable pub count : Items → ℕ
count nil = 0
count (cons v xs) = suc (count xs)

-- The keys and the values of a map in ascending order.
unfoldable pub entries : Node → List (Var × Var)
entries leaf = []
entries (node red key value l r) = entries l ++ ((key, value) ∷ entries r)

-- `none` is a panic. `a && b` of two tests that can panic: the second is not made after a failure.
abbrev pub both : Option Bool → Option Bool → Option Bool
both Option.none b = Option.none
both (some false) b = some false
both (some true) b = b

-- What is left of the other map after one was walked, if all entries were equal.
abbrev pub Walk : Type 0
Walk = Option (Option (List (Var × Var)))

abbrev pub finished : Walk → Option Bool
finished Option.none = Option.none
finished (some Option.none) = some false
finished (some (some [])) = some true
finished (some (some (e ∷ rest))) = some false

module _ (f : Floats) (case_matters : Bool) where
  abbrev str_equal : Text → Text → Bool
  str_equal s t = if case_matters then strcmp_eq s t else eqb_ℤ (mystrcasecmp s t) (pos 0)

  unfoldable mutual
    pub equality : Var → Var → Option Bool
    equality (int a) (int b) = some (eqb_ℤ a b)
    equality (obj a) (obj b) = some (eqb_ℤ a b)
    equality (str s) (str t) = some (str_equal s t)
    equality (err a) (err b) = some (error_code a == error_code b)
    equality (list xs) (list ys) =
        let same = all_equal xs ys in if count xs == count ys then same else some false
    equality clear clear = some true
    equality Var.none Var.none = some true
    equality (catch a) (catch b) = Option.none
    equality (finally a) (finally b) = Option.none
    equality (float a) (float b) = some (f.equal a b)
    equality (Var.map t n) (Var.map u m) = finished (walk t (entries u))
    equality (iter a) (iter b) = Option.none
    equality (anon a) (anon b) = some (a == b)
    equality _ _ = some false

    pub all_equal : Items → Items → Option Bool
    all_equal nil ys = some true
    all_equal (cons v xs) nil = some true
    all_equal (cons v xs) (cons w ys) = both (equality v w) (all_equal xs ys)

    pub walk : Node → List (Var × Var) → Walk
    walk leaf rest = some (some rest)
    walk (node red key value l r) rest = elim (walk l rest) [
      | Option.none ↦ Option.none
      | some Option.none ↦ some Option.none
      | some (some []) ↦ some Option.none
      | some (some ((k, v) ∷ more)) ↦ elim (both (equality key k) (equality value v)) [
        | Option.none ↦ Option.none
        | some false ↦ some Option.none
        | some true ↦ walk r more
      ]
    ]
