-- ===== src/Value/Equality/Decided.antt =====
-- What `equality` says: values without floats and maps are equal exactly if they are one value, but
-- for the case of letters where it does not matter.
use stunt.Prelude.{
  ℕ, suc, ◌≡◌, ◌↔◌, refl, sym, ap, ◌∙◌, Bool, true, false, ◌&&◌, arith, ◌==◌, if◌then◌else◌,
  &&-true, some_eq,
}
use mathlib.Core.Option.{Option, none, some}
use stunt.Prelude.Int.{eqb_refl, eqb_eq}
use stunt.Text.Case.{Text}
use stunt.Value.{
  Floats, Var, Items, int, obj, str, err, list, clear, catch, finally, float, iter, anon, nil, cons,
}
use stunt.Value.Equality.{count, both, equality, all_equal}
use stunt.Value.Equality.Folded.{are_characters, folded_if, error_code-eq, str_equal-folded}

-- Values of integers, objects, strings, errors, anonymous objects and lists of them.
unfoldable mutual
  pub is_plain : Var → Bool
  is_plain (int a) = true
  is_plain (obj a) = true
  is_plain (str s) = are_characters s
  is_plain (err e) = true
  is_plain (list xs) = all_plain xs
  is_plain (anon p) = true
  is_plain _ = false

  pub all_plain : Items → Bool
  all_plain nil = true
  all_plain (cons v xs) = is_plain v && all_plain xs

-- A value with the capitals in its strings as small letters, where their case does not matter.
unfoldable mutual
  pub fold_case : Bool → Var → Var
  fold_case case_matters (str s) = str (folded_if case_matters s)
  fold_case case_matters (list xs) = list (fold_items case_matters xs)
  fold_case case_matters v = v

  pub fold_items : Bool → Items → Items
  fold_items case_matters nil = nil
  fold_items case_matters (cons v xs) = cons (fold_case case_matters v) (fold_items case_matters xs)

-- What an answer says of a proposition.
abbrev pub Decides {ℓ} : Option Bool → Type ℓ → Type ℓ
Decides answer P = (b : Bool) × (answer ≡ some b) × ((b ≡ true) ↔ P)

decides_by {ℓ} :
    {P : Type ℓ} (answer : Option Bool)
    → (answer ≡ none → ⊥)
    → (answer ≡ some true → P)
    → (P → answer ≡ some true)
    → Decides answer P
decides_by none panics there back = absurd (panics refl)
decides_by (some b) panics there back = (b, refl, (λ h. there (ap some h), λ p. some_eq (back p)))

suc_equal : (a b : ℕ) → (suc a == suc b) ≡ (a == b)
suc_equal a b = ground arith

both_decide {ℓ} :
    {P Q R : Type ℓ} (same : Bool) (first rest : Option Bool)
    → ((P × Q) ↔ R)
    → Decides first P
    → Decides (if same then rest else some false) Q
    → Decides (if same then both first rest else some false) R
both_decide true first rest pair (b, is, iff) (c, is', iff') = (
  b && c,
  rw (is, is') (both-some b c),
  (
    λ e. let (l, r) = &&-true b c e in pair.0 (iff.0 l, iff'.0 r),
    λ p. let (l, r) = pair.1 p in rw (iff.1 l, iff'.1 r),
  ),
)
  where
    both-some : (b c : Bool) → both (some b) (some c) ≡ some (b && c)
    both-some true c = refl
    both-some false c = refl
both_decide false first rest pair d (c, is', iff') =
    (false, refl, (λ e. absurd (cc), λ p. let h = iff'.1 (pair.1 p).1 in some_eq (is' ∙ ap some h)))

module _ (f : Floats) (case_matters : Bool) where
  -- What `listequal` says of two lists, by their elements.
  abbrev Listed : Items → Items → Type 0
  Listed xs ys =
      Decides (if count xs == count ys then all_equal f case_matters xs ys else some false)
        (fold_items case_matters xs ≡ fold_items case_matters ys)

  module _ (xs : Items) (known : (ys : Items) → all_plain ys ≡ true → Listed xs ys) where
    list-answers :
        (ys : Items) → all_plain ys ≡ true → equality f case_matters (list xs) (list ys) ≡ none → ⊥
    unfolding equality count
    list-answers ys k e = let (b, is, iff) = known ys k in absurd (cc (sym e ∙ is))

    list-there :
        (ys : Items)
        → all_plain ys ≡ true
        → equality f case_matters (list xs) (list ys) ≡ some true
        → list (fold_items case_matters xs) ≡ list (fold_items case_matters ys)
    unfolding equality count
    list-there ys k e = let (b, is, iff) = known ys k in ap list (iff.0 (some_eq (sym is ∙ e)))

    list-back :
        (ys : Items)
        → all_plain ys ≡ true
        → fold_items case_matters xs ≡ fold_items case_matters ys
        → equality f case_matters (list xs) (list ys) ≡ some true
    unfolding equality count
    list-back ys k e = let (b, is, iff) = known ys k in is ∙ ap some (iff.1 e)

    list-decides :
        (w : Var)
        → is_plain w ≡ true
        → Decides
            (equality f case_matters (list xs) w)
            (fold_case case_matters (list xs) ≡ fold_case case_matters w)
    unfolding equality fold_case is_plain count
    list-decides w k =
        decides_by _ (λ e. grind (arith, list-answers)) (λ e. grind (arith, list-there))
          (λ e. grind (arith, list-back))

  str-there :
      (s t : Text)
      → are_characters s ≡ true
      → are_characters t ≡ true
      → equality f case_matters (str s) (str t) ≡ some true
      → str (folded_if case_matters s) ≡ str (folded_if case_matters t)
  str-there s t h k e = ap str ((str_equal-folded f case_matters s t h k).0 e)

  str-back :
      (s t : Text)
      → are_characters s ≡ true
      → are_characters t ≡ true
      → folded_if case_matters s ≡ folded_if case_matters t
      → equality f case_matters (str s) (str t) ≡ some true
  str-back s t h k e = (str_equal-folded f case_matters s t h k).1 e

  str-decides :
      (s : Text) (w : Var)
      → is_plain (str s) ≡ true
      → is_plain w ≡ true
      → Decides
          (equality f case_matters (str s) w)
          (fold_case case_matters (str s) ≡ fold_case case_matters w)
  unfolding equality fold_case is_plain
  str-decides s w h k =
      decides_by _ (λ e. grind arith) (λ e. grind (arith, str-there)) (λ e. grind (arith, str-back))

  mutual
    unfolding equality fold_case is_plain count

    equality_decides :
        (v w : Var)
        → is_plain v ≡ true
        → is_plain w ≡ true
        → Decides
            (equality f case_matters v w)
            (fold_case case_matters v ≡ fold_case case_matters w)
    equality_decides (int a) w h k =
        decides_by _ (λ e. grind arith) (λ e. grind (arith, eqb_eq)) (λ e. grind (arith, eqb_refl))
    equality_decides (obj a) w h k =
        decides_by _ (λ e. grind arith) (λ e. grind (arith, eqb_eq)) (λ e. grind (arith, eqb_refl))
    equality_decides (str s) w h k = str-decides s w h k
    equality_decides (err a) w h k =
        decides_by _ (λ e. grind arith) (λ e. grind (arith, error_code-eq)) (λ e. grind arith)
    equality_decides (list xs) w h k = list-decides xs (λ ys l. all_equal_decides xs ys h l) w k
    equality_decides (anon a) w h k =
        decides_by _ (λ e. grind arith) (λ e. grind arith) (λ e. grind arith)
    equality_decides clear w h k = absurd (cc)
    equality_decides Var.none w h k = absurd (cc)
    equality_decides (catch a) w h k = absurd (cc)
    equality_decides (finally a) w h k = absurd (cc)
    equality_decides (float a) w h k = absurd (cc)
    equality_decides (Var.map t n) w h k = absurd (cc)
    equality_decides (iter a) w h k = absurd (cc)

    all_equal_decides : (xs ys : Items) → all_plain xs ≡ true → all_plain ys ≡ true → Listed xs ys
    all_equal_decides nil nil h k = (true, refl, (λ e. refl, λ e. refl))
    all_equal_decides nil (cons w ys) h k =
        (false, ground arith, (λ e. absurd (cc), λ e. absurd (cc)))
    all_equal_decides (cons v xs) nil h k =
        (false, ground arith, (λ e. absurd (cc), λ e. absurd (cc)))
    all_equal_decides (cons v xs) (cons w ys) h k =
        let (hv, hx) = &&-true _ _ h in
        let (kw, ky) = &&-true _ _ k in
        rw (suc_equal (count xs) (count ys)) (
          both_decide (count xs == count ys) (equality f case_matters v w)
            (all_equal f case_matters xs ys) ((λ p. λ i. cons (p.0 i) (p.1 i)), (λ e. (cc, cc)))
            (equality_decides v w hv kw) (all_equal_decides xs ys hx ky))

-- Of two values that are made of integers, object numbers, strings, errors, anonymous objects and lists
-- of such values, `equality` does not panic, and it answers yes exactly if they are one value, up to
-- the case of letters if that does not matter. The strings hold bytes other than NUL.
pub equality-is_plain :
    (f : Floats) (case_matters : Bool) (v w : Var)
    → is_plain v ≡ true
    → is_plain w ≡ true
    → Decides (equality f case_matters v w) (fold_case case_matters v ≡ fold_case case_matters w)
equality-is_plain f case_matters v w h k = equality_decides f case_matters v w h k
