-- ===== src/Lists/Values.antt =====
-- list.cc: lists of values used as sets, with the comparison that `setadd` and `setremove` make.
use stunt.Prelude.{
  ℕ, ◌+◌, ◌-◌, ◌≡◌, ◌↔◌, refl, sym, ◌∙◌, Bool, true, false, List, ◌==◌, if◌then◌else◌,
}
use mathlib.Core.Option.{Option, none, some}
use stunt.Value.{Var, Floats}
use stunt.Value.Equality.{equality}
use stunt.Value.Equality.Decided.{is_plain, fold_case, equality-is_plain}
use stunt.Lists.{setadd, setremove}
use stunt.Lists.Sets.{IsCongruent, count, count-setadd, count-setremove}

-- A value of integers, object numbers, strings, errors, anonymous objects and lists of these.
pub record Plain : Type 0 where
  pub held : Var
  pub plain : is_plain held ≡ true

abbrev pub is_yes : Option Bool → Bool
is_yes (some b) = b
is_yes none = false

-- `equality(lhs, rhs, 0)`
unfoldable pub is_member_equal : Floats → Plain → Plain → Bool
is_member_equal f v w = is_yes (equality f false v.held w.held)

is_member_equal_iff :
    (f : Floats) (v w : Plain)
    → (is_member_equal f v w ≡ true) ↔ (fold_case false v.held ≡ fold_case false w.held)
unfolding is_member_equal
is_member_equal_iff f v w =
    let (b, is, iff) = equality-is_plain f false v.held w.held v.plain w.plain in rw is iff

same_answer : (a b : Bool) → (a ≡ true → b ≡ true) → (b ≡ true → a ≡ true) → a ≡ b
same_answer true b there back = sym (there refl)
same_answer false true there back = back refl
same_answer false false there back = refl

is_member_equal-IsCongruent : (f : Floats) → IsCongruent (is_member_equal f)
is_member_equal-IsCongruent f a b c h =
    let ab = (is_member_equal_iff f a b).0 h in
    let iff : (v w : Plain) → _ = is_member_equal_iff f in
    (
      same_answer _ _ (λ e. (iff b c).1 (sym ab ∙ (iff a c).0 e))
          (λ e. (iff a c).1 (ab ∙ (iff b c).0 e)),
      same_answer _ _ (λ e. (iff c b).1 ((iff c a).0 e ∙ ab))
          (λ e. (iff c a).1 ((iff c b).0 e ∙ sym ab)),
    )

-- How often a list of values of integers, object numbers, strings, errors, anonymous objects and lists
-- of these holds something equal to w, without regard to the case of letters: after v is added as to a
-- set, once more than before if w is equal to v and nothing in the list is equal to v; after v is
-- removed as from a set, once less if w is equal to v and something equal to v was there; and otherwise
-- as often as before.
pub count-setadd_and_setremove :
    (f : Floats) (refs : ℕ) (v w : Plain) (xs : List Plain)
    → let eq = is_member_equal f in
      (count eq w (setadd eq refs xs v)
        ≡ count eq w xs + (if count eq v xs == 0 then (if eq w v then 1 else 0) else 0))
      × (count eq w (setremove eq xs v)
          ≡ count eq w xs - (if eq w v then (if count eq v xs == 0 then 0 else 1) else 0))
count-setadd_and_setremove f refs v w xs = (
  count-setadd (is_member_equal f) refs v w xs,
  count-setremove (is_member_equal f) (is_member_equal-IsCongruent f) v w xs,
)
