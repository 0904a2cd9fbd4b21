-- ===== src/Text/Substitute.antt =====
-- list.cc: `substitute`, which fills the parts of a match into a template. The bound on the size of
-- the stream that collects the result is not part of the model.
pub mod Inside
use stunt.Prelude.{
  ℕ, zero, suc, ◌+◌, ◌-◌, Bool, true, false, ◌&&◌, ◌||◌, not, Option, List, [], ◌∷◌, ◌++◌, length,
  get_elem?, ltb, leb, ◌==◌, if◌then◌else◌,
}
use mathlib.Core.Option
use mathlib.Core.Option.{some}
use stunt.Prelude.Int.{ℤ, pos, negsuc, pos_part, ◌+ℤ◌, ◌-ℤ◌, eqb_ℤ, ltb_ℤ}
use stunt.Text.Case.{Text}
use stunt.Value.{Error, e_invarg, Var, Items, int, list, str, nil, cons}
use stunt.Value.Equality.{count}
use stunt.Lists.Builtins.{Reply, make_var_pack, make_error_pack}

unfoldable pub invalid_pair : ℤ → ℤ → ℕ → Bool
invalid_pair num1 num2 max = not (
    (eqb_ℤ num1 (pos 0) && eqb_ℤ num2 (negsuc 0))
    || (ltb_ℤ (pos 0) num1 && not (ltb_ℤ num2 (num1 -ℤ pos 1)) && not (ltb_ℤ (pos max) num2)))

-- A list of two integers.
abbrev pub pair_of : Var → Option (ℤ × ℤ)
pair_of (list (cons (int a) (cons (int b) nil))) = some (a, b)
pair_of _ = Option.none

abbrev pub bad_pair : Option (ℤ × ℤ) → ℕ → Bool
bad_pair Option.none subj_length = true
bad_pair (some (a, b)) subj_length = invalid_pair a b subj_length

-- The loop over the pairs.
unfoldable pub bad_pairs : Items → ℕ → Bool
bad_pairs nil subj_length = false
bad_pairs (cons pair xs) subj_length =
    bad_pair (pair_of pair) subj_length || bad_pairs xs subj_length

-- A match: the first and the last index of the whole, the pairs, and the subject.
pub record Match : Type 0 where
  pub first : ℤ
  pub last : ℤ
  pub pairs : Items
  pub subject : Text

-- The types that `check_subs_list` asks for.
abbrev pub match_of : Var → Option Match
match_of (list (cons (int a) (cons (int b) (cons (list pairs) (cons (str subj) nil))))) =
    some (record { first = a; last = b; pairs = pairs; subject = subj })
match_of _ = Option.none

abbrev pub bad_match : Match → Bool
bad_match m =
    not (count m.pairs == 9)
    || invalid_pair m.first m.last (length m.subject)
    || bad_pairs m.pairs (length m.subject)

-- `true` is an invalid list.
unfoldable pub check_subs_list : Var → Bool
check_subs_list subs = elim (match_of subs) [ Option.none ↦ true | some m ↦ bad_match m ]

unfoldable pub pair_at : Items → ℕ → Option (ℤ × ℤ)
pair_at nil k = Option.none
pair_at (cons v xs) zero = pair_of v
pair_at (cons v xs) (suc k) = pair_at xs k

-- `n` characters from `start` on; `Option.none` is a read outside the string.
unfoldable pub read : Text → ℤ → ℕ → Option Text
read subject (negsuc k) zero = some []
read subject (negsuc k) (suc n) = Option.none
read subject (pos start) zero = some []
read subject (pos start) (suc n) =
    let rest = read subject (pos (start + 1)) n in
    elim (get_elem? subject start) [
      | Option.none ↦ Option.none
      | some c ↦ Option.map (λ t. c ∷ t) rest
    ]

-- `while (start <= end)`, from `num1 - 1` to `num2 - 1`.
abbrev pub range : Text → Option (ℤ × ℤ) → Option Text
range subject Option.none = Option.none
range subject (some (num1, num2)) = read subject (num1 -ℤ pos 1) (pos_part (num2 -ℤ num1 +ℤ pos 1))

-- A part of the result before what follows it.
abbrev pub before : Option Text → Option (Reply Text) → Option (Reply Text)
before Option.none rest = Option.none
before (some s) Option.none = Option.none
before (some s) (some (make_var_pack t)) = some (make_var_pack (s ++ t))
before (some s) (some r) = some r

module _ (subject : Text) (whole : ℤ × ℤ) (pairs : Items) where
  -- The loop over the template; after a `%` at its end the NUL is read, which is no digit.
  unfoldable pub fill : Text → Option (Reply Text)
  fill [] = some (make_var_pack [])
  fill (c ∷ []) =
      if c == b'%' then some (make_error_pack e_invarg) else some (make_var_pack (c ∷ []))
  fill (c ∷ d ∷ t) =
      let plain = fill (d ∷ t) in
      let rest = fill t in
      if not (c == b'%')
      then before (some (c ∷ [])) plain
      else if d == b'%'
      then before (some (b'%' ∷ [])) rest
      else if leb b'1' d && leb d b'9'
      then before (range subject (pair_at pairs (d - b'1'))) rest
      else if d == b'0'
      then before (range subject (some whole)) rest
      else some (make_error_pack e_invarg)

unfoldable pub bf_substitute : Text → Var → Option (Reply Text)
bf_substitute template subs =
    let filled : Option (Reply Text) = elim (match_of subs) [
      | Option.none ↦ Option.none
      | some m ↦ fill m.subject (m.first, m.last) m.pairs template
    ] in
    if check_subs_list subs then some (make_error_pack e_invarg) else filled
