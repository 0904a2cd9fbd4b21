-- ===== src/Lists/Examples.antt =====
-- The operations on lists, on lists of numbers.
use stunt.Prelude.{
  ℕ, ◌+◌, ◌-◌, ◌≡◌, refl, true, some, List, [], ◌∷◌, arith, length, take, get_elem?, ◌==◌,
  if◌then◌else◌,
}
use stunt.Prelude.Int.{pos, ◌+ℤ◌}
use stunt.Int32.{wrap32, bits, signed32}
use stunt.Lists.{clamp, doinsert, listrangeset, sublist, setadd, setremove}
use stunt.Value.{int, str}
use stunt.Value.Sample.{whole_floats}
use stunt.Value.Equality.Folded.{are_characters}
use stunt.Value.Equality.Decided.{is_plain}
use stunt.Lists.Sets.{count}
use stunt.Lists.Values.{Plain, is_member_equal, count-setadd_and_setremove}
use stunt.Lists.Ranges.{sublist-listrangeset}
use stunt.Lists.Builtins.{
  make_var_pack, within_limit, bf_listinsert, bf_listdelete, insert_or_append,
}
use stunt.Lists.Positions.{bf_listdelete-bf_listinsert}

abbrev four : List ℕ
four = 7 ∷ 8 ∷ 9 ∷ 10 ∷ []

abbrev five : List ℕ
five = 7 ∷ 8 ∷ 0 ∷ 9 ∷ 10 ∷ []

sublist-listrangeset_example :
    (sublist (listrangeset four 2 3 (1 ∷ 2 ∷ 3 ∷ [])) 2 4 ≡ 1 ∷ 2 ∷ 3 ∷ [])
    × (take 1 (listrangeset four 2 3 (1 ∷ 2 ∷ 3 ∷ [])) ≡ 7 ∷ [])
    × (length (listrangeset four 2 3 (1 ∷ 2 ∷ 3 ∷ [])) ≡ 5)
sublist-listrangeset_example =
    sublist-listrangeset four (1 ∷ 2 ∷ 3 ∷ []) 2 3 (omega arith) (omega arith)

inserted : bf_listinsert length 10 true 2 four 0 (some (pos 3)) ≡ make_var_pack five
unfolding bf_listinsert insert_or_append within_limit clamp wrap32 bits signed32 ◌+ℤ◌ doinsert
inserted = refl

bf_listdelete-bf_listinsert_example :
    (get_elem? five 2 ≡ some 0)
    × (bf_listdelete length 10 true five (pos 3) ≡ within_limit length 10 true four)
bf_listdelete-bf_listinsert_example =
    bf_listdelete-bf_listinsert length 10 true 2 four five 0 2 (omega arith) (omega arith) inserted

small-is_plain : is_plain (str (97 ∷ [])) ≡ true
unfolding is_plain are_characters
small-is_plain = refl

capital-is_plain : is_plain (str (65 ∷ [])) ≡ true
unfolding is_plain are_characters
capital-is_plain = refl

abbrev small : Plain
small = record { held = str (97 ∷ []); plain = small-is_plain }

abbrev capital : Plain
capital = record { held = str (65 ∷ []); plain = capital-is_plain }

-- `a`, 3, `A`
abbrev mixed : List Plain
mixed = small ∷ record { held = int (pos 3); plain = unfold is_plain in refl } ∷ capital ∷ []

-- `a` is taken away once for `A`.
count-setadd_and_setremove_example :
    (count
        (is_member_equal whole_floats)
        small
        (setadd (is_member_equal whole_floats) 1 mixed capital)
      ≡ count (is_member_equal whole_floats) small mixed
        + (if count (is_member_equal whole_floats) capital mixed == 0
            then (if is_member_equal whole_floats small capital then 1 else 0)
            else 0))
    × (count
          (is_member_equal whole_floats)
          small
          (setremove (is_member_equal whole_floats) mixed capital)
        ≡ count (is_member_equal whole_floats) small mixed
          - (if is_member_equal whole_floats small capital
              then (if count (is_member_equal whole_floats) capital mixed == 0 then 0 else 1)
              else 0))
count-setadd_and_setremove_example = count-setadd_and_setremove whole_floats 1 capital small mixed
