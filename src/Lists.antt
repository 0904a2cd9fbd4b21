-- ===== src/Lists.antt =====
-- list.cc and collection.cc: the operations on MOO lists. A list is the sequence of its elements,
-- without the length that the program keeps in element 0; positions count from 1.
pub mod Sets
pub mod Values
pub mod Examples
pub mod Ranges
pub mod Positions
pub mod Builtins
use stunt.Prelude.{
  ℕ, zero, suc, ◌+◌, ◌-◌, ◌≤◌, ◌<◌, Bool, true, false, ◌&&◌, List, [], ◌∷◌, ◌++◌, length, set, take,
  drop, ltb, leb, ◌==◌, if◌then◌else◌,
}
use stunt.Prelude.Int.{ℤ, pos, negsuc}

-- A position as `listinsert` takes it: within 1 and one past the end.
unfoldable pub clamp : ℤ → ℕ → ℕ
clamp (negsuc n) size = 1
clamp (pos zero) size = 1
clamp (pos (suc n)) size = if ltb size (suc n) then size + 1 else suc n

module _ {ℓ} {A : Type ℓ} where
  -- The loop of `ismember` over a list, from position i; `eq` is `equality`.
  pub ismember_from : (A → A → Bool) → ℕ → A → List A → ℕ
  ismember_from eq i value [] = 0
  ismember_from eq i value (x ∷ xs) =
      let later = ismember_from eq (suc i) value xs in if eq value x then i else later

  unfoldable pub ismember : (A → A → Bool) → A → List A → ℕ
  unfolding ismember_from
  ismember eq value xs = ismember_from eq 1 value xs

  -- `refs` is the list's reference count: a list that nobody else holds grows in place.
  unfoldable pub doinsert : ℕ → List A → A → ℕ → List A
  doinsert refs xs value p =
      if (refs == 1) && (p == length xs + 1)
      then xs ++ value ∷ []
      else take (p - 1) xs ++ (value ∷ drop (p - 1) xs)

  unfoldable pub listinsert : ℕ → List A → A → ℤ → List A
  unfolding doinsert clamp
  listinsert refs xs value p = doinsert refs xs value (clamp p (length xs))

  unfoldable pub listappend : ℕ → List A → A → List A
  unfolding doinsert
  listappend refs xs value = doinsert refs xs value (length xs + 1)

  unfoldable pub listdelete : List A → ℕ → List A
  listdelete xs p = take (p - 1) xs ++ drop p xs

  -- A list that somebody else holds is copied before the element is replaced.
  unfoldable pub listset : List A → A → ℕ → List A
  listset xs value p = set xs (p - 1) value

  unfoldable pub listconcat : List A → List A → List A
  listconcat first second = first ++ second

  -- The three loops copy what is left of the range, the new value, and what is right of the range.
  unfoldable pub listrangeset : List A → ℕ → ℕ → List A → List A
  listrangeset base from to value =
      let lenleft = if ltb 1 from then from - 1 else 0 in
      let lenright = if ltb to (length base) then length base - to else 0 in
      take lenleft base ++ (value ++ take lenright (drop to base))

  unfoldable pub sublist : List A → ℕ → ℕ → List A
  sublist xs lower upper =
      if ltb upper lower then [] else take (upper - lower + 1) (drop (lower - 1) xs)

  unfoldable pub setadd : (A → A → Bool) → ℕ → List A → A → List A
  unfolding ismember listappend
  setadd eq refs xs value = if ismember eq value xs == 0 then listappend refs xs value else xs

  unfoldable pub setremove : (A → A → Bool) → List A → A → List A
  unfolding ismember listdelete
  setremove eq xs value =
      if ismember eq value xs == 0 then xs else listdelete xs (ismember eq value xs)
