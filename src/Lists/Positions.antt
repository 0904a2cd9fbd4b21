-- ===== src/Lists/Positions.antt =====
-- An element that is inserted stands at its position, and its deletion gives the list back.
use stunt.Prelude.{
  ℕ, zero, suc, ◌+◌, ◌-◌, ◌≤◌, ◌<◌, ◌≡◌, refl, ap, Bool, false, ◌&&◌, ◌||◌, some, List, [], ◌∷◌,
  ◌++◌, arith, length, take, drop, get_elem?, ltb, leb, ◌==◌, Bool-cases, inl, inr,
}
use stunt.Prelude.Int.{pos, ◌+ℤ◌, int_laws}
use stunt.Int32.{wrap32}
use stunt.Int32.Congruence.{wrap32_fits}
use stunt.Lists.{clamp, doinsert, listdelete}
use stunt.Lists.Ranges.{take-take_append}
use stunt.Lists.Builtins.{
  make_var_pack, within_limit, make_space_pack, bf_listinsert, bf_listdelete, insert_or_append,
}

-- The position as the insertion takes it.
inserted_at :
    (n size : ℕ) → n ≤ size → n < 2147483647 → clamp (wrap32 (pos (suc n) +ℤ pos 0)) size ≡ suc n
unfolding clamp
inserted_at n size h k =
    let same : pos (suc n) +ℤ pos 0 ≡ pos (suc n) = omega int_laws in
    rw (same, wrap32_fits (pos (suc n)) (record { above = omega arith; below = omega arith }))
      (ground arith)

inside : (n size : ℕ) → suc n ≤ size → (suc n == 0) || ltb size (suc n) ≡ false
inside n size h = ground arith

module _ {ℓ} {A : Type ℓ} where
  drop_past :
      (n : ℕ) (xs : List A) (v : A)
      → n ≤ length xs
      → drop (suc n) (take n xs ++ (v ∷ drop n xs)) ≡ drop n xs
  drop_past zero xs v h = refl
  drop_past (suc n) [] v h = absurd (omega arith)
  drop_past (suc n) (x ∷ xs) v h = drop_past n xs v (omega arith)

  get_inserted :
      (n : ℕ) (xs : List A) (v : A)
      → n ≤ length xs
      → get_elem? (take n xs ++ (v ∷ drop n xs)) n ≡ some v
  get_inserted zero xs v h = refl
  get_inserted (suc n) [] v h = absurd (omega arith)
  get_inserted (suc n) (x ∷ xs) v h = get_inserted n xs v (omega arith)

  drop_whole : (xs : List A) (n : ℕ) → n ≡ length xs → drop n xs ≡ []
  drop_whole [] zero h = refl
  drop_whole [] (suc n) h = refl
  drop_whole (x ∷ xs) zero h = absurd (omega arith)
  drop_whole (x ∷ xs) (suc n) h = drop_whole xs n (omega arith)

  take_whole : (xs : List A) (n : ℕ) → n ≡ length xs → take n xs ≡ xs
  take_whole [] zero h = refl
  take_whole [] (suc n) h = refl
  take_whole (x ∷ xs) zero h = absurd (omega arith)
  take_whole (x ∷ xs) (suc n) h = ap (λ t. x ∷ t) (take_whole xs n (omega arith))

  take_rest : (n : ℕ) (xs : List A) → take n xs ++ drop n xs ≡ xs
  take_rest zero xs = refl
  take_rest (suc n) [] = refl
  take_rest (suc n) (x ∷ xs) = ap (λ t. x ∷ t) (take_rest n xs)

  -- In place or by copying, an insertion gives one list.
  pub doinsert_lem :
      (refs : ℕ) (xs : List A) (v : A) (p : ℕ)
      → doinsert refs xs v p ≡ take (p - 1) xs ++ (v ∷ drop (p - 1) xs)
  unfolding doinsert
  doinsert_lem refs xs v p = elim (Bool-cases ((refs == 1) && (p == length xs + 1))) [
    | inl grows ↦
        let e : p - 1 ≡ length xs = ground arith in
        rw (grows, take_whole xs (p - 1) e, drop_whole xs (p - 1) e)
    | inr copies ↦ rw copies
  ]

  listdelete-doinsert :
      (refs : ℕ) (xs : List A) (v : A) (n : ℕ)
      → n ≤ length xs
      → listdelete (doinsert refs xs v (suc n)) (suc n) ≡ xs
  unfolding listdelete
  listdelete-doinsert refs xs v n h =
      let e : suc n - 1 ≡ n = omega arith in
      rw (
        doinsert_lem refs xs v (suc n),
        e,
        take-take_append n xs (v ∷ drop n xs) h,
        drop_past n xs v h,
        take_rest n xs,
      )

  length_inserted :
      (n : ℕ) (xs : List A) (v : A)
      → n ≤ length xs
      → length (take n xs ++ (v ∷ drop n xs)) ≡ suc (length xs)
  length_inserted zero xs v h = refl
  length_inserted (suc n) [] v h = absurd (omega arith)
  length_inserted (suc n) (x ∷ xs) v h = ap suc (length_inserted n xs v (omega arith))

  length-doinsert :
      (refs : ℕ) (xs : List A) (v : A) (n : ℕ)
      → n ≤ length xs
      → suc n ≤ length (doinsert refs xs v (suc n))
  length-doinsert refs xs v n h =
      let e : suc n - 1 ≡ n = omega arith in
      rw (doinsert_lem refs xs v (suc n), e, length_inserted n xs v h) (omega arith)

  within_limit-value :
      (value_bytes : List A → ℕ) (limit : ℕ) (catchable : Bool) (r ys : List A)
      → within_limit value_bytes limit catchable r ≡ make_var_pack ys
      → r ≡ ys
  unfolding within_limit make_space_pack
  within_limit-value value_bytes limit catchable r ys e =
      elim (Bool-cases (leb (value_bytes r) limit)) [
        | inl fits ↦ made (rw fits at e)
        | inr large ↦ elim (Bool-cases catchable) [ inl raised ↦ cc | inr aborted ↦ cc ]
      ]
    where
      made : {a b : List A} → make_var_pack a ≡ make_var_pack b → a ≡ b
      made {a} {b} e = cc

  -- The insertion at a position from 1 up to one past the end, and at most MAXINT, when its result is within the limit:
  -- the new list has the element at that position, and bf_listdelete there answers with the list
  -- before, under the same limit. It holds whether or not the list was shared.
  pub bf_listdelete-bf_listinsert :
      (value_bytes : List A → ℕ) (limit : ℕ) (catchable : Bool) (refs : ℕ) (xs ys : List A) (v : A)
      (n : ℕ)
      → n ≤ length xs
      → n < 2147483647
      → bf_listinsert value_bytes limit catchable refs xs v (some (pos (suc n))) ≡ make_var_pack ys
      → (get_elem? ys n ≡ some v)
        × (bf_listdelete value_bytes limit catchable ys (pos (suc n))
            ≡ within_limit value_bytes limit catchable xs)
  unfolding bf_listinsert insert_or_append bf_listdelete
  bf_listdelete-bf_listinsert value_bytes limit catchable refs xs ys v n h k e =
      let sized : suc n ≤ length (doinsert refs xs v (suc n)) = length-doinsert refs xs v n h in
      let less : suc n - 1 ≡ n = omega arith in
      let made : doinsert refs xs v (suc n) ≡ ys =
        within_limit-value value_bytes limit catchable _ ys
          (rw (inserted_at n (length xs) h k) at e) in
      (
        rw (← made, doinsert_lem refs xs v (suc n), less) (get_inserted n xs v h),
        rw (
          ← made,
          inside n (length (doinsert refs xs v (suc n))) sized,
          listdelete-doinsert refs xs v n h,
        ),
      )
