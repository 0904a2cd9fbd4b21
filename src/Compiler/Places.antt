-- ===== src/Compiler/Places.antt =====
-- How the functions of code_gen.cc that emit extend the cells.
use stunt.Prelude.{
  ℕ, zero, suc, ◌≡◌, ◌<◌, refl, sym, ap, subst, ◌∙◌, List, [], ◌∷◌, ◌++◌, arith, length,
  length-append, get_elem?, set,
}
use mathlib.Core.Option.{Option, none, some}
use stunt.Compiler.State.{Refs, Fixup, Cell, ref, State}
use stunt.Compiler.Emit.{resolve, define_chain, define_label}

get_elem?-middle :
    (xs : List Cell) (c : Cell) (ys : List Cell) → get_elem? (xs ++ (c ∷ ys)) (length xs) ≡ some c
get_elem?-middle [] c ys = refl
get_elem?-middle (x ∷ xs) c ys = get_elem?-middle xs c ys

set-middle :
    (xs : List Cell) (c d : Cell) (ys : List Cell)
    → set (xs ++ (c ∷ ys)) (length xs) d ≡ xs ++ (d ∷ ys)
set-middle [] c d ys = refl
set-middle (x ∷ xs) c d ys = ap (λ t. x ∷ t) (set-middle xs c d ys)

chain_none :
    (fuel value : ℕ) (prev : Refs) (label : Option ℕ) (cells : List Cell)
    → label ≡ none
    → define_chain fuel value prev label cells ≡ cells
unfolding define_chain
chain_none zero value prev label cells h = refl
chain_none (suc fuel) value prev none cells h = refl
chain_none (suc fuel) value prev (some i) cells h = cc

chain_one :
    (fuel value : ℕ) (prev : Refs) (xs ys : List Cell) (f : Fixup)
    → 0 < fuel
    → f.next ≡ none
    → define_chain fuel value prev (some (length xs)) (xs ++ (ref f ∷ ys))
      ≡ xs ++ (ref (resolve value prev f) ∷ ys)
unfolding define_chain
chain_one zero value prev xs ys f p h = absurd (omega (arith, p))
chain_one (suc fuel) value prev xs ys f p h =
    rw (get_elem?-middle xs (ref f) ys, define_chain)
      (chain_none fuel value prev f.next _ h ∙ set-middle xs (ref f) _ ys)

-- A label that is no chain is defined at its place.
pub define_label-bytes :
    (s : State) (at : ℕ) (xs ys : List Cell) (f : Fixup)
    → s.bytes ≡ xs ++ (ref f ∷ ys)
    → length xs ≡ at
    → f.next ≡ none
    → (define_label (some at) s).bytes ≡ xs ++ (ref (resolve (length s.bytes) s.num f) ∷ ys)
unfolding define_label
define_label-bytes s at xs ys f h k n =
    let e : 0 < length (xs ++ (ref f ∷ ys)) = omega (arith, length-append xs (ref f ∷ ys)) in
    subst
      (λ cs.
        define_chain (length cs) (length cs) s.num (some at) cs
        ≡ xs ++ (ref (resolve (length cs) s.num f) ∷ ys))
      (sym h)
      (subst
        (λ a.
          define_chain (length (xs ++ (ref f ∷ ys))) (length (xs ++ (ref f ∷ ys))) s.num (some a)
            (xs ++ (ref f ∷ ys))
          ≡ xs ++ (ref (resolve (length (xs ++ (ref f ∷ ys))) s.num f) ∷ ys))
        k (chain_one _ _ s.num xs ys f e n))
