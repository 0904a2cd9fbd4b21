-- ===== src/Interpreter/Correct/Places.antt =====
-- Where pieces of code stand in the code of a frame, and literals in its table.
use mathlib.Core.List.{append_assoc}
use stunt.Prelude.{
  ℕ, suc, ◌+◌, ◌≡◌, refl, sym, ap, subst, ◌∙◌, false, List, [], ◌∷◌, ◌++◌, arith, length,
  length-append, get_elem?,
}
use mathlib.Core.Option.{some}
use stunt.Value.{Var}
use stunt.Compiler.State.{Cell}
use stunt.Interpreter.Machine.{Frame, is_pop}

get_elem?-append :
    (pre : List Cell) (c : Cell) (rest : List Cell)
    → get_elem? (pre ++ (c ∷ rest)) (length pre) ≡ some c
get_elem?-append [] c rest = refl
get_elem?-append (x ∷ pre) c rest = get_elem?-append pre c rest

-- The cells stand in the code of the frame at the place.
pub record Stands (fr : Frame) (pc : ℕ) (cells : List Cell) : Type 0 where
  pub pre : List Cell
  pub rest : List Cell
  pub whole : fr.code ≡ pre ++ (cells ++ rest)
  pub place : length pre ≡ pc

module _ (fr : Frame) (pc : ℕ) (xs ys : List Cell) (h : Stands fr pc (xs ++ ys)) where
  pub Stands-left : Stands fr pc xs
  Stands-left = record {
    pre = h.pre;
    rest = ys ++ h.rest;
    whole = h.whole ∙ ap (λ t. h.pre ++ t) (append_assoc xs ys h.rest);
    place = h.place;
  }

  pub Stands-right : Stands fr (pc + length xs) ys
  Stands-right = record {
    pre = h.pre ++ xs;
    rest = h.rest;
    whole =
        h.whole
        ∙ ap (λ t. h.pre ++ t) (append_assoc xs ys h.rest)
        ∙ sym (append_assoc h.pre xs (ys ++ h.rest));
    place = omega (arith, length-append h.pre xs, h.place);
  }

module _ (fr : Frame) (pc : ℕ) (c : Cell) (cs : List Cell) (h : Stands fr pc (c ∷ cs)) where
  pub Stands-head : get_elem? fr.code pc ≡ some c
  Stands-head =
      ap (λ t. get_elem? t pc) h.whole
      ∙ subst (λ k. get_elem? (h.pre ++ (c ∷ (cs ++ h.rest))) k ≡ some c) h.place
          (get_elem?-append h.pre c (cs ++ h.rest))

  pub Stands-tail : Stands fr (suc pc) cs
  Stands-tail = record {
    pre = h.pre ++ (c ∷ []);
    rest = h.rest;
    whole = h.whole ∙ sym (append_assoc h.pre (c ∷ []) (cs ++ h.rest));
    place = omega (arith, length-append h.pre (c ∷ []), h.place);
  }

-- The table of the frame starts with the literals.
pub record Tables (fr : Frame) (literals : List Var) : Type 0 where
  pub more : List Var
  pub table : fr.literals ≡ literals ++ more

pub Tables-left : (fr : Frame) (xs ys : List Var) → Tables fr (xs ++ ys) → Tables fr xs
Tables-left fr xs ys t = record { more = ys ++ t.more; table = t.table ∙ append_assoc xs ys t.more }

-- Code that does not start with `OP_POP`.
abbrev pub Starts : List Cell → Type 0
Starts [] = ⊥
Starts (c ∷ cs) = is_pop (some c) ≡ false

pub Starts-append : (xs ys : List Cell) → Starts xs → Starts (xs ++ ys)
Starts-append [] ys h = elim h [ ]
Starts-append (x ∷ xs) ys h = h

pub Stands-Starts :
    (fr : Frame) (pc : ℕ) (cells : List Cell)
    → Stands fr pc cells
    → Starts cells
    → is_pop (get_elem? fr.code pc) ≡ false
Stands-Starts fr pc [] h t = elim t [ ]
Stands-Starts fr pc (c ∷ cs) h t = ap is_pop (Stands-head fr pc c cs h) ∙ t
