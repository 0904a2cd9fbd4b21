-- ===== src/Interpreter/Correct/Slots.antt =====
-- The table of literals gives each constant back.
use stunt.Prelude.{
  ℕ, suc, ◌<◌, ◌≡◌, refl, sym, ap, subst, ◌⊎◌, true, false, List, [], ◌∷◌, ◌++◌, arith, length,
  get_or, ◌==◌, ==-refl, Bool-cases, Option-cases, inl, inr, some_eq,
}
use mathlib.Core.Option.{Option, none, some}
use mathlib.Core.Option
use stunt.Prelude.Int.{eqb_eq}
use stunt.Text.Case.{Text}
use stunt.Value
use stunt.Value.{Var, Error, error_code, Floats, type_of}
use stunt.Value.Equality.{equality, strcmp_eq}
use stunt.Value.Equality.Folded.{strcmp_eq_iff, error_code-eq}
use stunt.Compiler.Emit.{literal_slot, intern}
use stunt.Interpreter.Eval.{IsConstant}

str_same : (s t : Text) → strcmp_eq s t ≡ true → Value.str s ≡ Value.str t
str_same s t h = ap Value.str ((strcmp_eq_iff s t).0 h)

-- A constant that the comparison with the case of letters finds equal is the same.
equality-same : (f : Floats) (v w : Var) → IsConstant v → equality f true v w ≡ some true → v ≡ w
unfolding equality
equality-same f (Value.int a) w h e = grind (arith, eqb_eq)
equality-same f (Value.obj a) w h e = grind (arith, eqb_eq)
equality-same f (Value.str a) w h e = grind (arith, str_same)
equality-same f (Value.err a) w h e = grind (arith, error_code-eq)
equality-same f (Value.float a) w h e = elim h [ ]
equality-same f (Value.none) w h e = elim h [ ]
equality-same f (Value.list a) w h e = elim h [ ]
equality-same f Value.clear w h e = elim h [ ]
equality-same f (Value.catch a) w h e = elim h [ ]
equality-same f (Value.finally a) w h e = elim h [ ]
equality-same f (Value.map a n) w h e = elim h [ ]
equality-same f (Value.iter a) w h e = elim h [ ]
equality-same f (Value.anon a) w h e = elim h [ ]

get_or-last : (ws rest : List Var) (v d : Var) → get_or ((ws ++ (v ∷ [])) ++ rest) (length ws) d ≡ v
get_or-last [] rest v d = refl
get_or-last (w ∷ ws) rest v d = get_or-last ws rest v d

-- A slot is one of the table with the constant, or the next free one.
abbrev Holds : Var → List Var → ℕ → Type 0
Holds v ws i =
    (i ≡ length ws) ⊎ ((i < length ws) × ((rest : List Var) → get_or (ws ++ rest) i Value.none ≡ v))

next_slot :
    (v w : Var) (ws : List Var) (slot : Option ℕ) (i : ℕ)
    → ((j : ℕ) → slot ≡ some j → Holds v ws j)
    → Option.map suc slot ≡ some i
    → Holds v (w ∷ ws) i
next_slot v w ws none i ih e = cc
next_slot v w ws (some j) i ih e =
    subst (Holds v (w ∷ ws)) (some_eq e)
      (elim (ih j refl) [ inl a ↦ inl (ap suc a) | inr (l, g) ↦ inr (omega (arith, l), g) ])

slot-Holds :
    (f : Floats) (v : Var) (ws : List Var) (i : ℕ)
    → IsConstant v
    → literal_slot f v ws ≡ some i
    → Holds v ws i
unfolding literal_slot
slot-Holds f v [] i c h = inl (sym (some_eq h))
slot-Holds f v (w ∷ ws) i c h =
    let next = next_slot v w ws (literal_slot f v ws) i (λ j e. slot-Holds f v ws j c e) in
    elim (Bool-cases (type_of v == type_of w)) [
      | inl t ↦ elim (Option-cases (equality f true v w)) [
        | inl q ↦ absurd (ground (arith, rw (t, q) at h))
        | inr (true, q) ↦
            subst (Holds v (w ∷ ws)) (some_eq (rw (t, q) at h))
              (inr (omega arith, λ rest. sym (equality-same f v w c q)))
        | inr (false, q) ↦ next (rw (t, q) at h)
      ]
      | inr t ↦ next (rw t at h)
    ]

pub intern-get_or :
    (f : Floats) (v : Var) (ws : List Var) (i : ℕ) (rest : List Var)
    → IsConstant v
    → literal_slot f v ws ≡ some i
    → get_or (intern v i ws ++ rest) i Value.none ≡ v
intern-get_or f v ws i rest c h = elim (slot-Holds f v ws i c h) [
  | inl e ↦ rw (e, ==-refl) (get_or-last ws rest v Value.none)
  | inr (l, g) ↦ ground (arith, l, g rest)
]
