-- ===== src/Compiler/Counts.antt =====
-- The references among the emitted cells, and the counts of them that the state keeps.
use stunt.Prelude.{
  ℕ, zero, suc, ◌+◌, ◌≡◌, refl, ap, ◌∙◌, List, [], ◌∷◌, ◌++◌, arith, get_elem?, set, Option-cases,
  inl, inr, some_eq,
}
use mathlib.Core.Option.{Option, none, some}
use stunt.Compiler.State.{
  FixupKind, fixup_literal, fixup_fork, fixup_label, fixup_var_ref, fixup_stack, Refs, Cell, op,
  eop, raw, ref,
}
use stunt.Compiler.Emit.{define_chain}

abbrev pub mark_kind : FixupKind → FixupKind → ℕ
mark_kind fixup_literal fixup_literal = 1
mark_kind fixup_fork fixup_fork = 1
mark_kind fixup_label fixup_label = 1
mark_kind fixup_var_ref fixup_var_ref = 1
mark_kind fixup_stack fixup_stack = 1
mark_kind _ _ = 0

abbrev pub mark : FixupKind → Cell → ℕ
mark k (ref f) = mark_kind k f.kind
mark k (op o) = 0
mark k (eop e) = 0
mark k (raw n) = 0

-- The references of a kind.
unfoldable pub count_refs : FixupKind → List Cell → ℕ
count_refs k [] = 0
count_refs k (c ∷ cs) = mark k c + count_refs k cs

pub count_refs-append :
    (k : FixupKind) (xs ys : List Cell)
    → count_refs k (xs ++ ys) ≡ count_refs k xs + count_refs k ys
unfolding count_refs
count_refs-append k [] ys = omega arith
count_refs-append k (x ∷ xs) ys = omega (arith, count_refs-append k xs ys)

pub count_refs-set :
    (k : FixupKind) (xs : List Cell) (i : ℕ) (c d : Cell)
    → get_elem? xs i ≡ some c
    → mark k c ≡ mark k d
    → count_refs k (set xs i d) ≡ count_refs k xs
unfolding count_refs
count_refs-set k [] i c d h e = refl
count_refs-set k (x ∷ xs) zero c d h e = omega (arith, e, ap (mark k) (some_eq h))
count_refs-set k (x ∷ xs) (suc i) c d h e = omega (arith, count_refs-set k xs i c d h e)

-- Patching a chain of labels leaves the references of each kind.
pub count_refs-define_chain :
    (k : FixupKind) (fuel value : ℕ) (prev : Refs) (label : Option ℕ) (cells : List Cell)
    → count_refs k (define_chain fuel value prev label cells) ≡ count_refs k cells
unfolding define_chain
count_refs-define_chain k zero value prev label cells = refl
count_refs-define_chain k (suc fuel) value prev none cells = refl
count_refs-define_chain k (suc fuel) value prev (some i) cells =
    elim (Option-cases (get_elem? cells i)) [
      | inl h ↦ rw (h, define_chain) refl
      | inr (op o, h) ↦ rw (h, define_chain) refl
      | inr (eop o, h) ↦ rw (h, define_chain) refl
      | inr (raw n, h) ↦ rw (h, define_chain) refl
      | inr (ref f, h) ↦
          rw (h, define_chain)
            (count_refs-define_chain k fuel value prev f.next _
              ∙ count_refs-set k cells i (ref f) _ h refl)
    ]
