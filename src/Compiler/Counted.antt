-- ===== src/Compiler/Counted.antt =====
-- The counts of references that the state keeps, and what keeps them right.
use stunt.Prelude.{ℕ, suc, ◌+◌, ◌≡◌, refl, sym, ap, subst, ◌∙◌, List, [], ◌∷◌, ◌++◌, arith}
use mathlib.Core.Option.{Option}
use stunt.Compiler.Counts.{mark_kind, mark, count_refs, count_refs-append, count_refs-define_chain}
use stunt.Compiler.State.{
  FixupKind, fixup_literal, fixup_fork, fixup_label, fixup_var_ref, fixup_stack, Refs, Fixup, Cell,
  ref, Loop, State,
}
use stunt.Compiler.Emit.{define_chain}

abbrev pub AreLabels : List Loop → Type 0
AreLabels [] = Unit
AreLabels (l ∷ ls) = (l.top_label.kind ≡ fixup_label) × AreLabels ls

-- The counts of the state are right, but for the references to the stack, whose count stays 0; the
-- top of each loop is a label.
pub record IsCounted (s : State) : Type 0 where
  pub literals : s.num.literals ≡ count_refs fixup_literal s.bytes
  pub forks : s.num.forks ≡ count_refs fixup_fork s.bytes
  pub labels : s.num.labels ≡ count_refs fixup_label s.bytes
  pub var_refs : s.num.var_refs ≡ count_refs fixup_var_ref s.bytes
  pub stacks : s.num.stacks ≡ 0
  pub tops : AreLabels s.loops

abbrev pub bump : FixupKind → Refs → Refs
bump fixup_literal n = record n { literals = suc n.literals }
bump fixup_fork n = record n { forks = suc n.forks }
bump fixup_label n = record n { labels = suc n.labels }
bump fixup_var_ref n = record n { var_refs = suc n.var_refs }
bump fixup_stack n = n

module _ (c : Cell) (s s' : State) (eb : s'.bytes ≡ s.bytes ++ (c ∷ [])) where
  counted : (k : FixupKind) → count_refs k s'.bytes ≡ count_refs k s.bytes + mark k c
  unfolding count_refs
  counted k = omega (arith, ap (count_refs k) eb, count_refs-append k s.bytes (c ∷ []))

-- A new cell that is no reference.
pub plain-IsCounted :
    (c : Cell) (s s' : State)
    → ((k : FixupKind) → mark k c ≡ 0)
    → s'.bytes ≡ s.bytes ++ (c ∷ [])
    → s'.num ≡ s.num
    → s'.loops ≡ s.loops
    → IsCounted s
    → IsCounted s'
plain-IsCounted c s s' m eb en el a =
    let e = counted c s s' eb in
    record {
      literals =
          omega (arith, e fixup_literal, m fixup_literal, a.literals, ap (λ n. n.literals) en);
      forks = omega (arith, e fixup_fork, m fixup_fork, a.forks, ap (λ n. n.forks) en);
      labels = omega (arith, e fixup_label, m fixup_label, a.labels, ap (λ n. n.labels) en);
      var_refs =
          omega (arith, e fixup_var_ref, m fixup_var_ref, a.var_refs, ap (λ n. n.var_refs) en);
      stacks = omega (arith, a.stacks, ap (λ n. n.stacks) en);
      tops = subst AreLabels (sym el) a.tops;
    }

bump_literals :
    (k : FixupKind) (n : Refs) → (bump k n).literals ≡ n.literals + mark_kind fixup_literal k
bump_literals fixup_literal n = omega arith
bump_literals fixup_fork n = omega arith
bump_literals fixup_label n = omega arith
bump_literals fixup_var_ref n = omega arith
bump_literals fixup_stack n = omega arith

bump_forks : (k : FixupKind) (n : Refs) → (bump k n).forks ≡ n.forks + mark_kind fixup_fork k
bump_forks fixup_literal n = omega arith
bump_forks fixup_fork n = omega arith
bump_forks fixup_label n = omega arith
bump_forks fixup_var_ref n = omega arith
bump_forks fixup_stack n = omega arith

bump_labels : (k : FixupKind) (n : Refs) → (bump k n).labels ≡ n.labels + mark_kind fixup_label k
bump_labels fixup_literal n = omega arith
bump_labels fixup_fork n = omega arith
bump_labels fixup_label n = omega arith
bump_labels fixup_var_ref n = omega arith
bump_labels fixup_stack n = omega arith

bump_var_refs :
    (k : FixupKind) (n : Refs) → (bump k n).var_refs ≡ n.var_refs + mark_kind fixup_var_ref k
bump_var_refs fixup_literal n = omega arith
bump_var_refs fixup_fork n = omega arith
bump_var_refs fixup_label n = omega arith
bump_var_refs fixup_var_ref n = omega arith
bump_var_refs fixup_stack n = omega arith

bump_stacks : (k : FixupKind) (n : Refs) → (bump k n).stacks ≡ n.stacks
bump_stacks fixup_literal n = refl
bump_stacks fixup_fork n = refl
bump_stacks fixup_label n = refl
bump_stacks fixup_var_ref n = refl
bump_stacks fixup_stack n = refl

-- A new reference, which is counted.
pub ref-IsCounted :
    (k : FixupKind) (f : Fixup) (s s' : State)
    → f.kind ≡ k
    → s'.bytes ≡ s.bytes ++ (ref f ∷ [])
    → s'.num ≡ bump k s.num
    → s'.loops ≡ s.loops
    → IsCounted s
    → IsCounted s'
ref-IsCounted k f s s' ek eb en el a =
    let e = counted (ref f) s s' eb in
    record {
      literals = omega (
        arith,
        e fixup_literal,
        bump_literals k s.num,
        a.literals,
        ap (λ n. n.literals) en,
        ap (mark_kind fixup_literal) ek,
      );
      forks = omega (
        arith,
        e fixup_fork,
        bump_forks k s.num,
        a.forks,
        ap (λ n. n.forks) en,
        ap (mark_kind fixup_fork) ek,
      );
      labels = omega (
        arith,
        e fixup_label,
        bump_labels k s.num,
        a.labels,
        ap (λ n. n.labels) en,
        ap (mark_kind fixup_label) ek,
      );
      stacks = omega (arith, bump_stacks k s.num, a.stacks, ap (λ n. n.stacks) en);
      var_refs = omega (
        arith,
        e fixup_var_ref,
        bump_var_refs k s.num,
        a.var_refs,
        ap (λ n. n.var_refs) en,
        ap (mark_kind fixup_var_ref) ek,
      );
      tops = subst AreLabels (sym el) a.tops;
    }

-- Other loops.
pub retop-IsCounted :
    (s s' : State)
    → s'.bytes ≡ s.bytes
    → s'.num ≡ s.num
    → AreLabels s'.loops
    → IsCounted s
    → IsCounted s'
retop-IsCounted s s' eb en t a = record {
  literals = ap (λ (n : Refs). n.literals) en ∙ a.literals ∙ ap (count_refs fixup_literal) (sym eb);
  forks = ap (λ (n : Refs). n.forks) en ∙ a.forks ∙ ap (count_refs fixup_fork) (sym eb);
  labels = ap (λ (n : Refs). n.labels) en ∙ a.labels ∙ ap (count_refs fixup_label) (sym eb);
  var_refs = ap (λ (n : Refs). n.var_refs) en ∙ a.var_refs ∙ ap (count_refs fixup_var_ref) (sym eb);
  stacks = ap (λ (n : Refs). n.stacks) en ∙ a.stacks;
  tops = t;
}

-- The same cells and counts.
pub same-IsCounted :
    (s s' : State)
    → s'.bytes ≡ s.bytes
    → s'.num ≡ s.num
    → AreLabels s'.loops ≡ AreLabels s.loops
    → IsCounted s
    → IsCounted s'
same-IsCounted s s' eb en el a =
    retop-IsCounted s s' eb en (subst (λ (T : Type 0). T) (sym el) a.tops) a

module _ (s s' : State) (fuel value : ℕ) (prev : Refs) (label : Option ℕ) where
  patched :
      s'.bytes ≡ define_chain fuel value prev label s.bytes
      → (k : FixupKind) → count_refs k s.bytes ≡ count_refs k s'.bytes
  patched eb k =
      sym (ap (count_refs k) eb ∙ count_refs-define_chain k fuel value prev label s.bytes)

  pub patched-IsCounted :
      s'.bytes ≡ define_chain fuel value prev label s.bytes
      → s'.num ≡ s.num
      → s'.loops ≡ s.loops
      → IsCounted s
      → IsCounted s'
  patched-IsCounted eb en el a = record {
    literals = ap (λ (n : Refs). n.literals) en ∙ a.literals ∙ patched eb fixup_literal;
    forks = ap (λ (n : Refs). n.forks) en ∙ a.forks ∙ patched eb fixup_fork;
    labels = ap (λ (n : Refs). n.labels) en ∙ a.labels ∙ patched eb fixup_label;
    var_refs = ap (λ (n : Refs). n.var_refs) en ∙ a.var_refs ∙ patched eb fixup_var_ref;
    stacks = ap (λ (n : Refs). n.stacks) en ∙ a.stacks;
    tops = subst AreLabels (sym el) a.tops;
  }
