-- ===== src/Text/Search/Translated.antt =====
-- `strtr` of characters to themselves.
use stunt.Prelude.{
  ℕ, ◌<◌, ◌≡◌, refl, Bool, true, ◌&&◌, not, some, [], ◌∷◌, arith, ltb, Bool-cases, inl, inr,
}
use stunt.Text.Case.{Text}
use stunt.Text.Search.Builtins.{isalpha, translate, table, translated, strtr}

-- No character is the NUL.
abbrev pub AreCharacters : Text → Type 0
AreCharacters [] = Unit {0}
AreCharacters (c ∷ s) = (0 < c) × AreCharacters s

translate-same :
    (case_counts : Bool) (temp : ℕ → ℕ) (c : ℕ)
    → ((x : ℕ) → temp x ≡ x)
    → (x : ℕ) → translate case_counts temp c (some c) x ≡ x
unfolding translate
translate-same case_counts temp c h x = elim (Bool-cases (not case_counts && isalpha c)) [
  | inl both ↦ rw both (ground (arith, h x))
  | inr one ↦ rw one (ground (arith, h x))
]

table-same :
    (case_counts : Bool) (temp : ℕ → ℕ) (from : Text)
    → ((x : ℕ) → temp x ≡ x)
    → (x : ℕ) → table case_counts temp from from x ≡ x
unfolding table
table-same case_counts temp [] h x = h x
table-same case_counts temp (c ∷ from) h x =
    table-same case_counts (translate case_counts temp c (some c)) from
      (translate-same case_counts temp c h) x

translated-same :
    (temp : ℕ → ℕ) (s : Text) → ((x : ℕ) → temp x ≡ x) → AreCharacters s → translated temp s ≡ s
unfolding translated
translated-same temp [] h a = refl
translated-same temp (c ∷ s) h a =
    let shown : ltb 0 c ≡ true = ground (arith, a.0) in
    rw (h c, shown, translated-same temp s h a.1)

-- A source without NUL characters whose characters are translated to themselves, with or without
-- regard to case, is left as it is, whatever characters are listed and how often.
pub strtr_lem :
    (source from : Text) (case_counts : Bool)
    → AreCharacters source
    → strtr source from from case_counts ≡ source
unfolding strtr
strtr_lem source from case_counts a =
    translated-same _ source (table-same case_counts (λ c. c) from (λ x. refl)) a
