-- ===== src/Value/Equality/Folded.antt =====
-- Strings that `equality` finds equal are one string, up to the case of letters where it does not
-- matter; two errors with one code are one error.
use stunt.Prelude.{
  ℕ, ◌<◌, ◌≡◌, ◌↔◌, refl, sym, ap, ◌∙◌, Bool, true, false, ◌&&◌, [], ◌∷◌, arith, ◌==◌, ==_iff,
  if◌then◌else◌, ltb, get_elem?, some_eq, Bool-cases, inl, inr,
}
use mathlib.Core.Option.{some}
use stunt.Prelude.Int.{pos, ◌-ℤ◌, eqb_ℤ}
use stunt.Text.Case.{Text, mystrcasecmp, cmap, schar}
use stunt.Value.{Floats, Error, error_code, str}
use stunt.Value.Equality.{strcmp_eq, equality}
use stunt.Dbio.Roundtrip.{errors-code}
use stunt.Dbio.Vars.{errors}

-- The characters of a string are bytes other than NUL.
unfoldable pub are_characters : Text → Bool
are_characters [] = true
are_characters (c ∷ s) = ltb 0 c && ltb c 256 && are_characters s

-- A string with its capitals as small letters.
unfoldable pub folded : Text → Text
folded [] = []
folded (c ∷ s) = cmap c ∷ folded s

abbrev pub folded_if : Bool → Text → Text
folded_if case_matters s = if case_matters then s else folded s

pub error_code-eq : (a b : Error) → error_code a ≡ error_code b → a ≡ b
error_code-eq a b h = some_eq (sym (errors-code a) ∙ ap (λ n. get_elem? errors n) h ∙ errors-code b)

pub strcmp_eq_iff : (s t : Text) → (strcmp_eq s t ≡ true) ↔ (s ≡ t)
unfolding strcmp_eq
strcmp_eq_iff [] [] = (λ h. refl, λ h. refl)
strcmp_eq_iff [] (y ∷ t) = (λ h. cc, λ h. cc)
strcmp_eq_iff (x ∷ s) [] = (λ h. cc, λ h. cc)
strcmp_eq_iff (x ∷ s) (y ∷ t) = let (there, back) = strcmp_eq_iff s t in grind arith

schar-differ :
    (a b : ℕ) → a < 256 → b < 256 → (a == b) ≡ false → eqb_ℤ (schar a -ℤ schar b) (pos 0) ≡ false
unfolding schar ◌-ℤ◌
schar-differ a b h k e = ground arith

folded_byte : (c : ℕ) → 0 < c → c < 256 → (0 < cmap c) × (cmap c < 256)
unfolding cmap
folded_byte c h k = (ground arith, ground arith)

schar_pos :
    (c : ℕ)
    → 0 < c
    → c < 256
    → (eqb_ℤ (schar c) (pos 0) ≡ false) × (eqb_ℤ (pos 0 -ℤ schar c) (pos 0) ≡ false)
unfolding schar ◌-ℤ◌
schar_pos c h k = (ground arith, ground arith)

characters :
    (c : ℕ) (s : Text)
    → are_characters (c ∷ s) ≡ true
    → (0 < c) × (c < 256) × (are_characters s ≡ true)
unfolding are_characters
characters c s h = ground arith

mystrcasecmp-folded :
    (s t : Text)
    → are_characters s ≡ true
    → are_characters t ≡ true
    → (eqb_ℤ (mystrcasecmp s t) (pos 0) ≡ true) ↔ (folded s ≡ folded t)
unfolding mystrcasecmp folded
mystrcasecmp-folded [] [] h k = (λ e. refl, λ e. refl)
mystrcasecmp-folded [] (y ∷ t) h k =
    let (a, b, rest) = characters y t k in
    let (low, high) = folded_byte y a b in
    let (l, r) = schar_pos (cmap y) low high in (λ e. absurd (cc), λ e. cc)
mystrcasecmp-folded (x ∷ s) [] h k =
    let (a, b, rest) = characters x s h in
    let (low, high) = folded_byte x a b in
    let (l, r) = schar_pos (cmap x) low high in (λ e. absurd (cc), λ e. cc)
mystrcasecmp-folded (x ∷ s) (y ∷ t) h k =
    let (a, b, h') = characters x s h in
    let (c, d, k') = characters y t k in
    let (there, back) = mystrcasecmp-folded s t h' k' in
    let ax : cmap x < 256 = (folded_byte x a b).1 in
    let ay : cmap y < 256 = (folded_byte y c d).1 in
    elim (Bool-cases (cmap x == cmap y)) [
      | inl same ↦
          let e : cmap x ≡ cmap y = (==_iff _ _).0 same in
          (
            λ q. λ i. e i ∷ there (rw same at q) i,
            λ q. let rest : folded s ≡ folded t = cc in rw same (back rest),
          )
      | inr other ↦
          let no = schar-differ (cmap x) (cmap y) ax ay other in
          (
            λ q. absurd (cc (no, rw other at q)),
            λ q. let e : cmap x ≡ cmap y = cc in absurd (cc (other, (==_iff _ _).1 e)),
          )
    ]

pub str_equal-folded :
    (f : Floats) (case_matters : Bool) (s t : Text)
    → are_characters s ≡ true
    → are_characters t ≡ true
    → (equality f case_matters (str s) (str t) ≡ some true)
      ↔ (folded_if case_matters s ≡ folded_if case_matters t)
unfolding equality
str_equal-folded f true s t h k =
    let (there, back) = strcmp_eq_iff s t in (λ e. there (some_eq e), λ e. ap some (back e))
str_equal-folded f false s t h k =
    let (there, back) = mystrcasecmp-folded s t h k in
    (λ e. there (some_eq e), λ e. ap some (back e))
