-- ===== src/Text/Search/Replaced.antt =====
-- `stream_add_strsub` ends, and puts a text for itself.
use stunt.Prelude.{
  ℕ, zero, suc, ◌<◌, ◌≡◌, refl, ap, sym, ◌∙◌, Bool, true, some, [], ◌∷◌, ◌++◌, arith, length, drop,
  length-drop, Bool-cases, inl, inr,
}
use stunt.Text.Case.{Text}
use stunt.Text.Search.{strncmp_eq, matches, stream_add_strsub}

-- What `strncmp` finds equal is the text, and the rest follows it.
strncmp_eq-split : (s t : Text) → strncmp_eq s t (length t) ≡ true → t ++ drop (length t) s ≡ s
unfolding strncmp_eq
strncmp_eq-split s [] h = refl
strncmp_eq-split [] (y ∷ t) h = absurd (ground arith)
strncmp_eq-split (x ∷ s) (y ∷ t) h =
    let same : y ≡ x = ground arith in
    let rest : strncmp_eq s t (length t) ≡ true = ground arith in
    rw same (ap (λ u. x ∷ u) (strncmp_eq-split s t rest))

matches_case : (what s : Text) → matches true what s ≡ strncmp_eq s what (length what)
unfolding matches
matches_case what s = refl

-- A text that is not empty is replaced in a number of rounds that the length of the source bounds,
-- with and without regard to case; with regard to case, a text that is replaced by itself gives the
-- source back.
pub stream_add_strsub-ends :
    (fuel : ℕ) (source : Text) (w : ℕ) (what with_ : Text) (case_counts : Bool)
    → length source < fuel
    → ((result : Text) × (stream_add_strsub fuel source (w ∷ what) with_ case_counts ≡ some result))
      × (stream_add_strsub fuel source (w ∷ what) (w ∷ what) true ≡ some source)
unfolding stream_add_strsub
stream_add_strsub-ends zero source w what with_ case_counts h = absurd (omega arith)
stream_add_strsub-ends (suc fuel) [] w what with_ case_counts h = (([], refl), refl)
stream_add_strsub-ends (suc fuel) (c ∷ source) w what with_ case_counts h =
    let shorter : length (drop (length what) source) < fuel =
      omega (arith, length-drop (length what) source) in
    let ((replaced, e), e') =
      stream_add_strsub-ends fuel (drop (length what) source) w what with_ case_counts shorter in
    let ((kept, k), k') =
      stream_add_strsub-ends fuel source w what with_ case_counts (omega arith) in
    (
      elim (Bool-cases (matches case_counts (w ∷ what) (c ∷ source))) [
        | inl hit ↦ (with_ ++ replaced, rw (hit, e))
        | inr miss ↦ (c ∷ kept, rw (miss, k))
      ],
      elim (Bool-cases (matches true (w ∷ what) (c ∷ source))) [
        | inl hit ↦
            rw (hit, e')
              (ap some (
                strncmp_eq-split (c ∷ source) (w ∷ what)
                  (sym (matches_case (w ∷ what) (c ∷ source)) ∙ hit)))
        | inr miss ↦ rw (miss, k')
      ],
    )
