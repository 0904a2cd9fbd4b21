-- ===== src/Text/Verb/Names.antt =====
-- `verbcasecmp` on a verb that has one name or several.
use stunt.Prelude.{
  ℕ, zero, suc, ◌+◌, ◌<◌, ◌≡◌, refl, Bool, true, false, ◌||◌, some, List, [], ◌∷◌, ◌++◌, arith,
  subst, ◌∙◌, length, length-append, if◌then◌else◌,
}
use mathlib.Core.List.{append-nil}
use stunt.Text.Case.{Text}
use stunt.Text.Verb.{unstarred, skip_spaces, skip_name, names_loop, verbcasecmp}
use stunt.Text.Verb.Spec.{name_matches, NoSpace, Ends, join, AreNames, any_matches}
use stunt.Text.Verb.Accepts.{accepts-scan, skip_name-scan}

-- One round of the outer loop.
names_loop-step :
    (f : ℕ) (c : ℕ) (n rest w : Text)
    → NoSpace (c ∷ n)
    → Ends rest
    → names_loop (suc f) ((c ∷ n) ++ rest) w
      ≡ (if name_matches (c ∷ n) w then some true else names_loop f (skip_name rest) w)
unfolding names_loop
names_loop-step f c n rest w h e =
    rw (accepts-scan (c ∷ n) rest w unstarred h e refl, skip_name-scan (c ∷ n) rest w unstarred h e)

skip_spaces-join : (names : List Text) → AreNames names → skip_spaces (join names) ≡ join names
unfolding skip_spaces
skip_spaces-join [] h = refl
skip_spaces-join ([] ∷ r) h = absurd h
skip_spaces-join ((c ∷ n) ∷ []) h = rw (h.0.0)
skip_spaces-join ((c ∷ n) ∷ m ∷ r) h = rw (h.0.0)

skip_name-space : (v : Text) → skip_name (b' ' ∷ v) ≡ skip_spaces v
unfolding skip_name skip_spaces
skip_name-space v = refl

or-some : (a b : Bool) → (if a then some true else some b) ≡ some (a || b)
or-some true b = refl
or-some false b = refl

names_loop-nil : (f : ℕ) (w : Text) → names_loop (suc f) (skip_name []) w ≡ some false
unfolding names_loop skip_name
names_loop-nil f w = refl

names_loop-last :
    (f : ℕ) (c : ℕ) (n w : Text)
    → NoSpace (c ∷ n)
    → names_loop (suc (suc f)) (c ∷ n) w
      ≡ (if name_matches (c ∷ n) w then some true else some false)
names_loop-last f c n w h =
    subst
      (λ v.
        names_loop (suc (suc f)) v w ≡ (if name_matches (c ∷ n) w then some true else some false))
      (append-nil (c ∷ n)) (rw (← names_loop-nil f w) (names_loop-step (suc f) c n [] w h refl))

names_loop-join :
    (f : ℕ) (names : List Text) (w : Text)
    → AreNames names
    → length (join names) < f
    → names_loop f (join names) w ≡ some (any_matches names w)
names_loop-join zero names w h lt = absurd (omega arith)
names_loop-join (suc f) [] w h lt = unfold names_loop in refl
names_loop-join (suc f) ([] ∷ r) w h lt = absurd h
names_loop-join (suc zero) ((c ∷ n) ∷ r) w h lt = absurd (positive r lt)
  where
    positive : (r : List Text) → length (join ((c ∷ n) ∷ r)) < 1 → ⊥
    positive [] h = omega arith
    positive (m ∷ r) h = omega arith
names_loop-join (suc (suc f)) ((c ∷ n) ∷ []) w h lt =
    names_loop-last f c n w h.0 ∙ or-some (name_matches (c ∷ n) w) false
names_loop-join (suc (suc f)) ((c ∷ n) ∷ m ∷ r) w h lt =
    rw
      (
        names_loop-step (suc f) c n (b' ' ∷ join (m ∷ r)) w h.0 refl,
        skip_name-space (join (m ∷ r)),
        skip_spaces-join (m ∷ r) h.1,
        names_loop-join (suc f) (m ∷ r) w h.1
            (omega (arith, length-append n (b' ' ∷ join (m ∷ r)))),
      )
      (or-some (name_matches (c ∷ n) w) (any_matches (m ∷ r) w))

-- On a verb that consists of names without spaces, none of them empty, separated by single spaces,
-- `verbcasecmp` answers. For two arguments that are one pointer it answers yes; for others it answers
-- yes exactly if one of the names matches the word.
pub verbcasecmp-join :
    (same : Bool) (names : List Text) (word : Text)
    → AreNames names
    → verbcasecmp same (join names) word ≡ some (same || any_matches names word)
unfolding verbcasecmp
verbcasecmp-join true names word h = refl
verbcasecmp-join false names word h =
    names_loop-join (length (join names) + 1) names word h (omega arith)
