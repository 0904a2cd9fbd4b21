-- ===== src/Dbio/Strings.antt =====
-- Strings are read as they were written, however long they are.
use stunt.Prelude.{
  ℕ, zero, suc, ◌≤◌, ◌<◌, ◌≡◌, refl, ap, ◌∙◌, true, false, ◌&&◌, not, Option, some, [], ◌∷◌, ◌++◌,
  arith, length, take, drop, length-append, length-take, length-drop, take-append-drop, ltb, ltb→lt,
  ◌==◌, if◌then◌else◌, Bool-cases, inl, inr,
}
use mathlib.Core.Option
use mathlib.Core.List.{append_assoc}
use stunt.Text.Case.{Text}
use stunt.Dbio.Lines.{
  Chunk, fgets, Read, ends_line, chop, read_pieces, dbio_read_string, dbio_write_string,
}
use stunt.Dbio.Numbers.{IsLine, fgets-IsLine}

fgets-full :
    (n : ℕ) (w t : Text)
    → IsLine w
    → n ≤ length w
    → fgets n (w ++ t) ≡ record { buffer = take n w; rest = drop n w ++ t }
unfolding fgets IsLine
fgets-full zero w t l h = refl
fgets-full (suc n) [] t l h = absurd (omega arith)
fgets-full (suc n) (c ∷ w) t (other, l) h = rw (other, fgets-full n w t l (omega arith)) refl

IsLine-take : (n : ℕ) (w : Text) → IsLine w → IsLine (take n w)
unfolding IsLine
IsLine-take zero w l = tt
IsLine-take (suc n) [] l = tt
IsLine-take (suc n) (c ∷ w) (other, l) = (other, IsLine-take n w l)

IsLine-drop : (n : ℕ) (w : Text) → IsLine w → IsLine (drop n w)
unfolding IsLine
IsLine-drop zero w l = l
IsLine-drop (suc n) [] l = l
IsLine-drop (suc n) (c ∷ w) (other, l) = IsLine-drop n w l

ends_line-IsLine : (w : Text) → IsLine w → ends_line w ≡ false
unfolding IsLine
ends_line-IsLine [] l = refl
ends_line-IsLine (c ∷ []) (other, l) = other
ends_line-IsLine (c ∷ d ∷ w) (other, l) = ends_line-IsLine (d ∷ w) l

ends_line-end : (w : Text) → ends_line (w ++ (b'\n' ∷ [])) ≡ true
ends_line-end [] = refl
ends_line-end (c ∷ []) = refl
ends_line-end (c ∷ d ∷ w) = ends_line-end (d ∷ w)

chop-end : (w : Text) → chop (w ++ (b'\n' ∷ [])) ≡ w
chop-end [] = refl
chop-end (c ∷ []) = refl
chop-end (c ∷ d ∷ w) = ap (λ t. c ∷ t) (chop-end (d ∷ w))

-- One round of the loop, for a text that is not empty.
abbrev round : ℕ → Chunk → Option (Read Text)
round fuel chunk =
    let later = read_pieces fuel chunk.rest in
    if (length chunk.buffer == 1023) && not (ends_line chunk.buffer)
    then Option.map (λ (r : Read Text). record r { value = chunk.buffer ++ r.value }) later
    else some (record { value = chop chunk.buffer; rest = chunk.rest })

read_pieces-round :
    (fuel : ℕ) (w rest : Text)
    → read_pieces (suc fuel) (w ++ (b'\n' ∷ rest)) ≡ round fuel (fgets 1023 (w ++ (b'\n' ∷ rest)))
unfolding read_pieces
read_pieces-round fuel [] rest = refl
read_pieces-round fuel (c ∷ w) rest = refl

round-last :
    (fuel : ℕ) (w rest : Text)
    → round fuel (record { buffer = w ++ (b'\n' ∷ []); rest = rest })
      ≡ some (record { value = w; rest = rest })
round-last fuel w rest = elim (Bool-cases (length (w ++ (b'\n' ∷ [])) == 1023)) [
  | inl full ↦ rw (full, ends_line-end w, chop-end w) refl
  | inr short ↦ rw (short, chop-end w) refl
]

read_pieces-line :
    (fuel : ℕ) (w rest : Text)
    → IsLine w
    → length w < fuel
    → read_pieces fuel (w ++ (b'\n' ∷ rest)) ≡ some (record { value = w; rest = rest })
read_pieces-line zero w rest l h = absurd (omega arith)
read_pieces-line (suc fuel) w rest l h = elim (Bool-cases (ltb (length w) 1023)) [
  | inl short ↦
      read_pieces-round fuel w rest
      ∙ (ap (round fuel) (fgets-IsLine 1023 w rest l (ltb→lt (length w) 1023 short))
          ∙ round-last fuel w rest)
  | inr long ↦
      let full : 1023 ≤ length w = ground arith in
      let all : (length (take 1023 w) == 1023) ≡ true = ground (arith, length-take 1023 w) in
      let open_ : ends_line (take 1023 w) ≡ false =
        ends_line-IsLine (take 1023 w) (IsLine-take 1023 w l) in
      let later =
        read_pieces-line fuel (drop 1023 w) rest (IsLine-drop 1023 w l)
          (omega (arith, length-drop 1023 w)) in
      read_pieces-round fuel w rest
      ∙ (ap (round fuel) (fgets-full 1023 w (b'\n' ∷ rest) l full)
          ∙ rw (all, open_, later, take-append-drop 1023 w) refl)
]

pub dbio_read_string-dbio_write_string :
    (w rest : Text)
    → IsLine w
    → dbio_read_string (dbio_write_string w ++ rest) ≡ some (record { value = w; rest = rest })
unfolding dbio_write_string dbio_read_string
dbio_read_string-dbio_write_string w rest l = rw (append_assoc w (b'\n' ∷ []) rest) (
    read_pieces-line (suc (length (w ++ (b'\n' ∷ rest)))) w rest l
      (omega (arith, length-append w (b'\n' ∷ rest))))
