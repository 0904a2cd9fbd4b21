-- ===== src/Dbio/Numbers.antt =====
-- Numbers and strings are read as they were written.
use stunt.Prelude.{
  ℕ, zero, suc, ◌+◌, ◌-◌, ◌*◌, ◌/◌, ◌%◌, ◌^◌, ◌≤◌, ◌<◌, ◌≡◌, refl, ap, ◌∙◌, true, false, ◌||◌, some,
  [], ◌∷◌, ◌++◌, arith, length, length-append, ltb, leb, ◌==◌, Bool-cases, inl, inr,
}
use mathlib.Core.List.{append_assoc}
use stunt.Prelude.Int.{ℤ, pos, negsuc, sub_ℕ}
use stunt.Int32.{IsInt32, wrap32, signed32, bits}
use stunt.Text.Case.{Text}
use stunt.Text.Strtol.{
  is_digit, is_space, digits, starts_with_digit, skip_space, is_minus, skip_sign, strtol,
  strtol_int,
}
use stunt.Dbio.Lines.{fgets, dbio_read_num, spell, decimal, dbio_write_num}

-- A text of one line.
unfoldable pub IsLine : Text → Type 0
IsLine [] = Unit {0}
IsLine (c ∷ s) = ((c == b'\n') ≡ false) × IsLine s

pub fgets-IsLine :
    (n : ℕ) (w rest : Text)
    → IsLine w
    → length w < n
    → fgets n (w ++ (b'\n' ∷ rest)) ≡ record { buffer = w ++ (b'\n' ∷ []); rest = rest }
unfolding fgets IsLine
fgets-IsLine zero w rest l h = absurd (omega arith)
fgets-IsLine (suc n) [] rest l h = refl
fgets-IsLine (suc n) (c ∷ w) rest (other, l) h =
    rw (other, fgets-IsLine n w rest l (omega arith)) refl

digits-step : (n d : ℕ) (s : Text) → d < 10 → digits n ((b'0' + d) ∷ s) ≡ digits (n * 10 + d) s
unfolding digits
digits-step n d s h =
    let is : is_digit (b'0' + d) ≡ true = ground arith in
    let value : n * 10 + (b'0' + d - b'0') ≡ n * 10 + d = omega arith in rw (is, value) refl

wider : (width n : ℕ) → n < 10 ^ suc width → 10 ≤ n → 1 ≤ width
wider zero n h ten = absurd (omega arith)
wider (suc width) n h ten = omega arith

narrower : (width n : ℕ) → n < 10 ^ suc width → n / 10 < 10 ^ width
narrower width n h = let e : 10 ^ suc width ≡ 10 ^ width * 10 = omega arith in omega arith

digits-spell :
    (width n : ℕ) (rest : Text)
    → n < 10 ^ width
    → 1 ≤ width
    → digits 0 (spell width n ++ rest) ≡ digits n rest
unfolding spell
digits-spell zero n rest h w = absurd (omega arith)
digits-spell (suc width) n rest h w = elim (Bool-cases (ltb n 10)) [
  | inl one ↦ rw one (digits-step 0 n rest (ground arith) ∙ ap (λ m. digits m rest) (omega arith))
  | inr more ↦
      let wide : 1 ≤ width = wider width n h (ground arith) in
      let whole : n / 10 * 10 + n % 10 ≡ n = omega arith in
      rw (more, append_assoc (spell width (n / 10)) ((b'0' + n % 10) ∷ []) rest)
        (digits-spell width (n / 10) ((b'0' + n % 10) ∷ rest) (narrower width n h) wide
          ∙ (digits-step (n / 10) (n % 10) rest (omega arith) ∙ ap (λ m. digits m rest) whole))
]

spell-length : (width n : ℕ) → length (spell width n) ≤ width
unfolding spell
spell-length zero n = omega arith
spell-length (suc width) n = elim (Bool-cases (ltb n 10)) [
  | inl one ↦ rw one (omega arith)
  | inr more ↦ rw more (
      omega (
        arith,
        length-append (spell width (n / 10)) ((b'0' + n % 10) ∷ []),
        spell-length width (n / 10),
      ))
]

IsLine-append : (s t : Text) → IsLine s → IsLine t → IsLine (s ++ t)
unfolding IsLine
IsLine-append [] t l l' = l'
IsLine-append (c ∷ s) t (other, l) l' = (other, IsLine-append s t l l')

spell-IsLine : (width n : ℕ) → IsLine (spell width n)
unfolding spell IsLine
spell-IsLine zero n = tt
spell-IsLine (suc width) n = elim (Bool-cases (ltb n 10)) [
  | inl one ↦ rw one (ground arith, tt)
  | inr more ↦
      rw more
        (IsLine-append (spell width (n / 10)) _ (spell-IsLine width (n / 10)) (ground arith, tt))
]

-- A number begins with a digit, unless it takes no digit at all.
spell-cons :
    (width n : ℕ)
    → 1 ≤ width
    → n < 10 ^ width
    → (d : ℕ) × (s : Text) × (spell width n ≡ (b'0' + d) ∷ s) × (d < 10)
unfolding spell
spell-cons zero n h w = absurd (omega arith)
spell-cons (suc width) n h w = elim (Bool-cases (ltb n 10)) [
  | inl one ↦ (n, [], rw one refl, ground arith)
  | inr more ↦
      let (d, s, e, small) =
        spell-cons width (n / 10) (wider width n w (ground arith)) (narrower width n w) in
      (d, s ++ ((b'0' + n % 10) ∷ []), rw (more, e) refl, small)
]

skip-digit : (d : ℕ) (s : Text) → d < 10 → skip_sign (skip_space ((b'0' + d) ∷ s)) ≡ (b'0' + d) ∷ s
unfolding skip_space
skip-digit d s h =
    let no_space : is_space (b'0' + d) ≡ false = ground arith in
    let no_sign : ((b'0' + d == b'-') || (b'0' + d == b'+')) ≡ false = ground arith in
    rw (no_space, no_sign) refl

minus-digit : (d : ℕ) (s : Text) → d < 10 → is_minus (skip_space ((b'0' + d) ∷ s)) ≡ false
unfolding skip_space
minus-digit d s h =
    let no_space : is_space (b'0' + d) ≡ false = ground arith in
    let no_minus : (b'0' + d == b'-') ≡ false = ground arith in rw (no_space, no_minus) refl

-- The digits of a number and the end of its line.
abbrev line : ℕ → Text
line n = spell 10 n ++ (b'\n' ∷ [])

digits-line : (n : ℕ) → n < 10 ^ 10 → digits 0 (line n) ≡ (n, b'\n' ∷ [])
unfolding digits
digits-line n h = digits-spell 10 n (b'\n' ∷ []) h (omega arith)

starts-line : (n : ℕ) → n < 10 ^ 10 → starts_with_digit (line n) ≡ true
starts-line n h =
    let (d, s, e, small) = spell-cons 10 n (omega arith) h in
    let is : is_digit (b'0' + d) ≡ true = ground arith in rw (e, is) refl

skip-line : (n : ℕ) → n < 10 ^ 10 → skip_sign (skip_space (line n)) ≡ line n
skip-line n h =
    let (d, s, e, small) = spell-cons 10 n (omega arith) h in
    rw e (skip-digit d (s ++ (b'\n' ∷ [])) small)

minus-line : (n : ℕ) → n < 10 ^ 10 → is_minus (skip_space (line n)) ≡ false
minus-line n h =
    let (d, s, e, small) = spell-cons 10 n (omega arith) h in
    rw e (minus-digit d (s ++ (b'\n' ∷ [])) small)

strtol-line : (n : ℕ) → n < 10 ^ 10 → strtol (line n) ≡ (pos n, b'\n' ∷ [])
unfolding strtol
strtol-line n h =
    let fits : leb (2 ^ 63) n ≡ false = ground arith in
    rw (skip-line n h, minus-line n h, starts-line n h, digits-line n h, fits) refl

strtol-minus : (n : ℕ) → n + 1 < 10 ^ 10 → strtol (b'-' ∷ line (n + 1)) ≡ (negsuc n, b'\n' ∷ [])
unfolding strtol skip_space
strtol-minus n h =
    let fits : ltb (2 ^ 63) (n + 1) ≡ false = ground arith in
    let value : sub_ℕ 0 (n + 1) ≡ negsuc n = ground arith in
    rw (starts-line (n + 1) h, digits-line (n + 1) h, fits, value) refl

wrap32-IsInt32 : (n : ℤ) → IsInt32 n → wrap32 n ≡ n
unfolding wrap32 signed32 bits
wrap32-IsInt32 n h = ground (arith, h.above, h.below)

pub strtol_int-decimal : (n : ℤ) → IsInt32 n → (strtol_int (decimal n ++ (b'\n' ∷ []))).0 ≡ n
unfolding strtol_int
strtol_int-decimal (pos n) h =
    rw (strtol-line n (omega (arith, h.below))) (wrap32-IsInt32 (pos n) h)
strtol_int-decimal (negsuc n) h =
    rw (strtol-minus n (omega (arith, h.above))) (wrap32-IsInt32 (negsuc n) h)

pub decimal-IsLine : (n : ℤ) → IsLine (decimal n)
unfolding IsLine
decimal-IsLine (pos n) = spell-IsLine 10 n
decimal-IsLine (negsuc n) = (refl, spell-IsLine 10 (n + 1))

pub decimal-length : (n : ℤ) → length (decimal n) < 19
decimal-length (pos n) = omega (arith, spell-length 10 n)
decimal-length (negsuc n) = omega (arith, spell-length 10 (n + 1))

-- A line is not the end of the file.
dbio_read_num-line :
    (w rest : Text)
    → IsLine w
    → length w < 19
    → dbio_read_num (w ++ (b'\n' ∷ rest))
      ≡ some (record { value = (strtol_int (w ++ (b'\n' ∷ []))).0; rest = rest })
unfolding dbio_read_num
dbio_read_num-line [] rest l h = rw (fgets-IsLine 19 [] rest l h) refl
dbio_read_num-line (c ∷ w) rest l h = rw (fgets-IsLine 19 (c ∷ w) rest l h) refl

pub dbio_read_num-dbio_write_num :
    (n : ℤ) (rest : Text)
    → IsInt32 n
    → dbio_read_num (dbio_write_num n ++ rest) ≡ some (record { value = n; rest = rest })
unfolding dbio_write_num
dbio_read_num-dbio_write_num n rest h =
    rw
      (
        append_assoc (decimal n) (b'\n' ∷ []) rest,
        dbio_read_num-line (decimal n) rest (decimal-IsLine n) (decimal-length n),
        strtol_int-decimal n h,
      )
      refl
