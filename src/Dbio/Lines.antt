-- ===== src/Dbio/Lines.antt =====
-- db_io.cc: the lines of the file: `dbio_read_num`, `dbio_read_float`, `dbio_read_string` and the
-- functions that write what they read.
use stunt.Prelude.{
  ℕ, zero, suc, ◌+◌, ◌/◌, ◌%◌, Bool, false, ◌&&◌, not, Option, none, some, [], ◌∷◌, ◌++◌, length,
  ltb, ◌==◌, if◌then◌else◌,
}
use mathlib.Core.Option
use stunt.Prelude.Int.{ℤ, pos, negsuc}
use stunt.Text.Case.{Text}
use stunt.Text.Strtol.{strtol_int}

-- The C library's `fgets`, with the number of bytes that it reads at most: what it stores, and what it
-- leaves of the file.
pub record Chunk : Type 0 where
  pub buffer : Text
  pub rest : Text

abbrev pub store : ℕ → Chunk → Chunk
store c k = record k { buffer = c ∷ k.buffer }

unfoldable pub fgets : ℕ → Text → Chunk
fgets zero input = record { buffer = []; rest = input }
fgets (suc n) [] = record { buffer = []; rest = [] }
fgets (suc n) (c ∷ input) =
    let more = fgets n input in
    if c == b'\n' then record { buffer = c ∷ []; rest = input } else store c more

-- What is read, and what is left; `none` where the end of the file leaves the buffer as it was.
pub record Read (A : Type 0) : Type 0 where
  pub value : A
  pub rest : Text

unfoldable pub dbio_read_num : Text → Option (Read ℤ)
dbio_read_num [] = none
dbio_read_num (c ∷ input) =
    let chunk = fgets 19 (c ∷ input) in
    some (record { value = (strtol_int chunk.buffer).0; rest = chunk.rest })

abbrev pub ends_line : Text → Bool
ends_line [] = false
ends_line (c ∷ []) = c == b'\n'
ends_line (c ∷ d ∷ s) = ends_line (d ∷ s)

abbrev pub chop : Text → Text
chop [] = []
chop (c ∷ []) = if c == b'\n' then [] else c ∷ []
chop (c ∷ d ∷ s) = c ∷ chop (d ∷ s)

-- The loop by `goto`, on fuel: a line that fills the buffer is read in pieces.
unfoldable pub read_pieces : ℕ → Text → Option (Read Text)
read_pieces zero input = none
read_pieces (suc fuel) [] = none
read_pieces (suc fuel) (c ∷ input) =
    let chunk = fgets 1023 (c ∷ input) in
    let later = read_pieces fuel chunk.rest in
    if (length chunk.buffer == 1023) && not (ends_line chunk.buffer)
    then Option.map (λ (r : Read Text). record r { value = chunk.buffer ++ r.value }) later
    else some (record { value = chop chunk.buffer; rest = chunk.rest })

unfoldable pub dbio_read_string : Text → Option (Read Text)
dbio_read_string input = read_pieces (suc (length input)) input

-- `printf("%d")`: at most `width` digits, of which an `int` has ten.
unfoldable pub spell : ℕ → ℕ → Text
spell zero n = []
spell (suc width) n =
    let more = spell width (n / 10) in
    if ltb n 10 then (b'0' + n) ∷ [] else more ++ ((b'0' + n % 10) ∷ [])

abbrev pub decimal : ℤ → Text
decimal (pos n) = spell 10 n
decimal (negsuc n) = b'-' ∷ spell 10 (n + 1)

unfoldable pub dbio_write_num : ℤ → Text
dbio_write_num n = decimal n ++ (b'\n' ∷ [])

unfoldable pub dbio_write_string : Text → Text
dbio_write_string s = s ++ (b'\n' ∷ [])
