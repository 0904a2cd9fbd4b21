-- ===== src/Value.antt =====
-- structures.h: the values of the MOO language, with what lists and maps hold.
pub mod Compare
pub mod Equality
pub mod Sample
pub mod Examples
use stunt.Prelude.{ℕ, Bool, true, false, ◌||◌, not, List, [], ◌∷◌, ◌==◌}
use stunt.Prelude.Int.{ℤ, pos, eqb_ℤ}
use stunt.Text.Case.{Text}

-- `enum error`
pub data Error : Type 0 where
  e_none e_type e_div e_perm e_propnf e_verbnf e_varnf e_invind e_recmove e_maxrec : Error
  e_range e_args e_nacc e_invarg e_quota e_float e_file e_exec e_intrpt : Error

-- The number of an error, by its place in the list.
abbrev pub error_code : Error → ℕ
error_code e_none = 0
error_code e_type = 1
error_code e_div = 2
error_code e_perm = 3
error_code e_propnf = 4
error_code e_verbnf = 5
error_code e_varnf = 6
error_code e_invind = 7
error_code e_recmove = 8
error_code e_maxrec = 9
error_code e_range = 10
error_code e_args = 11
error_code e_nacc = 12
error_code e_invarg = 13
error_code e_quota = 14
error_code e_float = 15
error_code e_file = 16
error_code e_exec = 17
error_code e_intrpt = 18

-- `struct Var`. An integer or an object number is an `int32`; a float is the pattern of its 64
-- bits; a map is the root of its tree and the stored size; an iterator or an anonymous object is
-- its pointer as a number, 0 for NULL.
mutual
  pub data Var : Type 0 where
    int : ℤ → Var
    obj : ℤ → Var
    str : Text → Var
    err : Error → Var
    list : Items → Var
    clear : Var
    none : Var
    catch : ℤ → Var
    finally : ℤ → Var
    float : ℕ → Var
    map : Node → ℕ → Var
    iter : ℕ → Var
    anon : ℕ → Var

  -- The elements of a list; `list[0]`, the length, is not stored.
  pub data Items : Type 0 where
    nil : Items
    cons : Var → Items → Items

  -- `struct rbnode`, with NULL; `true` is red.
  pub data Node : Type 0 where
    leaf : Node
    node : Bool → Var → Var → Node → Node → Node

-- `var_type`, the complex types with their flag 0x80.
abbrev pub type_of : Var → ℕ
type_of (int n) = 0
type_of (obj n) = 1
type_of (str s) = 0x82
type_of (err e) = 3
type_of (list xs) = 0x84
type_of clear = 5
type_of none = 6
type_of (catch n) = 7
type_of (finally n) = 8
type_of (float d) = 0x89
type_of (map t n) = 0x8a
type_of (iter p) = 0x8b
type_of (anon p) = 0x8c

abbrev pub is_collection : Var → Bool
is_collection v = (type_of v == 0x84) || (type_of v == 0x8a) || (type_of v == 0x8c)

-- The doubles of the platform, on the patterns of their bits: arithmetic, the tests, and the
-- conversions that the program uses.
pub record Floats : Type 0 where
  pub add : ℕ → ℕ → ℕ
  pub subtract : ℕ → ℕ → ℕ
  pub multiply : ℕ → ℕ → ℕ
  pub divide : ℕ → ℕ → ℕ
  pub fmod : ℕ → ℕ → ℕ
  pub fabs : ℕ → ℕ
  pub less : ℕ → ℕ → Bool
  pub equal : ℕ → ℕ → Bool
  pub is_zero : ℕ → Bool
  pub is_real : ℕ → Bool
  pub to_int : ℕ → ℤ

unfoldable pub is_true : Floats → Var → Bool
is_true f (int n) = not (eqb_ℤ n (pos 0))
is_true f (float d) = not (f.is_zero d)
is_true f (str []) = false
is_true f (str (c ∷ s)) = true
is_true f (list nil) = false
is_true f (list (cons v xs)) = true
is_true f (map t n) = not (n == 0)
is_true f _ = false
