-- ===== src/Dbio/Vars.antt =====
-- db_io.cc: `dbio_write_var` and `dbio_read_var`.
use stunt.Prelude.{
  ℕ, zero, suc, ◌%◌, Bool, ◌&&◌, Option, some, List, [], ◌∷◌, ◌++◌, get_elem?, if◌then◌else◌,
}
use mathlib.Core.Option
use stunt.Prelude.Int.{ℤ, pos, negsuc, pos_part, eqb_ℤ}
use stunt.Int32.{wrap32}
use stunt.Text.Case.{Text}
use stunt.Value.{
  Error, error_code, e_none, e_type, e_div, e_perm, e_propnf, e_verbnf, e_varnf, e_invind,
  e_recmove, e_maxrec, e_range, e_args, e_nacc, e_invarg, e_quota, e_float, e_file, e_exec,
  e_intrpt, Var, int, obj, str, err, list, clear, none, catch, finally, float, map, iter, anon,
  Items, nil, cons, Node, leaf, node, type_of,
}
use stunt.Value.Equality.{count}
use stunt.Dbio.Lines.{
  Read, fgets, dbio_read_num, dbio_read_string, dbio_write_num, dbio_write_string,
}

-- `printf("%.19g")` and `strtod` of the platform, on the patterns of doubles; `is_exact` says of which
-- doubles what is printed can be read.
pub record Printed : Type 0 where
  pub print : ℕ → Text
  pub strtod : Text → ℕ
  pub is_exact : ℕ → Bool

-- The other components: the key at an iterator, which is no collection, the insertion into a map, and
-- the objects without a number.
pub record Components : Type 0 where
  pub iter_key : ℕ → Option Var
  pub empty_map : Var
  pub mapinsert : Var → Var → Var → Var
  pub db_write_anonymous : ℕ → Text
  pub db_read_anonymous : Text → Option (Read Var)

abbrev pub errors : List Error
errors =
    e_none ∷ e_type ∷ e_div ∷ e_perm ∷ e_propnf ∷ e_verbnf ∷ e_varnf ∷ e_invind ∷ e_recmove
    ∷ e_maxrec ∷ e_range ∷ e_args ∷ e_nacc ∷ e_invarg ∷ e_quota ∷ e_float ∷ e_file ∷ e_exec
    ∷ e_intrpt ∷ []

module _ (p : Printed) (others : Components) where
  unfoldable pub dbio_write_float : ℕ → Text
  dbio_write_float d = p.print d ++ (b'\n' ∷ [])

  abbrev pub write_body : Var → Text
  write_body (str s) = dbio_write_string s
  write_body (obj n) = dbio_write_num n
  write_body (err e) = dbio_write_num (pos (error_code e))
  write_body (int n) = dbio_write_num n
  write_body (catch n) = dbio_write_num n
  write_body (finally n) = dbio_write_num n
  write_body (float d) = dbio_write_float d
  write_body (anon o) = others.db_write_anonymous o
  write_body v = []

  abbrev pub write_type : Var → Text
  write_type v = dbio_write_num (pos (type_of v % 128))

  -- A value that holds no others.
  unfoldable pub write_flat : Var → Text
  write_flat v = write_type v ++ write_body v

  abbrev pub write_key : Option Var → Text
  write_key Option.none = write_flat clear
  write_key (some key) = write_flat key

  unfoldable mutual
    pub dbio_write_var : Var → Text
    dbio_write_var (iter i) = write_key (others.iter_key i)
    dbio_write_var (map t size) =
        write_type (map t size) ++ (dbio_write_num (wrap32 (pos size)) ++ write_nodes t)
    dbio_write_var (list xs) =
        write_type (list xs) ++ (dbio_write_num (pos (count xs)) ++ write_items xs)
    dbio_write_var v = write_flat v

    pub write_items : Items → Text
    write_items nil = []
    write_items (cons v xs) = dbio_write_var v ++ write_items xs

    -- `mapforeach` with `dbio_write_map`.
    pub write_nodes : Node → Text
    write_nodes leaf = []
    write_nodes (node red key value l r) =
        write_nodes l ++ (dbio_write_var key ++ (dbio_write_var value ++ write_nodes r))

  abbrev pub read_as : (ℤ → Var) → Text → Option (Read Var)
  read_as f input = elim (dbio_read_num input) [
    | Option.none ↦ Option.none
    | some r ↦ some (record { value = f r.value; rest = r.rest })
  ]

  abbrev pub error_at : Text → ℤ → Option (Read Var)
  error_at rest (negsuc n) = Option.none
  error_at rest (pos n) =
      Option.map (λ e. record { value = err e; rest = rest }) (get_elem? errors n)

  -- The number of no error makes no value here.
  abbrev pub read_error : Text → Option (Read Var)
  read_error input = elim (dbio_read_num input) [
    | Option.none ↦ Option.none
    | some r ↦ error_at r.rest r.value
  ]

  abbrev pub read_text : Text → Option (Read Var)
  read_text input = elim (dbio_read_string input) [
    | Option.none ↦ Option.none
    | some r ↦ some (record { value = str r.value; rest = r.rest })
  ]

  unfoldable pub dbio_read_float : Text → Option (Read Var)
  dbio_read_float [] = Option.none
  dbio_read_float (c ∷ input) =
      let chunk = fgets 39 (c ∷ input) in
      some (record { value = float (p.strtod chunk.buffer); rest = chunk.rest })

  -- The elements or the pairs after their number.
  abbrev pub counted : (ℕ → Text → Option (Read Var)) → Text → Option (Read Var)
  counted read input = elim (dbio_read_num input) [
    | Option.none ↦ Option.none
    | some n ↦ read (pos_part n.value) n.rest
  ]

  abbrev pub as_list : Option (Read Items) → Option (Read Var)
  as_list r = Option.map (λ (x : Read Items). record { value = list x.value; rest = x.rest }) r

  module _ (is_prehistoric : Bool) where
    -- The `switch` on the type, with what the cases that read other values read.
    abbrev pub by_type :
        ℤ → Text → Option (Read Var) → Option (Read Var) → Option (Read Var) → Option (Read Var)
    by_type l rest items pairs key =
        if eqb_ℤ l (negsuc 0) && is_prehistoric
        then some (record { value = none; rest = rest })
        else if eqb_ℤ l (pos 5)
        then some (record { value = clear; rest = rest })
        else if eqb_ℤ l (pos 6)
        then some (record { value = none; rest = rest })
        else if eqb_ℤ l (pos 2)
        then read_text rest
        else if eqb_ℤ l (pos 1)
        then read_as obj rest
        else if eqb_ℤ l (pos 3)
        then read_error rest
        else if eqb_ℤ l (pos 0)
        then read_as int rest
        else if eqb_ℤ l (pos 7)
        then read_as catch rest
        else if eqb_ℤ l (pos 8)
        then read_as finally rest
        else if eqb_ℤ l (pos 9)
        then dbio_read_float rest
        else if eqb_ℤ l (pos 10)
        then pairs
        else if eqb_ℤ l (pos 4)
        then items
        else if eqb_ℤ l (pos 11)
        then key
        else if eqb_ℤ l (pos 12)
        then others.db_read_anonymous rest
        else some (record { value = int (pos 0); rest = rest })

    -- On fuel; `none` is also the end of the file.
    unfoldable mutual
      pub dbio_read_var : ℕ → Text → Option (Read Var)
      dbio_read_var zero input = Option.none
      dbio_read_var (suc fuel) input = elim (dbio_read_num input) [
        | Option.none ↦ Option.none
        | some l ↦
            by_type l.value l.rest (counted (λ n rest. as_list (read_items fuel n rest)) l.rest)
              (counted (λ n rest. read_pairs fuel n others.empty_map rest) l.rest)
              (dbio_read_var fuel l.rest)
      ]

      pub read_items : ℕ → ℕ → Text → Option (Read Items)
      read_items zero n input = Option.none
      read_items (suc fuel) zero input = some (record { value = nil; rest = input })
      read_items (suc fuel) (suc n) input = elim (dbio_read_var fuel input) [
        | Option.none ↦ Option.none
        | some v ↦
            Option.map (λ (r : Read Items). record r { value = cons v.value r.value })
              (read_items fuel n v.rest)
      ]

      pub read_pairs : ℕ → ℕ → Var → Text → Option (Read Var)
      read_pairs zero n m input = Option.none
      read_pairs (suc fuel) zero m input = some (record { value = m; rest = input })
      read_pairs (suc fuel) (suc n) m input = elim (dbio_read_var fuel input) [
        | Option.none ↦ Option.none
        | some key ↦ elim (dbio_read_var fuel key.rest) [
          | Option.none ↦ Option.none
          | some value ↦ read_pairs fuel n (others.mapinsert m key.value value.value) value.rest
        ]
      ]
