-- ===== src/Dbio/Examples.antt =====
-- A value that is written and read, with doubles whose pattern is printed as a number.
use stunt.Prelude.{ℕ, ◌≡◌, ◌++◌, refl, Bool, false, none, some, [], arith, ltb, ltb→lt}
use stunt.Prelude.Int.{pos, negsuc, pos_part}
use stunt.Text.Codes.{codes}
use stunt.Text.Strtol.{strtol_int}
use stunt.Value.{Var, int, str, err, list, clear, float, map, nil, cons, leaf, e_perm}
use stunt.Value.Equality.{count}
use stunt.Dbio.Lines.{decimal, spell, dbio_write_num}
use stunt.Dbio.Numbers.{IsLine, decimal-IsLine, decimal-length, strtol_int-decimal}
use stunt.Dbio.Vars.{Printed, Components, write_flat, dbio_write_var, write_items, dbio_read_var}
use stunt.Dbio.Roundtrip.{IsExact, IsDumped, AreDumped, depth, depths, dbio_read_var-dbio_write_var}

abbrev small : ℕ → Bool
small d = ltb d 1000

abbrev numbered : Printed
numbered = record {
  print = λ d. decimal (pos d);
  strtod = λ s. pos_part (strtol_int s).0;
  is_exact = small;
}

numbered-IsExact : IsExact numbered
numbered-IsExact = record {
  one_line = λ d h. decimal-IsLine (pos d);
  short = λ d h. omega (arith, decimal-length (pos d));
  same = λ d h.
      rw
        (strtol_int-decimal (pos d)
          (record { above = omega arith; below = omega (arith, ltb→lt d 1000 h) }))
        refl;
}

abbrev no_others : Components
no_others = record {
  iter_key = λ i. none;
  empty_map = map leaf 0;
  mapinsert = λ m k v. m;
  db_write_anonymous = λ o. [];
  db_read_anonymous = λ s. none;
}

abbrev value : Var
value = list (
    cons (int (negsuc 41)) (
      cons (str (codes "a line"))
        (cons (err e_perm) (cons (list (cons (float 7) (cons clear nil))) nil))))

value-IsDumped : IsDumped numbered value
unfolding IsDumped AreDumped IsLine count
value-IsDumped = (
  record { above = omega arith; below = omega arith },
  (
    record { above = omega arith; below = omega arith },
    (
      (refl, (refl, (refl, (refl, (refl, (refl, tt)))))),
      (tt, ((record { above = omega arith; below = omega arith }, (refl, (tt, tt))), tt)),
    ),
  ),
)

dbio_read_var-dbio_write_var_example :
    dbio_read_var numbered no_others false 20
      (dbio_write_var numbered no_others value ++ codes "rest")
    ≡ some (record { value = value; rest = codes "rest" })
unfolding depth depths
dbio_read_var-dbio_write_var_example =
    dbio_read_var-dbio_write_var numbered no_others false 20 value (codes "rest") numbered-IsExact
      value-IsDumped (omega arith)

-- The number -42 in a list of one element.
written :
    dbio_write_var numbered no_others (list (cons (int (negsuc 41)) nil)) ≡ codes "4\n1\n0\n-42\n"
unfolding dbio_write_var write_items count write_flat dbio_write_num spell
written = refl
