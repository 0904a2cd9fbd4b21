-- ===== src/Dbio/Roundtrip.antt =====
-- Values are read as they were written.
use stunt.Prelude.{
  ℕ, zero, suc, ◌+◌, ◌%◌, ◌≤◌, ◌<◌, ◌≡◌, refl, ap, ◌∙◌, Bool, true, Option, some, [], ◌∷◌, ◌++◌,
  arith, length, get_elem?,
}
use mathlib.Core.Option
use mathlib.Core.List.{append_assoc}
use stunt.Prelude.Int.{ℤ, pos}
use stunt.Int32.{IsInt32}
use stunt.Text.Case.{Text}
use stunt.Value.{
  Error, error_code, e_none, Var, int, obj, str, err, list, clear, none, catch, finally, float, map,
  iter, anon, Items, nil, cons, type_of,
}
use stunt.Value.Equality.{count}
use stunt.Dbio.Lines.{Read, dbio_write_num, dbio_write_string}
use stunt.Dbio.Numbers.{IsLine, fgets-IsLine, dbio_read_num-dbio_write_num}
use stunt.Dbio.Strings.{dbio_read_string-dbio_write_string}
use stunt.Dbio.Vars.{
  Printed, Components, errors, dbio_write_float, write_body, write_type, write_flat, dbio_write_var,
  write_items, read_as, read_error, read_text, dbio_read_float, counted, as_list, by_type,
  dbio_read_var, read_items, read_pairs,
}

-- What the platform promises of a double that it prints: one line, shorter than the buffer, from which
-- the double is read.
pub record IsExact (p : Printed) : Type 0 where
  pub one_line : (d : ℕ) → p.is_exact d ≡ true → IsLine (p.print d)
  pub short : (d : ℕ) → p.is_exact d ≡ true → length (p.print d) < 39
  pub same : (d : ℕ) → p.is_exact d ≡ true → p.strtod (p.print d ++ (b'\n' ∷ [])) ≡ d

-- The values that the file can hold, without maps, iterators and anonymous objects: numbers of 32 bits,
-- strings without an end of line, and lists of such values.
module _ (p : Printed) where
  unfoldable mutual
    pub IsDumped : Var → Type 0
    IsDumped (int n) = IsInt32 n
    IsDumped (obj n) = IsInt32 n
    IsDumped (catch n) = IsInt32 n
    IsDumped (finally n) = IsInt32 n
    IsDumped (str s) = IsLine s
    IsDumped (err e) = Unit {0}
    IsDumped clear = Unit {0}
    IsDumped none = Unit {0}
    IsDumped (float d) = p.is_exact d ≡ true
    IsDumped (list xs) = IsInt32 (pos (count xs)) × AreDumped xs
    IsDumped (map t n) = ⊥
    IsDumped (iter i) = ⊥
    IsDumped (anon o) = ⊥

    pub AreDumped : Items → Type 0
    AreDumped nil = Unit {0}
    AreDumped (cons v xs) = IsDumped v × AreDumped xs

unfoldable mutual
  pub depth : Var → ℕ
  depth (list xs) = suc (depths xs)
  depth v = 1

  pub depths : Items → ℕ
  depths nil = 1
  depths (cons v xs) = suc (depth v + depths xs)

pub errors-code : (e : Error) → get_elem? errors (error_code e) ≡ some e
errors-code e_none = refl
errors-code e = refl

code-IsInt32 : (e : Error) → IsInt32 (pos (error_code e))
code-IsInt32 e_none = record { above = omega arith; below = omega arith }
code-IsInt32 e = record { above = omega arith; below = omega arith }

depth-pos : (v : Var) → 1 ≤ depth v
unfolding depth
depth-pos (list xs) = omega arith
depth-pos v = omega arith

depths-pos : (xs : Items) → 1 ≤ depths xs
unfolding depths
depths-pos nil = omega arith
depths-pos (cons v xs) = omega arith

module _ (p : Printed) (others : Components) (exact : IsExact p) (is_prehistoric : Bool) where
  -- The line of the type is read, and then what the type says.
  read-type :
      (fuel k : ℕ) (rest : Text)
      → k < 128
      → dbio_read_var p others is_prehistoric (suc fuel) (dbio_write_num (pos k) ++ rest)
        ≡ by_type p others is_prehistoric
            (pos k)
            rest
            (counted p others
              (λ n t. as_list p others (read_items p others is_prehistoric fuel n t))
              rest)
            (counted p others
              (λ n t. read_pairs p others is_prehistoric fuel n others.empty_map t)
              rest)
            (dbio_read_var p others is_prehistoric fuel rest)
  unfolding dbio_read_var
  read-type fuel k rest h =
      rw
        (
          dbio_read_num-dbio_write_num (pos k) rest
              (record { above = omega arith; below = omega arith }),
          dbio_read_var,
        )
        refl

  read-flat :
      (fuel : ℕ) (v : Var) (rest : Text)
      → dbio_read_var p others is_prehistoric (suc fuel) (write_flat p others v ++ rest)
        ≡ by_type p others is_prehistoric
            (pos (type_of v % 128))
            (write_body p others v ++ rest)
            (counted p others
              (λ n t. as_list p others (read_items p others is_prehistoric fuel n t))
              (write_body p others v ++ rest))
            (counted p others
              (λ n t. read_pairs p others is_prehistoric fuel n others.empty_map t)
              (write_body p others v ++ rest))
            (dbio_read_var p others is_prehistoric fuel (write_body p others v ++ rest))
  unfolding write_flat
  read-flat fuel v rest =
      rw (append_assoc (write_type p others v) (write_body p others v) rest)
        (read-type fuel (type_of v % 128) (write_body p others v ++ rest) (omega arith))

  read_as-num :
      (f : ℤ → Var) (n : ℤ) (rest : Text)
      → IsInt32 n
      → read_as p others f (dbio_write_num n ++ rest) ≡ some (record { value = f n; rest = rest })
  read_as-num f n rest h = rw (dbio_read_num-dbio_write_num n rest h, read_as) refl

  counted-num :
      (read : ℕ → Text → Option (Read Var)) (k : ℕ) (rest : Text)
      → IsInt32 (pos k)
      → counted p others read (dbio_write_num (pos k) ++ rest) ≡ read k rest
  counted-num read k rest h = rw (dbio_read_num-dbio_write_num (pos k) rest h, counted) refl

  read_text-string :
      (s rest : Text)
      → IsLine s
      → read_text p others (dbio_write_string s ++ rest)
        ≡ some (record { value = str s; rest = rest })
  read_text-string s rest h = rw (dbio_read_string-dbio_write_string s rest h, read_text) refl

  read_error-code :
      (e : Error) (rest : Text)
      → read_error p others (dbio_write_num (pos (error_code e)) ++ rest)
        ≡ some (record { value = err e; rest = rest })
  read_error-code e rest =
      rw (dbio_read_num-dbio_write_num (pos (error_code e)) rest (code-IsInt32 e), read_error)
        (ap (λ (x : Option Error). Option.map (λ e'. record { value = err e'; rest = rest }) x)
          (errors-code e))

  float-line :
      (w rest : Text)
      → IsLine w
      → length w < 39
      → dbio_read_float p others (w ++ (b'\n' ∷ rest))
        ≡ some (record { value = float (p.strtod (w ++ (b'\n' ∷ []))); rest = rest })
  unfolding dbio_read_float
  float-line [] rest l h = rw (fgets-IsLine 39 [] rest l h) refl
  float-line (c ∷ w) rest l h = rw (fgets-IsLine 39 (c ∷ w) rest l h) refl

  dbio_read_float-dbio_write_float :
      (d : ℕ) (rest : Text)
      → p.is_exact d ≡ true
      → dbio_read_float p others (dbio_write_float p others d ++ rest)
        ≡ some (record { value = float d; rest = rest })
  unfolding dbio_write_float
  dbio_read_float-dbio_write_float d rest h =
      rw
        (
          append_assoc (p.print d) (b'\n' ∷ []) rest,
          float-line (p.print d) rest (exact.one_line d h) (exact.short d h),
          exact.same d h,
        )
        refl

  mutual
    unfolding dbio_write_var write_items dbio_read_var read_items count depth depths IsDumped
        AreDumped

    read-var :
        (fuel : ℕ) (v : Var) (rest : Text)
        → IsDumped p v
        → depth v ≤ fuel
        → dbio_read_var p others is_prehistoric fuel (dbio_write_var p others v ++ rest)
          ≡ some (record { value = v; rest = rest })
    read-var zero v rest d h = absurd (omega (arith, depth-pos v))
    read-var (suc fuel) (int n) rest d h = read-flat fuel (int n) rest ∙ read_as-num int n rest d
    read-var (suc fuel) (obj n) rest d h = read-flat fuel (obj n) rest ∙ read_as-num obj n rest d
    read-var (suc fuel) (catch n) rest d h =
        read-flat fuel (catch n) rest ∙ read_as-num catch n rest d
    read-var (suc fuel) (finally n) rest d h =
        read-flat fuel (finally n) rest ∙ read_as-num finally n rest d
    read-var (suc fuel) (str s) rest d h = read-flat fuel (str s) rest ∙ read_text-string s rest d
    read-var (suc fuel) (err e) rest d h = read-flat fuel (err e) rest ∙ read_error-code e rest
    read-var (suc fuel) (float x) rest d h =
        read-flat fuel (float x) rest ∙ dbio_read_float-dbio_write_float x rest d
    read-var (suc fuel) clear rest d h = read-flat fuel clear rest
    read-var (suc fuel) none rest d h = read-flat fuel none rest
    read-var (suc fuel) (list xs) rest (size, d) h =
        rw
          (
            append_assoc (write_type p others (list xs))
                (dbio_write_num (pos (count xs)) ++ write_items p others xs) rest,
            append_assoc (dbio_write_num (pos (count xs))) (write_items p others xs) rest,
          )
          (read-type fuel 4 (dbio_write_num (pos (count xs)) ++ (write_items p others xs ++ rest))
              (omega arith)
            ∙ (counted-num (λ n t. as_list p others (read_items p others is_prehistoric fuel n t))
                  (count xs) (write_items p others xs ++ rest) size
                ∙ ap (as_list p others) (read-items fuel xs rest d (omega arith))))
    read-var (suc fuel) (map t n) rest d h = absurd d
    read-var (suc fuel) (iter i) rest d h = absurd d
    read-var (suc fuel) (anon o) rest d h = absurd d

    read-items :
        (fuel : ℕ) (xs : Items) (rest : Text)
        → AreDumped p xs
        → depths xs ≤ fuel
        → read_items p others is_prehistoric fuel (count xs) (write_items p others xs ++ rest)
          ≡ some (record { value = xs; rest = rest })
    read-items zero xs rest d h = absurd (omega (arith, depths-pos xs))
    read-items (suc fuel) nil rest d h = refl
    read-items (suc fuel) (cons v xs) rest (first, d) h =
        rw
          (
            append_assoc (dbio_write_var p others v) (write_items p others xs) rest,
            read-var fuel v (write_items p others xs ++ rest) first (omega (arith, depths-pos xs)),
            read-items fuel xs rest d (omega (arith, depth-pos v)),
            read_items,
          )
          refl

-- A value that is made of 32-bit integers, object numbers, the markers of exceptions, strings without
-- an end of line, errors, clear, none, doubles that the platform prints exactly, and lists of such
-- values is what dbio_read_var reads, with fuel for its depth, from what dbio_write_var writes, in old
-- files and new ones; what follows in the file is left.
pub dbio_read_var-dbio_write_var :
    (p : Printed) (others : Components) (is_prehistoric : Bool) (fuel : ℕ) (v : Var) (rest : Text)
    → IsExact p
    → IsDumped p v
    → depth v ≤ fuel
    → dbio_read_var p others is_prehistoric fuel (dbio_write_var p others v ++ rest)
      ≡ some (record { value = v; rest = rest })
dbio_read_var-dbio_write_var p others is_prehistoric fuel v rest exact d h =
    read-var p others exact is_prehistoric fuel v rest d h
