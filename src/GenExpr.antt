-- ===== src/GenExpr.antt =====
-- The random expression generator: nemu/tools/gen-expr/gen-expr.c.
pub mod Decimal
pub mod Trees
pub mod Draws
pub mod Printed
pub mod Session
pub mod Value
use ics.Base.{
  ℕ, zero, suc, ◌+◌, ◌%◌, ◌^◌, Bool, true, false, Option, none, some, List, [], ◌∷◌, ◌++◌, ltb,
  ◌==◌, if◌then◌else◌, bind, Cmd, ◌>>=◌, ◌>>◌, abort, assert, codes, length, not, modify, ℤ,
  pattern_of,
}
use Decimal.{print_u}

-- `buf`, as its text up to the NUL, and how many numbers rand() has given.
pub record Gen : Type 0 where
  pub buf : List ℕ
  pub drawn : ℕ

abbrev pub buf_size : ℕ
buf_size = 65536

-- `strcat(buf, text)`, which C leaves undefined where the text and its NUL do not fit.
unfoldable pub strcat : List ℕ → Cmd Gen (Unit {0})
strcat text g =
    if ltb (length (g.buf ++ text)) buf_size
    then some (tt, record g { buf = g.buf ++ text })
    else none

-- What lies outside: the numbers that rand() gives; what the compiler says of a text, which is `none`
-- where system() reports an error or popen() fails, and otherwise the number that the program prints;
-- and the int that fscanf("%d") stores for a printed number. A program that prints no number leaves
-- `result` unset.
pub record Host : Type 0 where
  pub rand : ℕ → ℕ
  pub compile_and_run : List ℕ → Option (Option ℕ)
  pub scan_d : ℕ → ℤ

-- The line that is printed for a text, if it compiles: `result` is an int, which "%u" prints.
unfoldable pub printed : (ℕ → ℤ) → List ℕ → Option (Option ℕ) → Option (List (ℕ × List ℕ))
printed scan_d text none = some []
printed scan_d text (some none) = none
printed scan_d text (some (some output)) = some ((pattern_of 32 (scan_d output), text) ∷ [])

module _ (host : Host) where
  unfoldable pub gen_num : ℕ → Cmd Gen ℕ
  gen_num top g = some (host.rand g.drawn % top, record g { drawn = g.drawn + 1 })

  unfoldable pub gen_opnum : ℕ → Cmd Gen (Unit {0})
  unfolding gen_num strcat
  gen_opnum top = do product ← gen_num top; strcat (print_u product)

  -- The `switch` of `gen_op`.
  unfoldable pub op_text : ℕ → Option (List ℕ)
  op_text n =
      if n == 0
      then some (codes "+")
      else if n == 1
      then some (codes "-")
      else if n == 2
      then some (codes "*")
      else if n == 3
      then some (codes "/")
      else none

  unfoldable pub gen_op : Cmd Gen (Unit {0})
  unfolding gen_num op_text strcat
  gen_op = do n ← gen_num 4; λ g. bind (op_text n) (λ text. strcat text g)

  -- One turn of `gen_rand_expr`, given the calls that it makes of itself.
  unfoldable pub gen_case : Cmd Gen (Unit {0}) → ℕ → Cmd Gen (Unit {0})
  unfolding gen_opnum gen_op strcat
  gen_case again n =
      if n == 0
      then gen_opnum 9999
      else if n == 1
      then (do strcat (codes "("); again; strcat (codes ")"))
      else (do again; gen_op; again)

  abbrev clear : Bool → Gen → Gen
  clear flag g = if flag then record g { buf = [] } else g

  -- On fuel that counts the calls inside each other: nothing in the code bounds them.
  unfoldable pub gen_rand_expr : ℕ → Bool → Cmd Gen (Unit {0})
  unfolding gen_case gen_num
  gen_rand_expr zero flag g = none
  gen_rand_expr (suc fuel) flag g =
      bind (gen_num 3 (clear flag g)) (λ (n, g1). gen_case (gen_rand_expr fuel false) n g1)

  -- The `do` loop of main, for a number of turns.
  unfoldable pub gen_short : ℕ → ℕ → Cmd Gen (Unit {0})
  unfolding gen_rand_expr
  gen_short depth zero g = none
  gen_short depth (suc turns) g = bind (gen_rand_expr depth true g) (λ (t, g1).
      let rest = gen_short depth turns g1 in
      if ltb 64536 (length g1.buf) then rest else some (tt, g1))

  unfoldable pub report : List ℕ → Option (List (ℕ × List ℕ))
  unfolding printed
  report text = printed host.scan_d text (host.compile_and_run text)

  -- The `for` loop of main, `loop` times: the lines that it prints.
  unfoldable pub main_loop : ℕ → ℕ → ℕ → Cmd Gen (List (ℕ × List ℕ))
  unfolding gen_short report
  main_loop depth turns zero g = some ([], g)
  main_loop depth turns (suc loop) g =
      bind (gen_short depth turns (record g { buf = [] })) (λ (t, g1).
        bind (report g1.buf)
          (λ line. bind (main_loop depth turns loop g1) (λ (lines, g2). some (line ++ lines, g2))))
