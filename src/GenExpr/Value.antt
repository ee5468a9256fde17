-- ===== src/GenExpr/Value.antt =====
-- The value that the debugger gives to a generated tree, and the one that the compiled program prints.
use ics.Base.{
  ℕ, ◌+◌, ◌^◌, ◌<◌, ◌≤◌, ◌≡◌, refl, ◌∙◌, Option, none, some, bind, ◌==◌, if◌then◌else◌, ltb, ◌&&◌,
  arith, ℤ, pos, ◌+ℤ◌, ◌-ℤ◌, ◌*ℤ◌, quot, pos_part, neg_part, leb, length,
}
use ics.GenExpr.Decimal.{print_u, atoi-print_u}
use ics.GenExpr.Trees.{Operator, plus, minus, times, divide, Tree, num, paren, bin, Small}
use ics.Machine.{Machine}
use ics.Monitor.Expr.{eval}
use ics.Monitor.Expr.Correct.{eval-value}
use ics.Monitor.Expr.Range.{Holds}
use ics.Monitor.Expr.Syntax.{print, IsReadable, Ast, leaf, Leaf, BinOp, operation, value}
use ics.Monitor.Expr.Tokens.{Token, token_value}

-- The tree in the debugger's terms.
abbrev pub to_operator : Operator → BinOp
to_operator plus = BinOp.plus
to_operator minus = BinOp.minus
to_operator times = BinOp.times
to_operator divide = BinOp.divide

unfoldable pub to_ast : Tree → Ast
to_ast (num n) = leaf Leaf.num10 (print_u n)
to_ast (paren t) = Ast.paren (to_ast t)
to_ast (bin o l r) = Ast.bin (to_operator o) (to_ast l) (to_ast r)

-- An int, or nothing where C leaves the result undefined.
abbrev pub as_int : ℤ → Option ℤ
as_int z = if ltb (pos_part z) (2 ^ 31) && leb (neg_part z) (2 ^ 31) then some z else none

unfoldable pub int_operation : Operator → ℤ → ℤ → Option ℤ
int_operation plus a b = as_int (a +ℤ b)
int_operation minus a b = as_int (a -ℤ b)
int_operation times a b = as_int (a *ℤ b)
int_operation divide a b = if pos_part b + neg_part b == 0 then none else as_int (quot a b)

-- The value of the tree in C, whose numbers are ints.
unfoldable pub int_value : Tree → Option ℤ
unfolding int_operation
int_value (num n) = some (pos n)
int_value (paren t) = int_value t
int_value (bin o l r) = bind (int_value l) (λ a. bind (int_value r) (λ b. int_operation o a b))

-- Every part of the tree has a value that is not negative; that of the whole is `n`.
pub data Positive : Tree → ℕ → Type 0 where
  number : {n : ℕ} → Positive (num n) n
  inside : {t : Tree} {n : ℕ} → Positive t n → Positive (paren t) n
  both :
      {o : Operator} {l r : Tree} {a b n : ℕ}
      → Positive l a
      → Positive r b
      → int_operation o (pos a) (pos b) ≡ some (pos n)
      → Positive (bin o l r) n

pub int_value-Positive : {t : Tree} {n : ℕ} → Positive t n → int_value t ≡ some (pos n)
unfolding int_value
int_value-Positive number = refl
int_value-Positive (inside h) = int_value-Positive h
int_value-Positive (both h k e) = rw (int_value-Positive h, int_value-Positive k) e

-- Where ints stay in range and positive, 32-bit words have the same value.
same_operation :
    (o : Operator) (a b n : ℕ)
    → a < 2 ^ 31
    → b < 2 ^ 31
    → int_operation o (pos a) (pos b) ≡ some (pos n)
    → (n < 2 ^ 31) × (operation (to_operator o) a b ≡ some n)
unfolding int_operation ◌+ℤ◌ ◌-ℤ◌ ◌*ℤ◌ quot
same_operation plus a b n h k e = (ground arith, ground arith)
same_operation minus a b n h k e = (ground arith, ground arith)
same_operation times a b n h k e = (ground arith, ground arith)
same_operation divide a b n h k e = (ground arith, ground arith)

pub value-Positive :
    {t : Tree} {n : ℕ} (m : Machine)
    → Small t
    → Positive t n
    → (n < 2 ^ 31) × (int_value t ≡ some (pos n)) × (value (to_ast t) m ≡ some (n, m))
unfolding Small value to_ast token_value
value-Positive m s (number {n}) =
    (omega (arith, s), int_value-Positive number, rw (atoi-print_u n (omega (arith, s))) refl)
value-Positive m s (inside h) =
    let (l, e, v) = value-Positive m s h in (l, int_value-Positive (inside h), v)
value-Positive m s (both {o} {a} {b} {n} h k e) =
    let (la, ea, va) = value-Positive m s.0 h in
    let (lb, eb, vb) = value-Positive m s.1 k in
    let (ln, same) = same_operation o a b n la lb e in
    (ln, int_value-Positive (both h k e), rw (va, vb, same) refl)

-- On the tokens of a tree that `eval` reads as it is meant, with numbers below 9999 and no part that C
-- gives a negative value, fuel for one call per token is enough for `eval` to return the number that
-- the tree's value in C is, and it leaves the machine as it was.
pub eval-Positive :
    (fuel : ℕ) (tokens : ℕ → Token) (p : ℕ) (t : Tree) (n : ℕ) (m : Machine)
    → Holds tokens p (print (to_ast t))
    → IsReadable (to_ast t)
    → length (print (to_ast t)) ≤ fuel
    → Small t
    → Positive t n
    → (int_value t ≡ some (pos n))
      × (eval fuel tokens p (p + length (print (to_ast t))) m ≡ some (n, m))
eval-Positive fuel tokens p t n m h w k s q =
    let (l, e, v) = value-Positive m s q in (e, eval-value fuel tokens p (to_ast t) m h w k ∙ v)
