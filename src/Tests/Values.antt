-- ===== src/Tests/Values.antt =====
-- Generated expressions in the debugger.
use ics.Base.{◌≡◌, refl, some, pos, negsuc, arith, ◌+ℤ◌, ◌-ℤ◌, quot}
use ics.GenExpr.Decimal.{print_u}
use ics.GenExpr.Trees.{minus, divide, num, paren, bin, Tree, Small}
use ics.GenExpr.Value.{
  to_ast, int_value, int_operation, Positive, number, inside, both, eval-Positive,
}
use ics.Monitor.Expr.{eval}
use ics.Monitor.Expr.Syntax.{print, value, IsReadable}
use ics.Monitor.Expr.Tokens.{token_value, atoi}
use ics.Tests.{machine, added}
use ics.Tests.Expressions.{nth, nth-Holds}
use ics.Tests.Tools.{tree}

tree-Positive : Positive tree 9
unfolding int_operation ◌+ℤ◌
tree-Positive = both (inside number) number refl

eval-Positive_example :
    (int_value tree ≡ some (pos 9))
    × (eval 5 (nth (print (to_ast tree))) 0 5 (machine added) ≡ some (9, machine added))
unfolding to_ast print IsReadable Small
eval-Positive_example =
    eval-Positive 5 (nth (print (to_ast tree))) 0 tree 9 (machine added)
      (nth-Holds (print (to_ast tree))) (omega arith, omega arith, refl, tt, tt) (omega arith)
      (omega arith, omega arith) tree-Positive

-- (1-3)/2 is -1 in C, and 2^31 - 1 in the debugger.
abbrev negative : Tree
negative = bin divide (paren (bin minus (num 1) (num 3))) (num 2)

negative_differs :
    (int_value negative ≡ some (negsuc 0))
    × (value (to_ast negative) (machine added) ≡ some (0x7fffffff, machine added))
unfolding int_value int_operation ◌-ℤ◌ quot value to_ast token_value atoi print_u
negative_differs = (refl, refl)
