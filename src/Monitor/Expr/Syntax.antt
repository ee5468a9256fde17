-- ===== src/Monitor/Expr/Syntax.antt =====
-- Expressions as trees: their tokens, their values, and which of them `eval` reads as they are meant.
use ics.Base.{
  ◌+◌, ◌-◌, ◌*◌, ◌/◌, ◌%◌, ◌^◌, ◌||◌, ◌==◌, if◌then◌else◌, Option, none, some, bind, from_option,
  ◌>>=◌, ℕ, ◌≤◌, ◌<◌, ◌≡◌, Bool, true, false, ◌&&◌, List, [], ◌∷◌, ◌++◌, length, Cmd, arith,
  length-append,
}
use ics.Bus.Memory.{paddr_read}
use ics.Machine.{Machine, on_bus}
use ics.Monitor.Expr.Tokens.{TokenType, Token, token_value}

pub data Leaf : Type 0 where
  num10 hexadecimal regname : Leaf

pub data BinOp : Type 0 where
  plus minus times divide eq notequal and : BinOp

pub data Ast : Type 0 where
  leaf : Leaf → List ℕ → Ast
  paren : Ast → Ast
  deref : Ast → Ast
  bin : BinOp → Ast → Ast → Ast

abbrev pub leaf_type : Leaf → TokenType
leaf_type num10 = TokenType.num10
leaf_type hexadecimal = TokenType.hexadecimal
leaf_type regname = TokenType.regname

abbrev pub op_type : BinOp → TokenType
op_type plus = TokenType.plus
op_type minus = TokenType.minus
op_type times = TokenType.times
op_type divide = TokenType.divide
op_type eq = TokenType.eq
op_type notequal = TokenType.notequal
op_type and = TokenType.and

abbrev pub plain : TokenType → Token
plain type = record { type = type; str = [] }

abbrev pub literal : Leaf → List ℕ → Token
literal k s = record { type = leaf_type k; str = s }

unfoldable pub print : Ast → List Token
print (leaf k s) = literal k s ∷ []
print (paren e) = plain TokenType.lcom ∷ (print e ++ (plain TokenType.rcom ∷ []))
print (deref e) = plain TokenType.deref ∷ print e
print (bin o l r) = print l ++ (plain (op_type o) ∷ print r)

-- The operators on 32-bit words; a quotient by 0 has no value.
abbrev pub operation : BinOp → ℕ → ℕ → Option ℕ
operation plus a b = some ((a + b) % 2 ^ 32)
operation minus a b = some ((a + 2 ^ 32 - b) % 2 ^ 32)
operation times a b = some (a * b % 2 ^ 32)
operation divide a b = if b == 0 then none else some (a / b)
operation eq a b = some (if a == b then 1 else 0)
operation notequal a b = some (if a == b then 0 else 1)
operation and a b = some (if (a == 0) || (b == 0) then 0 else 1)

abbrev pub both : BinOp → Cmd Machine ℕ → Cmd Machine ℕ → Cmd Machine ℕ
both o left right = do a ← left; b ← right; from_option (operation o a b)

-- The value of a tree, operand by operand from the left.
unfoldable pub value : Ast → Cmd Machine ℕ
value (leaf k s) m = token_value (literal k s) m
value (paren e) m = value e m
value (deref e) m = bind (value e m) (λ (a, k). on_bus (paddr_read a 4) k)
value (bin o l r) m = both o (value l) (value r) m

-- How loosely an operator binds.
abbrev pub op_level : BinOp → ℕ
op_level plus = 3
op_level minus = 3
op_level times = 2
op_level divide = 2
op_level eq = 4
op_level notequal = 4
op_level and = 5

abbrev pub level : Ast → ℕ
level (leaf k s) = 0
level (paren e) = 0
level (deref e) = 1
level (bin o l r) = op_level o

-- The first token is a left parenthesis; the last is a right one.
abbrev pub opens : Ast → Bool
opens (leaf k s) = false
opens (paren e) = true
opens (deref e) = false
opens (bin o l r) = opens l

abbrev pub closes : Ast → Bool
closes (leaf k s) = false
closes (paren e) = true
closes (deref e) = closes e
closes (bin o l r) = closes r

-- Operands bind as tightly as precedence and left associativity ask, the operand of a dereference is
-- a literal or in parentheses, and no binary expression both begins and ends with a parenthesis.
unfoldable pub IsReadable : Ast → Type 0
IsReadable (leaf k s) = Unit {0}
IsReadable (paren e) = IsReadable e
IsReadable (deref e) = (level e ≡ 0) × IsReadable e
IsReadable (bin o l r) =
    (level l ≤ op_level o)
    × (level r < op_level o)
    × ((opens l && closes r) ≡ false)
    × IsReadable l
    × IsReadable r

pub length-print_pos : (e : Ast) → 1 ≤ length (print e)
unfolding print
length-print_pos (leaf k s) = omega arith
length-print_pos (paren e) = omega arith
length-print_pos (deref e) = omega arith
length-print_pos (bin o l r) = omega (arith, length-append (print l) (plain (op_type o) ∷ print r))
