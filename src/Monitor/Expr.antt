-- ===== src/Monitor/Expr.antt =====
-- The debugger's expressions: nemu/src/monitor/debug/expr.c. A range of tokens is `start` and `stop`,
-- where `stop` is the C code's `end` + 1, so that an empty range before the first token is one.
pub mod Correct
pub mod Depth
pub mod Enclosed
pub mod Frame
pub mod Fuel
pub mod Lexer
pub mod Marks
pub mod Nesting
pub mod Range
pub mod Scan
pub mod Syntax
pub mod Tokens
use ics.Base.{
  ℕ, zero, suc, ◌+◌, ◌-◌, ◌*◌, ◌/◌, ◌%◌, ◌^◌, Bool, true, false, ◌&&◌, ◌||◌, not, Option, none,
  some, ltb, ◌==◌, if◌then◌else◌, to_bit, bind, Cmd, ℤ, pos, negsuc,
}
use ics.Bus.Memory.{paddr_read}
use ics.Machine.{Machine, on_bus}
use ics.Monitor.Expr.Tokens.{TokenType, Token, token_value}

abbrev pub inc : ℤ → ℤ
inc (pos n) = pos (suc n)
inc (negsuc zero) = pos 0
inc (negsuc (suc n)) = negsuc n

abbrev pub dec : ℤ → ℤ
dec (pos zero) = negsuc 0
dec (pos (suc n)) = pos n
dec (negsuc n) = negsuc (suc n)

abbrev pub is_zero : ℤ → Bool
is_zero (pos n) = n == 0
is_zero (negsuc n) = false

abbrev pub is_lcom : TokenType → Bool
is_lcom TokenType.lcom = true
is_lcom _ = false

abbrev pub is_rcom : TokenType → Bool
is_rcom TokenType.rcom = true
is_rcom _ = false

-- What one token does to a count of open parentheses.
abbrev pub count_step : TokenType → ℤ → ℤ
count_step TokenType.lcom c = inc c
count_step TokenType.rcom c = dec c
count_step _ c = c

-- The count over `n` tokens from `p`.
unfoldable pub count_parentheses : (ℕ → Token) → ℕ → ℕ → ℤ → ℤ
count_parentheses tokens zero p c = c
count_parentheses tokens (suc n) p c =
    count_parentheses tokens n (suc p) (count_step (tokens p).type c)

unfoldable pub check_parentheses : (ℕ → Token) → ℕ → ℕ → Option Bool
unfolding count_parentheses
check_parentheses tokens start stop =
    if is_lcom (tokens start).type && is_rcom (tokens (stop - 1)).type
    then if is_zero (count_parentheses tokens (stop - start) start (pos 0)) then some true else none
    else some false

-- The variables of the search; `priority` is the C code's, plus one.
pub record Search : Type 0 where
  pub flag : ℤ
  pub priority : ℕ
  pub out : ℕ

-- An operator that is looked at below priority `limit` becomes the candidate, with priority `level`.
abbrev pub accept : ℕ → ℕ → ℕ → Search → Search
accept limit level p s =
    if ltb s.priority limit && is_zero s.flag then record s { priority = level; out = p } else s

abbrev pub accept_and : ℕ → Search → Search
accept_and p s = if is_zero s.flag then record s { priority = 5; out = p } else s

abbrev pub search_step : TokenType → ℕ → Search → Search
search_step TokenType.lcom p s = record s { flag = inc s.flag }
search_step TokenType.rcom p s = record s { flag = dec s.flag }
search_step TokenType.and p s = accept_and p s
search_step TokenType.eq p s = accept 5 4 p s
search_step TokenType.notequal p s = accept 5 4 p s
search_step TokenType.plus p s = accept 4 3 p s
search_step TokenType.minus p s = accept 4 3 p s
search_step TokenType.times p s = accept 3 2 p s
search_step TokenType.divide p s = accept 3 2 p s
search_step TokenType.deref p s = accept 2 1 p s
search_step _ p s = s

unfoldable pub search_operator : (ℕ → Token) → ℕ → ℕ → Search → Search
search_operator tokens zero p s = s
search_operator tokens (suc n) p s =
    search_operator tokens n (suc p) (search_step (tokens p).type p s)

unfoldable pub find_primary_operator : (ℕ → Token) → ℕ → ℕ → ℕ
unfolding search_operator
find_primary_operator tokens start stop =
    (search_operator tokens (stop - start) start
      (record { flag = pos 0; priority = 0; out = start })).out

-- The binary operators on uint32_t; a zero divisor traps, any other token fails an assertion.
abbrev pub apply_operator : TokenType → ℕ → ℕ → Option ℕ
apply_operator TokenType.plus a b = some ((a + b) % 2 ^ 32)
apply_operator TokenType.minus a b = some ((a + 2 ^ 32 - b) % 2 ^ 32)
apply_operator TokenType.times a b = some (a * b % 2 ^ 32)
apply_operator TokenType.divide a b = if b == 0 then none else some (a / b)
apply_operator TokenType.eq a b = some (to_bit (a == b))
apply_operator TokenType.notequal a b = some (to_bit (not (a == b)))
apply_operator TokenType.and a b = some (to_bit (not (a == 0) && not (b == 0)))
apply_operator _ a b = none

abbrev pub read_at : Cmd Machine ℕ → Cmd Machine ℕ
read_at address m = bind (address m) (λ (a, m1). on_bus (paddr_read a 4) m1)

abbrev pub combine : TokenType → Cmd Machine ℕ → Cmd Machine ℕ → Cmd Machine ℕ
combine type left right m = bind (left m) (λ (val1, m1).
    bind (right m1) (λ (val2, m2). bind (apply_operator type val1 val2) (λ v. some (v, m2))))

abbrev pub is_deref : TokenType → Bool
is_deref TokenType.deref = true
is_deref _ = false

-- One call of `eval`, whose recursive calls are `rec`.
abbrev pub eval_at : (ℕ → ℕ → Cmd Machine ℕ) → (ℕ → Token) → ℕ → ℕ → ℕ → Cmd Machine ℕ
eval_at rec tokens start stop op m =
    if is_deref (tokens op).type
    then read_at (rec (suc op) stop) m
    else combine (tokens op).type (rec start op) (rec (suc op) stop) m

abbrev pub eval_range : (ℕ → ℕ → Cmd Machine ℕ) → (ℕ → Token) → ℕ → ℕ → Cmd Machine ℕ
eval_range rec tokens start stop m = bind (check_parentheses tokens start stop) (λ enclosed.
    if enclosed
    then rec (suc start) (stop - 1) m
    else eval_at rec tokens start stop (find_primary_operator tokens start stop) m)

abbrev pub eval_call : (ℕ → ℕ → Cmd Machine ℕ) → (ℕ → Token) → ℕ → ℕ → Cmd Machine ℕ
eval_call rec tokens start stop m =
    if not (ltb start stop)
    then none
    else if suc start == stop
    then token_value (tokens start) m
    else eval_range rec tokens start stop m

-- A range calls `eval` on shorter ones only: fuel `stop - start` is enough.
unfoldable pub eval : ℕ → (ℕ → Token) → ℕ → ℕ → Cmd Machine ℕ
unfolding token_value check_parentheses find_primary_operator
eval zero tokens start stop m = none
eval (suc n) tokens start stop m = eval_call (eval n tokens) tokens start stop m
