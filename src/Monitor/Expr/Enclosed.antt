-- ===== src/Monitor/Expr/Enclosed.antt =====
-- Binary expressions that begin and end with a parenthesis.
use mathlib.Core.Option.{some-injective}
use ics.Base.{
  ℕ, zero, suc, ◌+◌, ◌-◌, ◌≡◌, refl, ◌∙◌, sym, true, Option, none, some, List, [], ◌∷◌, ◌≢◌, length,
  arith, bind-eq-some, length-append, pos, lt→ltb, ne→==,
}
use ics.Machine.{Machine}
use ics.Monitor.Expr.Tokens.{TokenType, Token}
use ics.Monitor.Expr.Range.{Holds, Holds-append, count_parentheses-list}
use ics.Monitor.Expr.Scan.{count-print}
use ics.Monitor.Expr.Correct.{first_token, last_token}
use ics.Monitor.Expr.Depth.{depth, depth-append, depth-shift, lcom-depth}
use ics.Monitor.Expr.Nesting.{NoDeref, eval-nested, one_token}
use ics.Monitor.Expr.Syntax.{
  Ast, leaf, paren, deref, bin, BinOp, Leaf, print, plain, op_type, opens, closes, length-print_pos,
}
use ics.Monitor.Expr.{is_lcom, check_parentheses, eval}

operator_depth :
    (o : BinOp) (tokens : ℕ → Token) (n p c : ℕ)
    → (tokens p).type ≡ op_type o
    → depth tokens (suc n) p c ≡ depth tokens n (suc p) c
operator_depth BinOp.plus tokens n p c e = one_token tokens n p c c (rw e refl)
operator_depth BinOp.minus tokens n p c e = one_token tokens n p c c (rw e refl)
operator_depth BinOp.times tokens n p c e = one_token tokens n p c c (rw e refl)
operator_depth BinOp.divide tokens n p c e = one_token tokens n p c c (rw e refl)
operator_depth BinOp.eq tokens n p c e = one_token tokens n p c c (rw e refl)
operator_depth BinOp.notequal tokens n p c e = one_token tokens n p c c (rw e refl)
operator_depth BinOp.and tokens n p c e = one_token tokens n p c c (rw e refl)

leaf_depth :
    (k : Leaf) (s : List ℕ) (tokens : ℕ → Token) (p c : ℕ)
    → Holds tokens p (print (leaf k s))
    → depth tokens 1 p c ≡ some c
unfolding Holds print depth
leaf_depth Leaf.num10 s tokens p c h = one_token tokens 0 p c c (rw (h.0.0) refl)
leaf_depth Leaf.hexadecimal s tokens p c h = one_token tokens 0 p c c (rw (h.0.0) refl)
leaf_depth Leaf.regname s tokens p c h = one_token tokens 0 p c c (rw (h.0.0) refl)

-- Every tree prints well nested tokens.
pub depth-print :
    (e : Ast) (tokens : ℕ → Token) (p c : ℕ)
    → Holds tokens p (print e)
    → depth tokens (length (print e)) p c ≡ some c
unfolding Holds print depth
depth-print (leaf k s) tokens p c h = leaf_depth k s tokens p c h
depth-print (paren e) tokens p c h =
    let parts = Holds-append tokens (suc p) (print e) (plain TokenType.rcom ∷ []) h.1 in
    rw
      (
        length-append (print e) (plain TokenType.rcom ∷ []),
        one_token tokens (length (print e) + 1) p c (suc c) (rw (h.0.0) refl),
        depth-append tokens (length (print e)) 1 (suc p) (suc c),
        depth-print e tokens (suc p) (suc c) parts.0,
        one_token tokens 0 (suc p + length (print e)) (suc c) c (rw (parts.1.0.0) refl),
      )
      refl
depth-print (deref e) tokens p c h =
    one_token tokens (length (print e)) p c c (rw (h.0.0) refl) ∙ depth-print e tokens (suc p) c h.1
depth-print (bin o l r) tokens p c h =
    let parts = Holds-append tokens p (print l) (plain (op_type o) ∷ print r) h in
    rw
      (
        length-append (print l) (plain (op_type o) ∷ print r),
        depth-append tokens (length (print l)) (suc (length (print r))) p c,
        depth-print l tokens p c parts.0,
        operator_depth o tokens (length (print r)) (p + length (print l)) c parts.1.0.0,
      )
      (depth-print r tokens (suc (p + length (print l))) c parts.1.1)

-- Past the first parenthesis, the left operand closes what was not opened.
inner_not_nested :
    (tokens : ℕ → Token) (p a b : ℕ)
    → is_lcom (tokens p).type ≡ true
    → depth tokens (suc a) p 0 ≡ some 0
    → depth tokens (a + b) (suc p) 0 ≢ some 0
inner_not_nested tokens p a b first left inner =
    let (d, prefix, rest) =
      bind-eq-some (depth tokens a (suc p) 0) _ (sym (depth-append tokens a b (suc p) 0) ∙ inner) in
    let depths : 0 ≡ suc d = some-injective 0 (suc d) (
      sym left
      ∙ one_token tokens a p 0 1 (lcom-depth (tokens p).type 0 first)
      ∙ depth-shift tokens a (suc p) 0 d prefix) in
    omega (arith, depths)

taken_as_enclosed :
    (tokens : ℕ → Token) (p : ℕ) (e : Ast)
    → Holds tokens p (print e)
    → opens e ≡ true
    → closes e ≡ true
    → check_parentheses tokens p (p + length (print e)) ≡ some true
unfolding check_parentheses
taken_as_enclosed tokens p e h a b =
    let size : p + length (print e) - p ≡ length (print e) = omega arith in
    rw
      (
        first_token tokens p e h,
        last_token tokens p e h,
        a,
        b,
        size,
        count_parentheses-list tokens (print e) p (pos 0) h,
        count-print e 0,
      )
      refl

none_if : {A : Type 0} (o : Option A) → ((x : A) → o ≢ some x) → o ≡ none
none_if none f = refl
none_if (some x) f = absurd (f x refl)

-- `(…) op (…)`, for operands without dereferences, has no value, whatever the fuel: the check takes
-- the outer tokens for one pair of parentheses, and what is between them is not an expression.
pub eval-enclosed_none :
    (n : ℕ) (tokens : ℕ → Token) (p : ℕ) (o : BinOp) (l r : Ast) (m : Machine)
    → Holds tokens p (print (bin o l r))
    → opens l ≡ true
    → closes r ≡ true
    → NoDeref tokens p (p + length (print (bin o l r)))
    → eval n tokens p (p + length (print (bin o l r))) m ≡ none
unfolding eval print
eval-enclosed_none zero tokens p o l r m h a b free = refl
eval-enclosed_none (suc n) tokens p o l r m h a b free =
    let size : length (print (bin o l r)) ≡ length (print l) + suc (length (print r)) =
      length-append (print l) (plain (op_type o) ∷ print r) in
    let nonempty = length-print_pos l in
    let stop : ℕ = p + length (print (bin o l r)) in
    let inside : stop - 1 - suc p ≡ length (print l) - 1 + length (print r) =
      omega (arith, size, nonempty) in
    let whole : suc (length (print l) - 1) ≡ length (print l) = omega (arith, nonempty) in
    let left = (Holds-append tokens p (print l) (plain (op_type o) ∷ print r) h).0 in
    rw
      (
        lt→ltb p stop (omega (arith, size)),
        ne→== (suc p) stop (omega (arith, size, nonempty, length-print_pos r)),
        taken_as_enclosed tokens p (bin o l r) h a b,
      )
      (none_if (eval n tokens (suc p) (stop - 1) m) (λ x value.
        inner_not_nested tokens p (length (print l) - 1) (length (print r))
          (first_token tokens p l left ∙ a) (rw whole (depth-print l tokens p 0 left))
          (rw (sym inside) (
            eval-nested n tokens (suc p) (stop - 1) m x
              (λ i above below. free i (omega arith) (omega arith)) value))))
