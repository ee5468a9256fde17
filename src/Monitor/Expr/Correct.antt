-- ===== src/Monitor/Expr/Correct.antt =====
-- What `eval` returns on the tokens of a tree.
use ics.Base.{
  ◌==◌, Cmd, bind, ap, Bool-cases, inl, inr, ℕ, zero, suc, ◌+◌, ◌-◌, ◌≤◌, ◌≡◌, refl, true, false,
  ◌&&◌, some, List, [], ◌∷◌, length, arith, length-append, pos, fun_ext, lt→ltb, eq→==, ne→==,
}
use ics.Machine.{Machine}
use ics.Monitor.Expr.Tokens.{TokenType, Token, token_value}
use ics.Monitor.Expr.Range.{
  SameToken, Holds, Holds-append, search_operator-list, count_parentheses-list,
}
use ics.Monitor.Expr.Scan.{count-print, search-print, root}
use ics.Monitor.Expr.Syntax.{
  operation, both, Ast, leaf, paren, deref, bin, BinOp, Leaf, print, value, plain, literal, op_type,
  opens, closes, IsReadable, length-print_pos,
}
use ics.Monitor.Expr.{
  combine, apply_operator, is_lcom, is_rcom, check_parentheses, find_primary_operator, eval,
  eval_at, is_deref,
}

pub first_token :
    (tokens : ℕ → Token) (p : ℕ) (e : Ast)
    → Holds tokens p (print e)
    → is_lcom (tokens p).type ≡ opens e
unfolding Holds print
first_token tokens p (leaf Leaf.num10 s) h = rw (h.0.0) refl
first_token tokens p (leaf Leaf.hexadecimal s) h = rw (h.0.0) refl
first_token tokens p (leaf Leaf.regname s) h = rw (h.0.0) refl
first_token tokens p (paren e) h = rw (h.0.0) refl
first_token tokens p (deref e) h = rw (h.0.0) refl
first_token tokens p (bin o l r) h =
    first_token tokens p l (Holds-append tokens p (print l) (plain (op_type o) ∷ print r) h).0

pub last_token :
    (tokens : ℕ → Token) (p : ℕ) (e : Ast)
    → Holds tokens p (print e)
    → is_rcom (tokens (p + length (print e) - 1)).type ≡ closes e
unfolding Holds print
last_token tokens p (leaf Leaf.num10 s) h =
    let here : p + 1 - 1 ≡ p = omega arith in rw (here, h.0.0) refl
last_token tokens p (leaf Leaf.hexadecimal s) h =
    let here : p + 1 - 1 ≡ p = omega arith in rw (here, h.0.0) refl
last_token tokens p (leaf Leaf.regname s) h =
    let here : p + 1 - 1 ≡ p = omega arith in rw (here, h.0.0) refl
last_token tokens p (paren e) h =
    let here : p + length (print (paren e)) - 1 ≡ suc p + length (print e) =
      omega (arith, length-append (print e) (plain TokenType.rcom ∷ [])) in
    rw (here, (Holds-append tokens (suc p) (print e) (plain TokenType.rcom ∷ []) h.1).1.0.0) refl
last_token tokens p (deref e) h =
    let here : p + length (print (deref e)) - 1 ≡ suc p + length (print e) - 1 = omega arith in
    rw here (last_token tokens (suc p) e h.1)
last_token tokens p (bin o l r) h =
    let parts = Holds-append tokens p (print l) (plain (op_type o) ∷ print r) h in
    let here : p + length (print (bin o l r)) - 1
        ≡ suc (p + length (print l)) + length (print r) - 1 =
      omega (arith, length-append (print l) (plain (op_type o) ∷ print r)) in
    rw here (last_token tokens (suc (p + length (print l))) r parts.1.1)

spanned : (p n : ℕ) → p + n - p ≡ n
spanned p n = omega arith

-- Only a tree in parentheses counts as enclosed.
not_enclosed :
    (tokens : ℕ → Token) (p : ℕ) (e : Ast)
    → Holds tokens p (print e)
    → (opens e && closes e) ≡ false
    → check_parentheses tokens p (p + length (print e)) ≡ some false
unfolding check_parentheses
not_enclosed tokens p e h apart = rw (first_token tokens p e h, last_token tokens p e h, apart) refl

enclosed :
    (tokens : ℕ → Token) (p : ℕ) (e : Ast)
    → Holds tokens p (print (paren e))
    → check_parentheses tokens p (p + length (print (paren e))) ≡ some true
unfolding check_parentheses
enclosed tokens p e h =
    rw
      (
        first_token tokens p (paren e) h,
        last_token tokens p (paren e) h,
        spanned p (length (print (paren e))),
        count_parentheses-list tokens (print (paren e)) p (pos 0) h,
        count-print (paren e) 0,
      )
      refl

found :
    (tokens : ℕ → Token) (p : ℕ) (e : Ast)
    → Holds tokens p (print e)
    → IsReadable e
    → find_primary_operator tokens p (p + length (print e)) ≡ p + root e
unfolding find_primary_operator
found tokens p e h w =
    rw
      (
        find_primary_operator,
        spanned p (length (print e)),
        search_operator-list tokens (print e) p (record { flag = pos 0; priority = 0; out = p }) h,
        search-print e p w,
      )
      refl

-- A range of more than one token, at its root.
at_root :
    (n : ℕ) (tokens : ℕ → Token) (p : ℕ) (e : Ast) (m : Machine)
    → Holds tokens p (print e)
    → IsReadable e
    → 2 ≤ length (print e)
    → (opens e && closes e) ≡ false
    → eval (suc n) tokens p (p + length (print e)) m
      ≡ eval_at (eval n tokens) tokens p (p + length (print e)) (p + root e) m
unfolding eval
at_root n tokens p e m h w long apart =
    rw
      (
        lt→ltb p (p + length (print e)) (omega arith),
        ne→== (suc p) (p + length (print e)) (omega arith),
        not_enclosed tokens p e h apart,
        found tokens p e h w,
      )
      refl

not_deref : (o : BinOp) → is_deref (op_type o) ≡ false
not_deref BinOp.plus = refl
not_deref BinOp.minus = refl
not_deref BinOp.times = refl
not_deref BinOp.divide = refl
not_deref BinOp.eq = refl
not_deref BinOp.notequal = refl
not_deref BinOp.and = refl

same_operation : (o : BinOp) (a b : ℕ) → apply_operator (op_type o) a b ≡ operation o a b
same_operation BinOp.plus a b = refl
same_operation BinOp.minus a b = refl
same_operation BinOp.times a b = refl
same_operation BinOp.divide a b = refl
same_operation BinOp.eq a b = elim (Bool-cases (a == b)) [ inl e ↦ rw e refl | inr e ↦ rw e refl ]
same_operation BinOp.notequal a b = elim (Bool-cases (a == b)) [
  | inl e ↦ rw e refl
  | inr e ↦ rw e refl
]
same_operation BinOp.and a b = elim (Bool-cases (a == 0)) [
  | inl e ↦ rw e refl
  | inr e ↦ elim (Bool-cases (b == 0)) [ inl f ↦ rw (e, f) refl | inr f ↦ rw (e, f) refl ]
]

combine-both :
    (o : BinOp) (left right : Cmd Machine ℕ) (m : Machine)
    → combine (op_type o) left right m ≡ both o left right m
combine-both o left right m = ap (bind (left m)) (
    fun_ext (λ x.
      ap (bind (right x.1))
        (fun_ext (λ y. ap (λ r. bind r (λ v. some (v, y.1))) (same_operation o x.0 y.0)))))

literal_value :
    (k : Leaf) (s : List ℕ) (t : Token) (m : Machine)
    → SameToken t (literal k s)
    → token_value t m ≡ token_value (literal k s) m
unfolding token_value
literal_value Leaf.num10 s t m same = rw (same.0, same.1 refl) refl
literal_value Leaf.hexadecimal s t m same = rw (same.0, same.1 refl) refl
literal_value Leaf.regname s t m same = rw (same.0, same.1 refl) refl

-- On the tokens of a readable tree, fuel for one call per token is enough for `eval` to return the
-- tree's value and what its reads leave of the machine, and to abort where the value does.
pub eval-value :
    (n : ℕ) (tokens : ℕ → Token) (p : ℕ) (e : Ast) (m : Machine)
    → Holds tokens p (print e)
    → IsReadable e
    → length (print e) ≤ n
    → eval n tokens p (p + length (print e)) m ≡ value e m
unfolding Holds print eval value IsReadable
eval-value zero tokens p e m h w k = absurd (omega (arith, length-print_pos e))
eval-value (suc n) tokens p (leaf kind s) m h w k =
    rw (lt→ltb p (p + 1) (omega arith), eq→== (suc p) (p + 1) (omega arith))
      (literal_value kind s (tokens p) m h.0)
eval-value (suc n) tokens p (paren e) m h w k =
    let size : length (print (paren e)) ≡ 2 + length (print e) =
      omega (arith, length-append (print e) (plain TokenType.rcom ∷ [])) in
    let inner : p + length (print (paren e)) - 1 ≡ suc p + length (print e) = omega (arith, size) in
    rw
      (
        lt→ltb p (p + length (print (paren e))) (omega (arith, size)),
        ne→== (suc p) (p + length (print (paren e))) (omega (arith, size, length-print_pos e)),
        enclosed tokens p e h,
        inner,
      )
      (eval-value n tokens (suc p) e m (Holds-append tokens (suc p) (print e) _ h.1).0 w
        (omega (arith, size)))
eval-value (suc n) tokens p (deref e) m h w k =
    let here : p + 0 ≡ p = omega arith in
    let after : p + length (print (deref e)) ≡ suc p + length (print e) = omega arith in
    let operand : eval n tokens (suc p) (suc p + length (print e)) ≡ value e =
      fun_ext (λ m'. eval-value n tokens (suc p) e m' h.1 w.1 (omega arith)) in
    rw
      (
        at_root n tokens p (deref e) m h w (omega (arith, length-print_pos e)) refl,
        here,
        h.0.0,
        after,
        operand,
      )
      refl
eval-value (suc n) tokens p (bin o l r) m h w k =
    let parts = Holds-append tokens p (print l) (plain (op_type o) ∷ print r) h in
    let size : length (print (bin o l r)) ≡ length (print l) + suc (length (print r)) =
      length-append (print l) (plain (op_type o) ∷ print r) in
    let after : p + length (print (bin o l r)) ≡ suc (p + length (print l)) + length (print r) =
      omega (arith, size) in
    let left : eval n tokens p (p + length (print l)) ≡ value l =
      fun_ext (λ m'. eval-value n tokens p l m' parts.0 w.3 (omega (arith, size))) in
    let right : eval n tokens (suc (p + length (print l)))
          (suc (p + length (print l)) + length (print r))
        ≡ value r =
      fun_ext (λ m'.
        eval-value n tokens (suc (p + length (print l))) r m' parts.1.1 w.4
          (omega (arith, size))) in
    rw
      (
        at_root n tokens p (bin o l r) m h w
            (omega (arith, size, length-print_pos l, length-print_pos r)) w.2,
        parts.1.0.0,
        not_deref o,
        after,
        left,
        right,
      )
      (combine-both o (value l) (value r) m)
