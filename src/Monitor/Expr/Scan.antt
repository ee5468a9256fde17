-- ===== src/Monitor/Expr/Scan.antt =====
-- The scans over the tokens of a tree: parentheses balance, and the search finds the root.
use ics.Base.{ℕ, suc, ◌+◌, ◌≤◌, ◌<◌, ◌≡◌, refl, ◌∙◌, List, [], ◌∷◌, length, arith, pos}
use ics.Monitor.Expr.Tokens.{TokenType, Token}
use ics.Monitor.Expr.Range.{search_list, count_list, search_list-append, count_list-append}
use ics.Monitor.Expr.Syntax.{
  Ast, leaf, paren, deref, bin, BinOp, Leaf, print, plain, op_type, op_level, level, IsReadable,
}
use ics.Monitor.Expr.{Search, search_step}

operator_neutral :
    (o : BinOp) (ts : List Token) (n : ℕ)
    → count_list (plain (op_type o) ∷ ts) (pos n) ≡ count_list ts (pos n)
unfolding count_list
operator_neutral BinOp.plus ts n = refl
operator_neutral BinOp.minus ts n = refl
operator_neutral BinOp.times ts n = refl
operator_neutral BinOp.divide ts n = refl
operator_neutral BinOp.eq ts n = refl
operator_neutral BinOp.notequal ts n = refl
operator_neutral BinOp.and ts n = refl

pub count-print : (e : Ast) (n : ℕ) → count_list (print e) (pos n) ≡ pos n
unfolding print count_list
count-print (leaf Leaf.num10 s) n = refl
count-print (leaf Leaf.hexadecimal s) n = refl
count-print (leaf Leaf.regname s) n = refl
count-print (paren e) n =
    rw
      (count_list-append (print e) (plain TokenType.rcom ∷ []) (pos (suc n)), count-print e (suc n))
      refl
count-print (deref e) n = count-print e n
count-print (bin o l r) n =
    rw (count_list-append (print l) (plain (op_type o) ∷ print r) (pos n), count-print l n)
      (operator_neutral o (print r) n ∙ count-print r n)

abbrev searching : ℕ → ℕ → ℕ → Search
searching depth priority out = record { flag = pos depth; priority = priority; out = out }

-- Inside parentheses no operator is a candidate.
operator_nested :
    (o : BinOp) (p n k x : ℕ)
    → search_step (op_type o) p (searching (suc n) k x) ≡ searching (suc n) k x
operator_nested BinOp.plus p n k x = ground arith
operator_nested BinOp.minus p n k x = ground arith
operator_nested BinOp.times p n k x = ground arith
operator_nested BinOp.divide p n k x = ground arith
operator_nested BinOp.eq p n k x = ground arith
operator_nested BinOp.notequal p n k x = ground arith
operator_nested BinOp.and p n k x = ground arith

nested :
    (e : Ast) (p n k x : ℕ)
    → search_list (print e) p (searching (suc n) k x) ≡ searching (suc n) k x
unfolding print search_list
nested (leaf Leaf.num10 s) p n k x = refl
nested (leaf Leaf.hexadecimal s) p n k x = refl
nested (leaf Leaf.regname s) p n k x = refl
nested (paren e) p n k x =
    rw
      (
        search_list-append (print e) (plain TokenType.rcom ∷ []) (suc p)
            (searching (suc (suc n)) k x),
        nested e (suc p) (suc n) k x,
      )
      refl
nested (deref e) p n k x =
    let same : search_step TokenType.deref p (searching (suc n) k x) ≡ searching (suc n) k x =
      ground arith in
    rw (same, search_list) (nested e (suc p) n k x)
nested (bin o l r) p n k x =
    rw
      (
        search_list-append (print l) (plain (op_type o) ∷ print r) p (searching (suc n) k x),
        nested l p n k x,
        operator_nested o (p + length (print l)) n k x,
        search_list,
      )
      (nested r (suc (p + length (print l))) n k x)

operator_ignored :
    (o : BinOp) (p k x : ℕ)
    → op_level o < k
    → k ≤ 5
    → search_step (op_type o) p (searching 0 k x) ≡ searching 0 k x
operator_ignored BinOp.plus p k x h u = ground arith
operator_ignored BinOp.minus p k x h u = ground arith
operator_ignored BinOp.times p k x h u = ground arith
operator_ignored BinOp.divide p k x h u = ground arith
operator_ignored BinOp.eq p k x h u = ground arith
operator_ignored BinOp.notequal p k x h u = ground arith
operator_ignored BinOp.and p k x h u = absurd (omega arith)

operator_accepted :
    (o : BinOp) (p k x : ℕ)
    → k ≤ op_level o
    → search_step (op_type o) p (searching 0 k x) ≡ searching 0 (op_level o) p
operator_accepted BinOp.plus p k x h = ground arith
operator_accepted BinOp.minus p k x h = ground arith
operator_accepted BinOp.times p k x h = ground arith
operator_accepted BinOp.divide p k x h = ground arith
operator_accepted BinOp.eq p k x h = ground arith
operator_accepted BinOp.notequal p k x h = ground arith
operator_accepted BinOp.and p k x h = refl

pub op_level-bound : (o : BinOp) → op_level o ≤ 5
op_level-bound BinOp.plus = omega arith
op_level-bound BinOp.minus = omega arith
op_level-bound BinOp.times = omega arith
op_level-bound BinOp.divide = omega arith
op_level-bound BinOp.eq = omega arith
op_level-bound BinOp.notequal = omega arith
op_level-bound BinOp.and = omega arith

-- A candidate that binds more loosely than every operator of a tree stays the candidate.
ignored :
    (e : Ast) (p k x : ℕ)
    → IsReadable e
    → level e < k
    → k ≤ 5
    → search_list (print e) p (searching 0 k x) ≡ searching 0 k x
unfolding print search_list IsReadable
ignored (leaf Leaf.num10 s) p k x w h u = refl
ignored (leaf Leaf.hexadecimal s) p k x w h u = refl
ignored (leaf Leaf.regname s) p k x w h u = refl
ignored (paren e) p k x w h u =
    rw
      (
        search_list-append (print e) (plain TokenType.rcom ∷ []) (suc p) (searching 1 k x),
        nested e (suc p) 0 k x,
      )
      refl
ignored (deref e) p k x w h u =
    let same : search_step TokenType.deref p (searching 0 k x) ≡ searching 0 k x = ground arith in
    rw (same, search_list) (ignored e (suc p) k x w.1 (omega (arith, w.0)) u)
ignored (bin o l r) p k x w h u =
    rw
      (
        search_list-append (print l) (plain (op_type o) ∷ print r) p (searching 0 k x),
        ignored l p k x w.3 (omega (arith, w.0)) u,
        operator_ignored o (p + length (print l)) k x h u,
        search_list,
      )
      (ignored r (suc (p + length (print l))) k x w.4 (omega (arith, w.1)) u)

plus_zero : (p : ℕ) → p + 0 ≡ p
plus_zero p = omega arith

-- The place of the root's operator among the tokens.
abbrev pub root : Ast → ℕ
root (leaf k s) = 0
root (paren e) = 0
root (deref e) = 0
root (bin o l r) = length (print l)

pub search-print :
    (e : Ast) (p : ℕ)
    → IsReadable e
    → search_list (print e) p (searching 0 0 p) ≡ searching 0 (level e) (p + root e)
unfolding print search_list IsReadable
search-print (leaf Leaf.num10 s) p w = rw (plus_zero p) refl
search-print (leaf Leaf.hexadecimal s) p w = rw (plus_zero p) refl
search-print (leaf Leaf.regname s) p w = rw (plus_zero p) refl
search-print (paren e) p w =
    rw
      (
        plus_zero p,
        search_list-append (print e) (plain TokenType.rcom ∷ []) (suc p) (searching 1 0 p),
        nested e (suc p) 0 0 p,
      )
      refl
search-print (deref e) p w =
    rw (plus_zero p, search_list) (ignored e (suc p) 1 p w.1 (omega (arith, w.0)) (omega arith))
search-print (bin o l r) p w =
    rw
      (
        search_list-append (print l) (plain (op_type o) ∷ print r) p (searching 0 0 p),
        search-print l p w.3,
        operator_accepted o (p + length (print l)) (level l) (p + root l) w.0,
        search_list,
      )
      (ignored r (suc (p + length (print l))) (op_level o) (p + length (print l)) w.4 w.1
        (op_level-bound o))
