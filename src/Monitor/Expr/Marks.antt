-- ===== src/Monitor/Expr/Marks.antt =====
-- Which asterisks `expr` takes for dereferences.
use ics.Base.{
  ℕ, zero, suc, ◌+◌, ◌-◌, ◌<◌, ◌≡◌, refl, ◌∙◌, sym, ap, Bool, true, false, ◌&&◌, ◌||◌, List, [],
  ◌∷◌, ◌++◌, length, arith, ◌==◌, ne→==, eq→==, if◌then◌else◌, Bool-cases, inl, inr, length-append,
  Option, some, bind,
}
use mathlib.Core.List.{append_assoc, append-nil}
use mathlib.Core.Bool.{true≢false}
use ics.Monitor.Expr.Tokens.{TokenType, Token}
use ics.Monitor.Expr.Range.{Holds, SameToken}
use ics.Monitor.Expr.Syntax.{
  Ast, leaf, paren, deref, bin, BinOp, Leaf, print, plain, literal, op_type, value, IsReadable,
}
use ics.Monitor.Expr.Lexer.{
  before_deref, is_times, mark, mark_at, mark_deref, TokenArray, make_token, expr,
}
use ics.Monitor.Expr.Correct.{eval-value}
use ics.Monitor.Expr.{eval}
use ics.Machine.{Machine}

-- The tokens of a tree as they are typed: a dereference is an asterisk.
unfoldable pub spell : Ast → List Token
spell (leaf k s) = literal k s ∷ []
spell (paren e) = plain TokenType.lcom ∷ (spell e ++ (plain TokenType.rcom ∷ []))
spell (deref e) = plain TokenType.times ∷ spell e
spell (bin o l r) = spell l ++ (plain (op_type o) ∷ spell r)

-- Each dereference stands where an asterisk is taken for one; `b` says so of the tree's first token.
unfoldable pub IsMarked : Bool → Ast → Type 0
IsMarked b (leaf k s) = Unit {0}
IsMarked b (paren e) = IsMarked true e
IsMarked b (deref e) = (b ≡ true) × IsMarked false e
IsMarked b (bin o l r) = IsMarked b l × IsMarked (before_deref (op_type o)) r

abbrev marked : Bool → Token → Token
marked b t = if is_times t.type && b then mark t else t

unfoldable mark_list : Bool → List Token → List Token
mark_list b [] = []
mark_list b (t ∷ ts) = marked b t ∷ mark_list (before_deref (marked b t).type) ts

-- What the loop has passed stays.
untouched : (n : ℕ) (tokens : ℕ → Token) (i j : ℕ) → j < i → mark_deref tokens n i j ≡ tokens j
unfolding mark_deref
untouched zero tokens i j h = refl
untouched (suc n) tokens i j h =
    let here : mark_at tokens i j ≡ tokens j =
      elim (Bool-cases
        (is_times (tokens i).type && ((i == 0) || before_deref (tokens (i - 1)).type))) [
          | inl e ↦ rw (e, ne→== j i (omega arith)) refl
          | inr e ↦ rw e refl
        ] in
    untouched n (mark_at tokens i) (suc i) j (omega arith) ∙ here

mark_at-Holds :
    (tokens : ℕ → Token) (i j : ℕ) (ts : List Token)
    → i < j
    → Holds tokens j ts
    → Holds (mark_at tokens i) j ts
unfolding Holds
mark_at-Holds tokens i j [] lt h = tt
mark_at-Holds tokens i j (t ∷ ts) lt h =
    let here : mark_at tokens i j ≡ tokens j =
      elim (Bool-cases
        (is_times (tokens i).type && ((i == 0) || before_deref (tokens (i - 1)).type))) [
          | inl e ↦ rw (e, ne→== j i (omega arith)) refl
          | inr e ↦ rw e refl
        ] in
    (rw here (h.0), mark_at-Holds tokens i (suc j) ts (omega arith) h.1)

mark_here :
    (tokens : ℕ → Token) (i : ℕ) (b : Bool) (t : Token)
    → b ≡ ((i == 0) || before_deref (tokens (i - 1)).type)
    → SameToken (tokens i) t
    → SameToken (mark_at tokens i i) (marked b t)
mark_here tokens i b t e same =
    rw (sym e, same.0)
      (elim (Bool-cases (is_times t.type && b)) [
        | inl f ↦ rw (f, eq→== i i refl) (refl, λ text. absurd (true≢false (sym text)))
        | inr f ↦ rw f same
      ])

mark_deref-list :
    (ts : List Token) (tokens : ℕ → Token) (i : ℕ) (b : Bool)
    → b ≡ ((i == 0) || before_deref (tokens (i - 1)).type)
    → Holds tokens i ts
    → Holds (mark_deref tokens (length ts) i) i (mark_list b ts)
unfolding Holds mark_deref mark_list
mark_deref-list [] tokens i b e h = tt
mark_deref-list (t ∷ ts) tokens i b e h =
    let here = mark_here tokens i b t e h.0 in
    let before : before_deref (marked b t).type
        ≡ ((suc i == 0) || before_deref (mark_at tokens i (suc i - 1)).type) =
      let back : suc i - 1 ≡ i = omega arith in
      rw (ne→== (suc i) 0 (omega arith), back) (ap before_deref (sym here.0)) in
    (
      rw (untouched (length ts) (mark_at tokens i) (suc i) i (omega arith)) here,
      mark_deref-list ts (mark_at tokens i) (suc i) (before_deref (marked b t).type) before
          (mark_at-Holds tokens i (suc i) ts (omega arith) h.1),
    )

leaf_marks :
    (k : Leaf) (s : List ℕ) (b : Bool) (rest : List Token)
    → mark_list b (literal k s ∷ rest) ≡ literal k s ∷ mark_list false rest
unfolding mark_list
leaf_marks Leaf.num10 s b rest = refl
leaf_marks Leaf.hexadecimal s b rest = refl
leaf_marks Leaf.regname s b rest = refl

operator_marks :
    (o : BinOp) (rest : List Token)
    → mark_list false (plain (op_type o) ∷ rest)
      ≡ plain (op_type o) ∷ mark_list (before_deref (op_type o)) rest
unfolding mark_list
operator_marks BinOp.plus rest = refl
operator_marks BinOp.minus rest = refl
operator_marks BinOp.times rest = refl
operator_marks BinOp.divide rest = refl
operator_marks BinOp.eq rest = refl
operator_marks BinOp.notequal rest = refl
operator_marks BinOp.and rest = refl

mark_list-spell :
    (e : Ast) (b : Bool) (rest : List Token)
    → IsMarked b e
    → mark_list b (spell e ++ rest) ≡ print e ++ mark_list false rest
unfolding spell print mark_list IsMarked
mark_list-spell (leaf k s) b rest h = leaf_marks k s b rest
mark_list-spell (paren e) b rest h =
    rw
      (
        append_assoc (spell e) (plain TokenType.rcom ∷ []) rest,
        append_assoc (print e) (plain TokenType.rcom ∷ []) (mark_list false rest),
        mark_list-spell e true (plain TokenType.rcom ∷ rest) h,
      )
      refl
mark_list-spell (deref e) b rest h = rw (h.0, mark_list-spell e false rest h.1) refl
mark_list-spell (bin o l r) b rest h =
    rw
      (
        append_assoc (spell l) (plain (op_type o) ∷ spell r) rest,
        append_assoc (print l) (plain (op_type o) ∷ print r) (mark_list false rest),
        mark_list-spell l b (plain (op_type o) ∷ (spell r ++ rest)) h.0,
        operator_marks o (spell r ++ rest),
        mark_list-spell r (before_deref (op_type o)) rest h.1,
      )
      refl

whole_marks : (e : Ast) → IsMarked true e → mark_list true (spell e) ≡ print e
unfolding mark_list
whole_marks e w =
    ap (mark_list true) (sym (append-nil (spell e)))
    ∙ mark_list-spell e true [] w
    ∙ append-nil (print e)

-- The loop of `expr` turns the tokens of a tree as it is typed into the tree's tokens.
pub mark_deref-spell :
    (tokens : ℕ → Token) (e : Ast)
    → Holds tokens 0 (spell e)
    → IsMarked true e
    → Holds (mark_deref tokens (length (spell e)) 0) 0 (print e)
mark_deref-spell tokens e h w =
    rw (sym (whole_marks e w)) (mark_deref-list (spell e) tokens 0 true refl h)

pub length-spell : (e : Ast) → length (spell e) ≡ length (print e)
unfolding spell print
length-spell (leaf k s) = refl
length-spell (paren e) = omega (
  arith,
  length-spell e,
  length-append (spell e) (plain TokenType.rcom ∷ []),
  length-append (print e) (plain TokenType.rcom ∷ []),
)
length-spell (deref e) = omega (arith, length-spell e)
length-spell (bin o l r) = omega (
  arith,
  length-spell l,
  length-spell r,
  length-append (spell l) (plain (op_type o) ∷ spell r),
  length-append (print l) (plain (op_type o) ∷ print r),
)

-- Where `make_token` finds the tokens of a readable tree, with each asterisk of a dereference where
-- it is taken for one, `expr` returns the tree's value, leaves `*success` and the machine as the
-- tree's reads leave it, and aborts where the value does.
pub expr-value :
    (regexec : List ℕ → List ℕ → Option (ℕ × ℕ)) (text : List ℕ) (success : Bool) (a b : TokenArray)
    (m : Machine) (e : Ast)
    → make_token regexec text a ≡ some (true, b)
    → b.nr_token ≡ length (spell e)
    → Holds b.tokens 0 (spell e)
    → IsReadable e
    → IsMarked true e
    → expr regexec text success a m
      ≡ bind (value e m) (λ (v, m'). some (record {
        value = v;
        success = success;
        array = record b { tokens = mark_deref b.tokens b.nr_token 0 };
        machine = m';
      }))
unfolding expr
expr-value regexec text success a b m e made size held readable marks =
    let fits : 0 + length (print e) ≡ b.nr_token = omega (arith, size, length-spell e) in
    let held' : Holds (mark_deref b.tokens b.nr_token 0) 0 (print e) =
      rw size (mark_deref-spell b.tokens e held marks) in
    let result : eval b.nr_token (mark_deref b.tokens b.nr_token 0) 0 b.nr_token m ≡ value e m =
      ap (λ stop. eval b.nr_token (mark_deref b.tokens b.nr_token 0) 0 stop m) (sym fits)
      ∙ eval-value b.nr_token (mark_deref b.tokens b.nr_token 0) 0 e m held' readable
          (omega (arith, fits)) in
    rw (made, result) refl
