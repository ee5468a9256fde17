-- ===== src/Tests/Expressions.antt =====
-- The debugger's expressions at concrete token arrays and texts.
use Prim.Native.String.{String}
use ics.Base.{
  ℕ, zero, suc, ◌≤◌, ◌<◌, ◌≡◌, refl, Bool, true, false, ◌&&◌, Option, none, some, List, [], ◌∷◌,
  length, arith, codes, leb, ◌==◌, if◌then◌else◌, same_text, sym, ap, Bool-cases, inl, inr,
}
use mathlib.Core.Bool.{true≢false}
use mathlib.Core.Option.{none-ne-some, some-injective}
use ics.Bus.Memory.{paddr_read}
use ics.Bus.Host.{len_mask, load32}
use ics.Tests.{machine, added}
use ics.Monitor.Expr.Tokens.{TokenType, Token, token_value}
use ics.Monitor.Expr.Range.{Holds}
use ics.Monitor.Expr.Syntax.{
  Ast, Leaf, leaf, paren, deref, bin, BinOp, print, value, plain, IsReadable,
}
use ics.Monitor.Expr.Correct.{eval-value}
use ics.Monitor.Expr.Enclosed.{eval-enclosed_none}
use ics.Monitor.Expr.Fuel.{eval-enough, find_primary_operator-bound}
use ics.Monitor.Expr.Nesting.{eval-nested}
use ics.Monitor.Expr.Depth.{depth}
use ics.Monitor.Expr.Marks.{spell, IsMarked, expr-value}
use ics.Monitor.Expr.Lexer.{TokenArray, rules, make_token, expr, mark_deref, set_token}
use ics.Monitor.Expr.Lexer.Returns.{Returns, Matches, make_token-Returns}
use ics.Monitor.Expr.{eval, find_primary_operator, is_deref}

abbrev pub nth : List Token → ℕ → Token
nth [] i = plain TokenType.notype
nth (t ∷ ts) zero = t
nth (t ∷ ts) (suc i) = nth ts i

abbrev decimal : String → Ast
decimal s = leaf Leaf.num10 (codes s)

-- `*(0x10)+2*3`.
abbrev tree : Ast
tree =
    bin BinOp.plus (deref (paren (leaf Leaf.hexadecimal (codes "0x10"))))
      (bin BinOp.times (decimal "2") (decimal "3"))

-- `(1)+(2)`.
abbrev two_pairs : Ast
two_pairs = bin BinOp.plus (paren (decimal "1")) (paren (decimal "2"))

shifted :
    (t : Token) (ts xs : List Token) (p : ℕ) → Holds (nth ts) p xs → Holds (nth (t ∷ ts)) (suc p) xs
unfolding Holds
shifted t ts [] p h = tt
shifted t ts (x ∷ xs) p h = (h.0, shifted t ts xs (suc p) h.1)

pub nth-Holds : (ts : List Token) → Holds (nth ts) 0 ts
unfolding Holds
nth-Holds [] = tt
nth-Holds (t ∷ ts) = ((refl, λ e. refl), shifted t ts ts 0 (nth-Holds ts))

tree-IsReadable : IsReadable tree
unfolding IsReadable
tree-IsReadable =
    (omega arith, omega arith, refl, (refl, tt), (omega arith, omega arith, refl, tt, tt))

eval-value_example :
    eval 9 (nth (print tree)) 0 8 (machine added) ≡ some (0x13121116, machine added)
unfolding print value eval paddr_read len_mask load32 token_value
eval-value_example =
    eval-value 9 (nth (print tree)) 0 tree (machine added) (nth-Holds (print tree)) tree-IsReadable
      (omega arith)

eval-enough_example :
    eval 40 (nth (print tree)) 0 8 (machine added) ≡ eval 8 (nth (print tree)) 0 8 (machine added)
eval-enough_example = eval-enough 8 32 (nth (print tree)) 0 8 (machine added) (omega arith)

find_primary_operator-bound_example :
    (2 ≤ find_primary_operator (nth (print two_pairs)) 2 5)
    × (find_primary_operator (nth (print two_pairs)) 2 5 < 5)
find_primary_operator-bound_example =
    find_primary_operator-bound (nth (print two_pairs)) 2 5 (omega arith)

-- `2*3`.
abbrev product : Ast
product = bin BinOp.times (decimal "2") (decimal "3")

free : List Token → Bool
free [] = true
free (t ∷ ts) = if is_deref t.type then false else free ts

no_deref : (ts : List Token) → free ts ≡ true → (i : ℕ) → is_deref (nth ts i).type ≡ false
unfolding free
no_deref [] h i = refl
no_deref (t ∷ ts) h zero = elim (Bool-cases (is_deref t.type)) [
  | inl e ↦ absurd (true≢false (sym (rw e at h)))
  | inr e ↦ e
]
no_deref (t ∷ ts) h (suc i) = elim (Bool-cases (is_deref t.type)) [
  | inl e ↦ absurd (true≢false (sym (rw e at h)))
  | inr e ↦ no_deref ts (rw e at h) i
]

eval-nested_example : depth (nth (print product)) 3 0 0 ≡ some 0
unfolding print value eval free
eval-nested_example =
    eval-nested 3 (nth (print product)) 0 3 (machine added) (6, machine added)
      (λ i lo hi. no_deref (print product) refl i) refl

eval-enclosed_none_example : eval 20 (nth (print two_pairs)) 0 7 (machine added) ≡ none
unfolding print free
eval-enclosed_none_example =
    eval-enclosed_none 20 (nth (print two_pairs)) 0 BinOp.plus (paren (decimal "1"))
      (paren (decimal "2")) (machine added) (nth-Holds (print two_pairs)) refl refl
      (λ i lo hi. no_deref (print two_pairs) refl i)

-- A `regexec` for three of the patterns: "\\+", "\\*" and "[0-9]+".
abbrev one_of : ℕ → List ℕ → Option (ℕ × ℕ)
one_of c [] = none
one_of c (x ∷ xs) = if x == c then some (0, 1) else none

abbrev digits : List ℕ → ℕ
digits [] = 0
digits (x ∷ xs) = if leb b'0' x && leb x b'9' then suc (digits xs) else 0

abbrev digits_match : List ℕ → Option (ℕ × ℕ)
digits_match text = if digits text == 0 then none else some (0, digits text)

unfoldable pub matcher : List ℕ → List ℕ → Option (ℕ × ℕ)
matcher regex text =
    if same_text regex (codes "\\+")
    then one_of b'+' text
    else if same_text regex (codes "\\*")
    then one_of b'*' text
    else if same_text regex (codes "[0-9]+")
    then digits_match text
    else none

Sound : Option (ℕ × ℕ) → List ℕ → Type 0
Sound o text = (so eo : ℕ) → o ≡ some (so, eo) → (so < eo) × (eo ≤ length text)

one_of-Sound : (c : ℕ) (text : List ℕ) → Sound (one_of c text) text
unfolding Sound
one_of-Sound c [] so eo h = absurd (none-ne-some _ h)
one_of-Sound c (x ∷ xs) so eo h = elim (Bool-cases (x == c)) [
  | inr e ↦ absurd (none-ne-some _ (rw e at h))
  | inl e ↦
      (let both = some-injective (0, 1) (so, eo) (rw e at h) in
        let start : 0 ≡ so = ap (λ p. p.0) both in
        let stop : 1 ≡ eo = ap (λ p. p.1) both in (omega (arith, start, stop), omega (arith, stop)))
]

digits-bound : (text : List ℕ) → digits text ≤ length text
digits-bound [] = omega arith
digits-bound (x ∷ xs) = ground (arith, digits-bound xs)

digits_match-Sound : (text : List ℕ) → Sound (digits_match text) text
unfolding Sound
digits_match-Sound text so eo h = elim (Bool-cases (digits text == 0)) [
  | inl e ↦ absurd (none-ne-some _ (rw e at h))
  | inr e ↦
      (let both = some-injective (0, digits text) (so, eo) (rw e at h) in
        let start : 0 ≡ so = ap (λ p. p.0) both in
        let stop : digits text ≡ eo = ap (λ p. p.1) both in
        let some_digit : 0 < digits text = ground arith in
        (omega (arith, start, stop, some_digit), omega (arith, stop, digits-bound text)))
]

none-Sound : (text : List ℕ) → Sound none text
unfolding Sound
none-Sound text so eo h = absurd (none-ne-some _ h)

matcher-Sound : (regex text : List ℕ) → Sound (matcher regex text) text
unfolding matcher
matcher-Sound regex text = elim (Bool-cases (same_text regex (codes "\\+"))) [
  | inl e ↦ rw e (one_of-Sound b'+' text)
  | inr e ↦ elim (Bool-cases (same_text regex (codes "\\*"))) [
    | inl f ↦ rw (e, f) (one_of-Sound b'*' text)
    | inr f ↦ elim (Bool-cases (same_text regex (codes "[0-9]+"))) [
      | inl g ↦ rw (e, f, g) (digits_match-Sound text)
      | inr g ↦ rw (e, f, g) (none-Sound text)
    ]
  ]
]

matcher-Matches : (rs : List (List ℕ × TokenType)) → Matches matcher rs
unfolding Matches Sound
matcher-Matches [] = tt
matcher-Matches ((regex, type) ∷ rs) = (λ text. matcher-Sound regex text, matcher-Matches rs)

abbrev pub no_tokens : TokenArray
no_tokens = record { tokens = λ i. plain TokenType.notype; nr_token = 7 }

make_token-Returns_example : Returns 4 (make_token matcher (codes "12*3") no_tokens)
make_token-Returns_example =
    make_token-Returns matcher (codes "12*3") no_tokens (matcher-Matches rules) (omega arith)

-- `*3+4`, and what `make_token` leaves of it.
abbrev typed : Ast
typed = bin BinOp.plus (deref (decimal "3")) (decimal "4")

abbrev made : TokenArray
made = record {
  tokens =
      set_token
        (set_token
          (set_token (set_token no_tokens.tokens 0 (plain TokenType.times)) 1
            (record { type = TokenType.num10; str = codes "3" }))
          2 (plain TokenType.plus))
        3 (record { type = TokenType.num10; str = codes "4" });
  nr_token = 4;
}

expr-value_example :
    expr matcher (codes "*3+4") true no_tokens (machine added)
    ≡ some (record {
      value = 0x06050407;
      success = true;
      array = record made { tokens = mark_deref made.tokens 4 0 };
      machine = machine added;
    })
unfolding matcher spell value make_token Holds IsReadable IsMarked paddr_read len_mask load32
    token_value
expr-value_example =
    expr-value matcher (codes "*3+4") true no_tokens made (machine added) typed refl refl
      ((refl, λ e. refl), ((refl, λ e. refl), ((refl, λ e. refl), ((refl, λ e. refl), tt))))
      (omega arith, omega arith, refl, (refl, tt), tt) ((refl, tt), tt)
