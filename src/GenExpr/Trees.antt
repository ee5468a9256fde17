-- ===== src/GenExpr/Trees.antt =====
-- The texts of arithmetic expressions, to compare with what the generator writes.
use ics.Base.{
  ℕ, zero, suc, ◌+◌, ◌%◌, ◌<◌, ◌≡◌, refl, ◌∙◌, ap, Bool, true, false, Option, none, some, List, [],
  ◌++◌, ltb, ◌==◌, if◌then◌else◌, bind, codes, length, arith, Bool-cases, inl, inr, Cmd,
}
use mathlib.Core.List.{append_assoc}
use ics.GenExpr.Decimal.{print_u}
use ics.GenExpr.{
  Gen, Host, buf_size, strcat, gen_num, gen_opnum, op_text, gen_op, gen_case, gen_rand_expr,
}

pub data Operator : Type 0 where
  plus minus times divide : Operator

pub data Tree : Type 0 where
  num : ℕ → Tree
  paren : Tree → Tree
  bin : Operator → Tree → Tree → Tree

abbrev pub symbol : Operator → List ℕ
symbol plus = codes "+"
symbol minus = codes "-"
symbol times = codes "*"
symbol divide = codes "/"

-- The text of a tree; operators are written between their operands, without parentheses.
unfoldable pub spell : Tree → List ℕ
spell (num n) = print_u n
spell (paren t) = codes "(" ++ (spell t ++ codes ")")
spell (bin o l r) = spell l ++ (symbol o ++ spell r)

-- Trees whose numbers are small enough to be generated.
unfoldable pub Small : Tree → Type 0
Small (num n) = n < 9999
Small (paren t) = Small t
Small (bin o l r) = Small l × Small r

-- What the command adds to the buffer, where it returns, is a text with `P`.
unfoldable pub Adds : (List ℕ → Type 0) → List ℕ → Option (Unit {0} × Gen) → Type 0
Adds P buf none = Unit {0}
Adds P buf (some (t, g')) = (text : List ℕ) × (g'.buf ≡ buf ++ text) × P text

abbrev IsText : List ℕ → List ℕ → Type 0
IsText t text = text ≡ t

abbrev pub IsSpelling : List ℕ → Type 0
IsSpelling text = (t : Tree) × (text ≡ spell t) × Small t

-- One command after another adds one text after the other.
Adds-then :
    (P Q R : List ℕ → Type 0) (buf : List ℕ) (o : Option (Unit {0} × Gen))
    (c : Unit {0} × Gen → Option (Unit {0} × Gen))
    → Adds P buf o
    → ((h : Gen) → Adds Q h.buf (c (tt, h)))
    → ((s t : List ℕ) → P s → Q t → R (s ++ t))
    → Adds R buf (bind o c)
unfolding Adds
Adds-then P Q R buf none c h k j = tt
Adds-then P Q R buf (some (t, h)) c (s, e, p) k j = go (c (t, h)) (k h)
  where
    go : (o : Option (Unit {0} × Gen)) → Adds Q h.buf o → Adds R buf o
    go none q = tt
    go (some (t, i)) (u, f, q) = (s ++ u, f ∙ ap (λ b. b ++ u) e ∙ append_assoc buf s u, j s u p q)

strcat-Adds : (text : List ℕ) (g : Gen) → Adds (IsText text) g.buf (strcat text g)
unfolding strcat Adds
strcat-Adds text g = elim (Bool-cases (ltb (length (g.buf ++ text)) buf_size)) [
  | inl fits ↦ rw fits (text, refl, refl)
  | inr full ↦ rw full tt
]

abbrev IsOperator : List ℕ → Type 0
IsOperator text = (o : Operator) × (text ≡ symbol o)

added_symbol :
    (o : Operator) (text : List ℕ) (g : Gen)
    → text ≡ symbol o
    → Adds IsOperator g.buf (strcat text g)
unfolding strcat Adds
added_symbol o text g e = elim (Bool-cases (ltb (length (g.buf ++ text)) buf_size)) [
  | inl fits ↦ rw fits (text, refl, (o, e))
  | inr full ↦ rw full tt
]

module _ (host : Host) where
  gen_op-Adds : (g : Gen) → Adds IsOperator g.buf (gen_op host g)
  unfolding gen_op gen_num op_text
  gen_op-Adds g =
      let n = host.rand g.drawn % 4 in
      let g1 : Gen = record g { drawn = g.drawn + 1 } in
      elim (Bool-cases (n == 0)) [
        | inl a ↦ rw a (added_symbol plus (codes "+") g1 refl)
        | inr a ↦ rw a (elim (Bool-cases (n == 1)) [
          | inl b ↦ rw b (added_symbol minus (codes "-") g1 refl)
          | inr b ↦ rw b (elim (Bool-cases (n == 2)) [
            | inl c ↦ rw c (added_symbol times (codes "*") g1 refl)
            | inr c ↦ rw c (elim (Bool-cases (n == 3)) [
              | inl d ↦ rw d (added_symbol divide (codes "/") g1 refl)
              | inr d ↦ rw d (unfold Adds in tt)
            ])
          ])
        ])
      ]

  number-Adds : (g : Gen) → Adds IsSpelling g.buf (gen_opnum host 9999 g)
  unfolding gen_opnum gen_num strcat Adds
  number-Adds g =
      let n = host.rand g.drawn % 9999 in
      elim (Bool-cases (ltb (length (g.buf ++ print_u n)) buf_size)) [
        | inl fits ↦
            rw fits (print_u n, refl, (num n, unfold spell in refl, unfold Small in omega arith))
        | inr full ↦ rw full tt
      ]

  gen_case-Adds :
      (again : Cmd Gen (Unit {0})) (n : ℕ) (g : Gen)
      → ((h : Gen) → Adds IsSpelling h.buf (again h))
      → Adds IsSpelling g.buf (gen_case host again n g)
  unfolding gen_case
  gen_case-Adds again n g h = elim (Bool-cases (n == 0)) [
    | inl a ↦ rw a (number-Adds g)
    | inr a ↦ rw a (elim (Bool-cases (n == 1)) [
      | inl b ↦ rw b (
          Adds-then (IsText (codes "(")) _ IsSpelling g.buf (strcat (codes "(") g) _
            (strcat-Adds (codes "(") g)
            (λ k.
              Adds-then IsSpelling (IsText (codes ")")) IsClosed k.buf (again k) _ (h k)
                (strcat-Adds (codes ")")) (λ s t p e. (p.0, rw (p.1, e) refl, p.2)))
            (λ s t p q. (paren q.0, rw (p, q.1) (unfold spell in refl), (unfold Small in q.2))))
      | inr b ↦ rw b (
          Adds-then IsSpelling _ IsSpelling g.buf (again g) _ (h g)
            (λ k.
              Adds-then IsOperator IsSpelling IsRest k.buf (gen_op host k) _ (gen_op-Adds k) h
                (λ s t p q. (p.0, q.0, rw (p.1, q.1) refl, q.2)))
            (λ s t p q. (
              bin q.0 p.0 q.1,
              rw (p.1, q.2) (unfold spell in refl),
              (unfold Small in (p.2, q.3)),
            )))
    ])
  ]
    where
      IsClosed : List ℕ → Type 0
      IsClosed text = (t : Tree) × (text ≡ spell t ++ codes ")") × Small t

      IsRest : List ℕ → Type 0
      IsRest text = (o : Operator) × (r : Tree) × (text ≡ symbol o ++ spell r) × Small r

  -- Whatever rand() gives, the text that `gen_rand_expr` adds to the buffer where it returns is that
  -- of a tree whose numbers are below 9999.
  pub gen_rand_expr-Adds :
      (depth : ℕ) (flag : Bool) (g : Gen)
      → Adds IsSpelling (if flag then [] else g.buf) (gen_rand_expr host depth flag g)
  unfolding gen_rand_expr gen_num
  gen_rand_expr-Adds zero flag g = unfold Adds in tt
  gen_rand_expr-Adds (suc depth) true g =
      gen_case-Adds (gen_rand_expr host depth false) (host.rand g.drawn % 3)
        (record g { buf = []; drawn = g.drawn + 1 }) (gen_rand_expr-Adds depth false)
  gen_rand_expr-Adds (suc depth) false g =
      gen_case-Adds (gen_rand_expr host depth false) (host.rand g.drawn % 3)
        (record g { drawn = g.drawn + 1 }) (gen_rand_expr-Adds depth false)
