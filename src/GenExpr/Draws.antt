-- ===== src/GenExpr/Draws.antt =====
-- The numbers that make the generator write a given tree.
use ics.Base.{
  ℕ, zero, suc, ◌+◌, ◌%◌, ◌<◌, ◌≤◌, ◌≡◌, refl, ◌∙◌, false, some, List, [], ◌∷◌, ◌++◌, codes, length,
  length-append, arith, lt→ltb, Cmd,
}
use Prim.Native.Nat.{max}
use mathlib.Core.List.{append_assoc}
use ics.GenExpr.Decimal.{print_u}
use ics.GenExpr.{
  Gen, Host, buf_size, strcat, gen_num, gen_opnum, op_text, gen_op, gen_case, gen_rand_expr,
}
use ics.GenExpr.Trees.{
  Operator, plus, minus, times, divide, symbol, Tree, num, paren, bin, spell, Small,
}

abbrev pub operator_draw : Operator → ℕ
operator_draw plus = 0
operator_draw minus = 1
operator_draw times = 2
operator_draw divide = 3

-- The case, and then what the case draws.
unfoldable pub draws : Tree → List ℕ
draws (num n) = 0 ∷ (n ∷ [])
draws (paren t) = 1 ∷ draws t
draws (bin o l r) = 2 ∷ (draws l ++ (operator_draw o ∷ draws r))

-- How many calls of `gen_rand_expr` are inside each other.
unfoldable pub calls : Tree → ℕ
calls (num n) = 1
calls (paren t) = suc (calls t)
calls (bin o l r) = suc (max (calls l) (calls r))

-- rand() gives these numbers from the `i`-th on.
unfoldable pub Gives : (ℕ → ℕ) → ℕ → List ℕ → Type 0
Gives rand i [] = Unit {0}
Gives rand i (d ∷ ds) = (rand i ≡ d) × Gives rand (i + 1) ds

Gives-append :
    (rand : ℕ → ℕ) (i : ℕ) (ds es : List ℕ)
    → Gives rand i (ds ++ es)
    → Gives rand i ds × Gives rand (i + length ds) es
unfolding Gives
Gives-append rand i [] es h = let e : i + 0 ≡ i = omega arith in (tt, rw e h)
Gives-append rand i (d ∷ ds) es (a, h) =
    let (p, q) = Gives-append rand (i + 1) ds es h in
    let e : i + suc (length ds) ≡ i + 1 + length ds = omega arith in ((a, p), rw e q)

-- What is left when a text is written and `n` numbers are drawn.
abbrev pub wrote : List ℕ → ℕ → Gen → Gen
wrote text n g = record g { buf = g.buf ++ text; drawn = g.drawn + n }

strcat-fits :
    (text : List ℕ) (g : Gen)
    → length g.buf + length text < buf_size
    → strcat text g ≡ some (tt, record g { buf = g.buf ++ text })
unfolding strcat
strcat-fits text g h =
    let l : length (g.buf ++ text) < buf_size = omega (arith, length-append g.buf text) in
    rw (lt→ltb (length (g.buf ++ text)) buf_size l)

length-symbol : (o : Operator) → length (symbol o) ≡ 1
length-symbol plus = refl
length-symbol minus = refl
length-symbol times = refl
length-symbol divide = refl

module _ (host : Host) where
  gen_op-draw :
      (o : Operator) (g : Gen)
      → host.rand g.drawn ≡ operator_draw o
      → length g.buf + 1 < buf_size
      → gen_op host g ≡ some (tt, wrote (symbol o) 1 g)
  unfolding gen_op gen_num op_text
  gen_op-draw plus g e h = rw e (strcat-fits (codes "+") _ h)
  gen_op-draw minus g e h = rw e (strcat-fits (codes "-") _ h)
  gen_op-draw times g e h = rw e (strcat-fits (codes "*") _ h)
  gen_op-draw divide g e h = rw e (strcat-fits (codes "/") _ h)

  -- A command that writes a text, where rand() gives the draws and the text fits.
  abbrev pub Writes : Cmd Gen (Unit {0}) → List ℕ → List ℕ → Type 0
  Writes c text ds =
      (g : Gen)
      → Gives host.rand g.drawn ds
      → length g.buf + length text < buf_size
      → c g ≡ some (tt, wrote text (length ds) g)

  paren_case :
      (again : Cmd Gen (Unit {0})) (text ds : List ℕ)
      → Writes again text ds
      → Writes (gen_case host again 1) (codes "(" ++ (text ++ codes ")")) ds
  unfolding gen_case
  paren_case again text ds w g d h =
      let g1 : Gen = record g { buf = g.buf ++ codes "(" } in
      let open_size = length-append g.buf (codes "(") in
      let close_size = length-append text (codes ")") in
      let text_size = length-append (g.buf ++ codes "(") text in
      let joined : (g.buf ++ codes "(" ++ text) ++ codes ")"
          ≡ g.buf ++ (codes "(" ++ (text ++ codes ")")) =
        append_assoc (g.buf ++ codes "(") text (codes ")")
        ∙ append_assoc g.buf (codes "(") (text ++ codes ")") in
      rw
        (
          strcat-fits (codes "(") g (omega arith),
          w g1 d (omega arith),
          strcat-fits (codes ")") (wrote text (length ds) g1) (omega arith),
          joined,
        )
        refl

  bin_case :
      (again : Cmd Gen (Unit {0})) (o : Operator) (left right ds es : List ℕ)
      → Writes again left ds
      → Writes again right es
      → Writes (gen_case host again 2) (left ++ (symbol o ++ right)) (ds ++ (operator_draw o ∷ es))
  unfolding gen_case Gives
  bin_case again o left right ds es w v g d h =
      let (d1, d2) = Gives-append host.rand g.drawn ds (operator_draw o ∷ es) d in
      let g1 : Gen = wrote left (length ds) g in
      let g2 : Gen = wrote (symbol o) 1 g1 in
      let one : length (symbol o) ≡ 1 = length-symbol o in
      let whole = length-append left (symbol o ++ right) in
      let behind = length-append (symbol o) right in
      let size1 = length-append g.buf left in
      let size2 = length-append (g.buf ++ left) (symbol o) in
      let joined : (g.buf ++ left ++ symbol o) ++ right ≡ g.buf ++ (left ++ (symbol o ++ right)) =
        append_assoc (g.buf ++ left) (symbol o) right
        ∙ append_assoc g.buf left (symbol o ++ right) in
      let counted : g.drawn + length ds + 1 + length es
          ≡ g.drawn + length (ds ++ (operator_draw o ∷ es)) =
        omega (arith, length-append ds (operator_draw o ∷ es)) in
      rw
        (
          w g d1 (omega arith),
          gen_op-draw o g1 d2.0 (omega arith),
          v g2 d2.1 (omega arith),
          joined,
          counted,
        )
        refl

  one_call :
      (k n : ℕ) (text ds : List ℕ)
      → k < 3
      → Writes (gen_case host (gen_rand_expr host n false) k) text ds
      → Writes (gen_rand_expr host (suc n) false) text (k ∷ ds)
  unfolding gen_rand_expr gen_num Gives
  one_call k n text ds small w g d h =
      let same : k % 3 ≡ k = omega arith in
      let counted : g.drawn + 1 + length ds ≡ g.drawn + suc (length ds) = omega arith in
      rw (d.0, same, w (record g { drawn = g.drawn + 1 }) d.1 h, counted) refl

  number_case :
      (again : Cmd Gen (Unit {0})) (k : ℕ)
      → k < 9999
      → Writes (gen_case host again 0) (print_u k) (k ∷ [])
  unfolding gen_case gen_opnum gen_num Gives
  number_case again k s g d h =
      let small : k % 9999 ≡ k = omega arith in
      rw (d.0, small, strcat-fits (print_u k) (record g { drawn = g.drawn + 1 }) h) refl

  -- Where rand() gives the draws of a tree with numbers below 9999, the fuel covers the tree's calls
  -- and the text fits in the buffer, `gen_rand_expr` returns with the tree's text behind what the
  -- buffer held, and no more numbers drawn.
  pub gen_rand_expr-draws :
      (t : Tree) (n : ℕ) (g : Gen)
      → Small t
      → calls t ≤ n
      → Gives host.rand g.drawn (draws t)
      → length g.buf + length (spell t) < buf_size
      → gen_rand_expr host n false g ≡ some (tt, wrote (spell t) (length (draws t)) g)
  unfolding Small calls draws spell
  gen_rand_expr-draws (num k) zero g s c = absurd (omega arith)
  gen_rand_expr-draws (paren t) zero g s c = absurd (omega arith)
  gen_rand_expr-draws (bin o l r) zero g s c = absurd (omega arith)
  gen_rand_expr-draws (num k) (suc n) g s c =
      one_call 0 n _ _ (omega arith) (number_case (gen_rand_expr host n false) k s) g
  gen_rand_expr-draws (paren t) (suc n) g s c =
      one_call 1 n _ _ (omega arith)
        (paren_case (gen_rand_expr host n false) (spell t) (draws t)
          (λ g'. gen_rand_expr-draws t n g' s (omega arith)))
        g
  gen_rand_expr-draws (bin o l r) (suc n) g s c =
      one_call 2 n _ _ (omega arith)
        (bin_case (gen_rand_expr host n false) o (spell l) (spell r) (draws l) (draws r)
          (λ g'. gen_rand_expr-draws l n g' s.0 (omega arith))
          (λ g'. gen_rand_expr-draws r n g' s.1 (omega arith)))
        g
