-- ===== src/Monitor/Expr/Nesting.antt =====
-- Nesting: without dereferences, `eval` returns on well nested ranges only, so it never does on what
-- `check_parentheses` takes for one pair of parentheses and is two.
use ics.Base.{
  ℕ, zero, suc, ◌+◌, ◌-◌, ◌≤◌, ◌<◌, ◌≡◌, refl, ◌∙◌, ap, true, false, inl, inr, some, arith, ltb,
  ◌==◌, Bool-cases, bind-eq-some,
}
use mathlib.Core.Option.{none-ne-some}
use ics.Machine.{Machine}
use ics.Monitor.Expr.Tokens.{Token, token_value}
use ics.Monitor.Expr.Fuel.{find_primary_operator-bound}
use ics.Monitor.Expr.{
  is_lcom, is_rcom, is_deref, check_parentheses, find_primary_operator, eval, eval_range,
  apply_operator,
}
use ics.Monitor.Expr.Depth.{
  depth_step, depth, depth-append, depth-shift, value-neutral, operator-neutral, lcom-depth,
  rcom-depth,
}

-- The tokens of a range are no dereferences.
abbrev pub NoDeref : (ℕ → Token) → ℕ → ℕ → Type 0
NoDeref tokens start stop = (i : ℕ) → start ≤ i → i < stop → is_deref (tokens i).type ≡ false

pub one_token :
    (tokens : ℕ → Token) (n p c : ℕ) (d : ℕ)
    → depth_step (tokens p).type c ≡ some d
    → depth tokens (suc n) p c ≡ depth tokens n (suc p) d
unfolding depth
one_token tokens n p c d e = rw e refl

empty_range : (tokens : ℕ → Token) (a b : ℕ) → a ≤ b → depth tokens (a - b) b 0 ≡ some 0
unfolding depth
empty_range tokens a b h = let none_left : a - b ≡ 0 = omega arith in rw none_left refl

-- A range that is nested on both sides of a token that leaves the depth.
joined :
    (tokens : ℕ → Token) (start op stop : ℕ)
    → start ≤ op
    → op < stop
    → depth tokens (op - start) start 0 ≡ some 0
    → depth_step (tokens op).type 0 ≡ some 0
    → depth tokens (stop - suc op) (suc op) 0 ≡ some 0
    → depth tokens (stop - start) start 0 ≡ some 0
joined tokens start op stop lo hi left middle right =
    let size : stop - start ≡ (op - start) + suc (stop - suc op) = omega arith in
    let here : start + (op - start) ≡ op = omega arith in
    rw
      (
        size,
        depth-append tokens (op - start) (suc (stop - suc op)) start 0,
        left,
        here,
        one_token tokens (stop - suc op) op 0 0 middle,
      )
      right

wrapped :
    (tokens : ℕ → Token) (start stop : ℕ)
    → suc start < stop
    → is_lcom (tokens start).type ≡ true
    → is_rcom (tokens (stop - 1)).type ≡ true
    → depth tokens (stop - 1 - suc start) (suc start) 0 ≡ some 0
    → depth tokens (stop - start) start 0 ≡ some 0
unfolding depth
wrapped tokens start stop long first last inner =
    let size : stop - start ≡ suc ((stop - 1 - suc start) + 1) = omega arith in
    let here : suc start + (stop - 1 - suc start) ≡ stop - 1 = omega arith in
    rw
      (
        size,
        one_token tokens ((stop - 1 - suc start) + 1) start 0 1
            (lcom-depth (tokens start).type 0 first),
        depth-append tokens (stop - 1 - suc start) 1 (suc start) 1,
        depth-shift tokens (stop - 1 - suc start) (suc start) 0 0 inner,
        here,
        one_token tokens 0 (stop - 1) 1 0 (rcom-depth (tokens (stop - 1)).type 0 last),
      )
      refl

-- What a value of the check says of the first and the last token.
pub check_parentheses-true :
    (tokens : ℕ → Token) (start stop : ℕ)
    → check_parentheses tokens start stop ≡ some true
    → (is_lcom (tokens start).type ≡ true) × (is_rcom (tokens (stop - 1)).type ≡ true)
unfolding check_parentheses
check_parentheses-true tokens start stop h = ground arith

range_nested :
    (n : ℕ) (tokens : ℕ → Token) (start stop : ℕ) (m : Machine) (r : ℕ × Machine)
    → suc start < stop
    → NoDeref tokens start stop
    → eval_range (eval n tokens) tokens start stop m ≡ some r
    → ((a b : ℕ) (m' : Machine) (r' : ℕ × Machine)
        → start ≤ a
        → b ≤ stop
        → eval n tokens a b m' ≡ some r'
        → depth tokens (b - a) a 0 ≡ some 0)
    → depth tokens (stop - start) start 0 ≡ some 0
range_nested n tokens start stop m r long free h rec =
    let (b, checked, rest) = bind-eq-some (check_parentheses tokens start stop) _ h in
    elim (Bool-cases b) [
      | inl e ↦
          (let ends = check_parentheses-true tokens start stop (checked ∙ ap some e) in
            wrapped tokens start stop long ends.0 ends.1
              (rec (suc start) (stop - 1) m r (omega arith) (omega arith) (rw e at rest)))
      | inr e ↦
          (let op = find_primary_operator tokens start stop in
            let inside = find_primary_operator-bound tokens start stop (omega arith) in
            let (x, left, rest1) =
              bind-eq-some (eval n tokens start op m) _
                (rw (e, free op inside.0 inside.1) at rest) in
            let (y, right, rest2) = bind-eq-some (eval n tokens (suc op) stop x.1) _ rest1 in
            let (v, applied, rest3) =
              bind-eq-some (apply_operator (tokens op).type x.0 y.0) _ rest2 in
            joined tokens start op stop inside.0 inside.1
              (rec start op m x (omega arith) (omega (arith, inside.1)) left)
              (operator-neutral (tokens op).type x.0 y.0 v applied)
              (rec (suc op) stop x.1 y (omega (arith, inside.0)) (omega arith) right))
    ]

-- A range without dereferences that has a value is well nested: no parenthesis closes before it
-- opened, and none is left open.
pub eval-nested :
    (n : ℕ) (tokens : ℕ → Token) (start stop : ℕ) (m : Machine) (r : ℕ × Machine)
    → NoDeref tokens start stop
    → eval n tokens start stop m ≡ some r
    → depth tokens (stop - start) start 0 ≡ some 0
unfolding eval
eval-nested zero tokens start stop m r free h = absurd (none-ne-some _ h)
eval-nested (suc n) tokens start stop m r free h = elim (Bool-cases (ltb start stop)) [
  | inr e ↦ absurd (none-ne-some _ (rw e at h))
  | inl e ↦ elim (Bool-cases (suc start == stop)) [
    | inl single ↦
        (let value : token_value (tokens start) m ≡ some r = rw (e, single) at h in
          joined tokens start start stop (omega arith) (ground arith)
            (empty_range tokens start start (omega arith)) (value-neutral (tokens start) m r value)
            (empty_range tokens stop (suc start) (ground arith)))
    | inr long ↦
        (let call : eval_range (eval n tokens) tokens start stop m ≡ some r = rw (e, long) at h in
          range_nested n tokens start stop m r (ground arith) free call (λ a b m' r' lo hi h'.
            eval-nested n tokens a b m' r' (λ i above below. free i (omega arith) (omega arith))
              h'))
  ]
]
