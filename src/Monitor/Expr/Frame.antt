-- ===== src/Monitor/Expr/Frame.antt =====
-- An expression's evaluation changes nothing of the machine but its bus.
use ics.Base.{
  ℕ, zero, suc, ◌-◌, ◌≡◌, refl, ◌∙◌, sym, ap, Bool, true, false, Option, none, some, List, bind,
  bind-eq-some, Bool-cases, inl, inr, ltb, ◌==◌, Cmd,
}
use mathlib.Core.Option.{none-ne-some, some-injective}
use ics.Bus.Memory.{paddr_read}
use ics.Bus.{Bus}
use ics.Machine.{Machine}
use ics.X86.Reg.Names.{isa_reg_str2val}
use ics.Monitor.Expr.Tokens.{TokenType, Token, token_value, atoi, strtol16}
use ics.Monitor.Expr.{
  check_parentheses, find_primary_operator, eval, eval_call, combine, read_at, apply_operator,
  is_deref,
}
use ics.Monitor.Expr.Lexer.{TokenArray, ExprResult, make_token, mark_deref, expr, expr_tokens}

pub record SameButBus (m k : Machine) : Type 0 where
  pub same : k ≡ record m { bus = k.bus }

pub later : {m k l : Machine} → SameButBus m k → SameButBus k l → SameButBus m l
later {m} {k} {l} p q =
    let with_bus : Machine → Machine = λ x. record x { bus = l.bus } in
    record { same = q.same ∙ ap with_bus p.same }

unchanged : (m k : Machine) → m ≡ k → SameButBus m k
unchanged m k e = rw (sym e) (record { same = refl })

-- A command that keeps all but the bus where it returns.
pub Framed : Cmd Machine ℕ → Type 0
Framed c = (m : Machine) (r : ℕ × Machine) → c m ≡ some r → SameButBus m r.1

kept :
    (o : Option ℕ) (m : Machine) (r : ℕ × Machine)
    → bind o (λ v. some (v, m)) ≡ some r
    → SameButBus m r.1
kept none m r h = absurd (none-ne-some _ h)
kept (some v) m r h = unchanged m r.1 (ap (λ x. x.1) (some-injective (v, m) r h))

token_kept :
    (type : TokenType) (str : List ℕ) (m : Machine) (r : ℕ × Machine)
    → token_value (record { type = type; str = str }) m ≡ some r
    → SameButBus m r.1
unfolding token_value
token_kept TokenType.num10 s m r h = kept (atoi s) m r h
token_kept TokenType.hexadecimal s m r h = kept (some (strtol16 s)) m r h
token_kept TokenType.regname s m r h = kept (isa_reg_str2val s m) m r h
token_kept _ s m r h = absurd (none-ne-some _ h)

token-Framed : (t : Token) → Framed (token_value t)
unfolding Framed
token-Framed t m r h = token_kept t.type t.str m r h

bus_only :
    (m : Machine) (o : Option (ℕ × Bus)) (r : ℕ × Machine)
    → bind o (λ (a, b). some (a, record m { bus = b })) ≡ some r
    → SameButBus m r.1
bus_only m none r h = absurd (none-ne-some _ h)
bus_only m (some (a, b)) r h =
    rw (sym (ap (λ x. x.1) (some-injective (a, record m { bus = b }) r h))) (record { same = refl })

read-Framed : (c : Cmd Machine ℕ) → Framed c → Framed (read_at c)
unfolding Framed
read-Framed c f m r h =
    let (x, found, rest) = bind-eq-some (c m) _ h in
    later (f m x found) (bus_only x.1 (paddr_read x.0 4 x.1.bus) r rest)

combine-Framed :
    (type : TokenType) (left right : Cmd Machine ℕ)
    → Framed left
    → Framed right
    → Framed (combine type left right)
unfolding Framed
combine-Framed type left right f g m r h =
    let (x, first, rest) = bind-eq-some (left m) _ h in
    let (y, second, rest1) = bind-eq-some (right x.1) _ rest in
    let (v, applied, same) = bind-eq-some (apply_operator type x.0 y.0) _ rest1 in
    rw (sym (ap (λ z. z.1) (some-injective _ r same))) (later (f m x first) (g x.1 y second))

call-Framed :
    (rec : ℕ → ℕ → Cmd Machine ℕ) (tokens : ℕ → Token) (start stop : ℕ)
    → ((a b : ℕ) → Framed (rec a b))
    → Framed (eval_call rec tokens start stop)
unfolding Framed
call-Framed rec tokens start stop f m r h = elim (Bool-cases (ltb start stop)) [
  | inr e ↦ absurd (none-ne-some _ (rw e at h))
  | inl e ↦ elim (Bool-cases (suc start == stop)) [
    | inl g ↦ token-Framed (tokens start) m r (rw (e, g) at h)
    | inr g ↦
        (let (b, checked, rest) =
            bind-eq-some (check_parentheses tokens start stop) _ (rw (e, g) at h) in
          let op = find_primary_operator tokens start stop in
          elim (Bool-cases b) [
            | inl k ↦ f (suc start) (stop - 1) m r (rw k at rest)
            | inr k ↦ elim (Bool-cases (is_deref (tokens op).type)) [
              | inl d ↦ read-Framed (rec (suc op) stop) (f (suc op) stop) m r (rw (k, d) at rest)
              | inr d ↦
                  combine-Framed (tokens op).type (rec start op) (rec (suc op) stop) (f start op)
                    (f (suc op) stop) m r (rw (k, d) at rest)
            ]
          ])
  ]
]

pub eval-Framed : (n : ℕ) (tokens : ℕ → Token) (start stop : ℕ) → Framed (eval n tokens start stop)
unfolding Framed eval
eval-Framed zero tokens start stop m r h = absurd (none-ne-some _ h)
eval-Framed (suc n) tokens start stop m r h =
    call-Framed (eval n tokens) tokens start stop (λ a b. eval-Framed n tokens a b) m r h

rest_frame :
    (made success : Bool) (a : TokenArray) (m : Machine) (r : ExprResult)
    → expr_tokens made success a m ≡ some r
    → SameButBus m r.machine
unfolding Framed
rest_frame false success a m r h =
    unchanged m r.machine (ap (λ x. x.machine) (some-injective _ r h))
rest_frame true success a m r h =
    let marked = mark_deref a.tokens a.nr_token 0 in
    let (x, value, rest) = bind-eq-some (eval a.nr_token marked 0 a.nr_token m) _ h in
    let last : x.1 ≡ r.machine = ap (λ y. y.machine) (some-injective _ r rest) in
    later (eval-Framed a.nr_token marked 0 a.nr_token m x value) (unchanged x.1 r.machine last)

pub expr-frame :
    (regexec : List ℕ → List ℕ → Option (ℕ × ℕ)) (text : List ℕ) (success : Bool) (a : TokenArray)
    (m : Machine) (r : ExprResult)
    → expr regexec text success a m ≡ some r
    → SameButBus m r.machine
unfolding expr
expr-frame regexec text success a m r h =
    let ((made, b), lexed, rest) = bind-eq-some (make_token regexec text a) _ h in
    rest_frame made success b m r rest
