-- ===== src/Monitor/Expr/Fuel.antt =====
-- `eval` calls itself on shorter ranges only.
use ics.Base.{
  ℕ, zero, suc, ◌+◌, ◌-◌, ◌≤◌, ◌<◌, ◌≡◌, refl, inl, inr, ◌⊎◌, pos, arith, fun_ext, ltb, Bool-cases,
  Cmd,
}
use ics.Machine.{Machine}
use ics.Monitor.Expr.Tokens.{TokenType, Token}
use ics.Monitor.Expr.{
  Search, search_step, search_operator, accept, find_primary_operator, eval, eval_call,
}

accept-out :
    (limit level p : ℕ) (s : Search)
    → ((accept limit level p s).out ≡ s.out) ⊎ ((accept limit level p s).out ≡ p)
accept-out limit level p s = ground arith

step-out :
    (type : TokenType) (p : ℕ) (s : Search)
    → ((search_step type p s).out ≡ s.out) ⊎ ((search_step type p s).out ≡ p)
step-out TokenType.notype p s = inl refl
step-out TokenType.plus p s = accept-out 4 3 p s
step-out TokenType.minus p s = accept-out 4 3 p s
step-out TokenType.times p s = accept-out 3 2 p s
step-out TokenType.divide p s = accept-out 3 2 p s
step-out TokenType.eq p s = accept-out 5 4 p s
step-out TokenType.lcom p s = inl refl
step-out TokenType.rcom p s = inl refl
step-out TokenType.hexadecimal p s = inl refl
step-out TokenType.num10 p s = inl refl
step-out TokenType.regname p s = inl refl
step-out TokenType.notequal p s = accept-out 5 4 p s
step-out TokenType.and p s = ground arith
step-out TokenType.deref p s = accept-out 2 1 p s

search-out :
    (tokens : ℕ → Token) (n p lo hi : ℕ) (s : Search)
    → lo ≤ s.out
    → s.out < hi
    → lo ≤ p
    → p + n ≤ hi
    → (lo ≤ (search_operator tokens n p s).out) × ((search_operator tokens n p s).out < hi)
unfolding search_operator
search-out tokens zero p lo hi s a b c d = (a, b)
search-out tokens (suc n) p lo hi s a b c d = elim (step-out (tokens p).type p s) [
  | inl e ↦
      search-out tokens n (suc p) lo hi (search_step (tokens p).type p s) (rw e a) (rw e b)
        (omega arith) (omega arith)
  | inr e ↦
      search-out tokens n (suc p) lo hi (search_step (tokens p).type p s) (rw e c)
        (rw e (omega arith)) (omega arith) (omega arith)
]

-- In a range that is not empty, the operator found is one of its tokens, whatever they are.
pub find_primary_operator-bound :
    (tokens : ℕ → Token) (start stop : ℕ)
    → start < stop
    → (start ≤ find_primary_operator tokens start stop)
      × (find_primary_operator tokens start stop < stop)
unfolding find_primary_operator
find_primary_operator-bound tokens start stop h =
    search-out tokens (stop - start) start start stop
      (record { flag = pos 0; priority = 0; out = start }) (omega arith) h (omega arith)
      (omega arith)

-- Two continuations that agree on the shorter ranges inside a range agree on it.
call_agrees :
    (f g : ℕ → ℕ → Cmd Machine ℕ) (n : ℕ) (tokens : ℕ → Token) (start stop : ℕ) (m : Machine)
    → ((a b : ℕ) → b ≤ a + n → f a b ≡ g a b)
    → stop ≤ start + suc n
    → eval_call f tokens start stop m ≡ eval_call g tokens start stop m
call_agrees f g n tokens start stop m agree h = elim (Bool-cases (ltb start stop)) [
  | inr e ↦ rw e refl
  | inl e ↦
      (let inside = find_primary_operator-bound tokens start stop (ground arith) in
        let op = find_primary_operator tokens start stop in
        rw
          (
            e,
            agree (suc start) (stop - 1) (omega arith),
            agree start op (omega (arith, inside.1)),
            agree (suc op) stop (omega (arith, inside.0)),
          )
          refl)
]

-- Once the fuel covers the range's length, more of it changes nothing: what `eval` returns is never
-- cut short.
pub eval-enough :
    (n k : ℕ) (tokens : ℕ → Token) (start stop : ℕ) (m : Machine)
    → stop ≤ start + n
    → eval (k + n) tokens start stop m ≡ eval n tokens start stop m
unfolding eval
eval-enough zero zero tokens start stop m h = refl
eval-enough zero (suc k) tokens start stop m h = ground arith
eval-enough (suc n) k tokens start stop m h =
    let more : k + suc n ≡ suc (k + n) = omega arith in
    rw more (
      call_agrees (eval (k + n) tokens) (eval n tokens) n tokens start stop m
        (λ a b inside. fun_ext (λ m'. eval-enough n k tokens a b m' inside)) h)
