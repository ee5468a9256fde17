-- ===== src/GenExpr/Decimal.antt =====
-- `sprintf` of "%u", and what reading the digits back gives.
use ics.Base.{
  ℕ, zero, suc, ◌+◌, ◌*◌, ◌/◌, ◌%◌, ◌^◌, ◌<◌, ◌≡◌, List, [], ◌∷◌, ◌==◌, if◌then◌else◌, arith, inl,
  inr, Bool-cases, ◌∙◌, some, lt→ltb, ap,
}
use native.Mathlib.Nat.{pow-suc}
use ics.Monitor.Expr.Tokens.{number, atoi}

-- The digits of `n` before those in `rest`.
unfoldable pub print_digits : ℕ → ℕ → List ℕ → List ℕ
print_digits zero n rest = rest
print_digits (suc k) n rest =
    let more = print_digits k (n / 10) ((b'0' + n % 10) ∷ rest) in
    if n / 10 == 0 then (b'0' + n % 10) ∷ rest else more

-- A uint32_t has at most ten digits.
unfoldable pub print_u : ℕ → List ℕ
unfolding print_digits
print_u n = print_digits 10 n []

-- Reading a decimal digit.
number_digit :
    (acc d : ℕ) (rest : List ℕ)
    → d < 10
    → number 10 acc ((b'0' + d) ∷ rest) ≡ number 10 (acc * 10 + d) rest
number_digit acc d rest h = ground arith

number-print_digits :
    (k n : ℕ) (rest : List ℕ)
    → n < 10 ^ suc k
    → number 10 0 (print_digits (suc k) n rest) ≡ number 10 n rest
unfolding print_digits
number-print_digits zero n rest h =
    let last : n / 10 ≡ 0 = omega arith in
    let small : 0 * 10 + n % 10 ≡ n = omega arith in
    rw last (number_digit 0 (n % 10) rest (omega arith) ∙ ap (λ m. number 10 m rest) small)
number-print_digits (suc k) n rest h = elim (Bool-cases (n / 10 == 0)) [
  | inl z ↦
      let small : 0 * 10 + n % 10 ≡ n = ground arith in
      rw z (number_digit 0 (n % 10) rest (omega arith) ∙ ap (λ m. number 10 m rest) small)
  | inr z ↦
      let whole : n / 10 * 10 + n % 10 ≡ n = omega arith in
      rw z (
        number-print_digits k (n / 10) ((b'0' + n % 10) ∷ rest) (omega (arith, pow-suc 10 (suc k)))
        ∙ number_digit (n / 10) (n % 10) rest (omega arith)
        ∙ ap (λ m. number 10 m rest) whole)
]

-- What `%u` prints for a number below 2 ^ 31, the debugger's `atoi` reads as that number.
pub atoi-print_u : (n : ℕ) → n < 2 ^ 31 → atoi (print_u n) ≡ some n
unfolding atoi print_u
atoi-print_u n h =
    let read : number 10 0 (print_u n) ≡ n = number-print_digits 9 n [] (omega arith) in
    rw (read, lt→ltb n (2 ^ 31) h)
