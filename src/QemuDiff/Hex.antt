-- ===== src/QemuDiff/Hex.antt =====
-- Hexadecimal text: `sprintf` of "%x", and reading it.
use ics.Base.{
  ℕ, zero, suc, ◌+◌, ◌-◌, ◌*◌, ◌/◌, ◌%◌, ◌^◌, ◌<◌, ◌≡◌, ◌∙◌, ap, none, some, List, [], ◌∷◌, ltb,
  ◌==◌, if◌then◌else◌, arith, Bool-cases, inl, inr,
}
use native.Mathlib.Nat.{pow-suc}
use ics.Monitor.Expr.Tokens.{digit}

abbrev pub hex_char : ℕ → ℕ
hex_char d = if ltb d 10 then b'0' + d else b'a' + (d - 10)

-- The digits of `n` before those in `rest`.
unfoldable pub print_hex : ℕ → ℕ → List ℕ → List ℕ
print_hex zero n rest = rest
print_hex (suc k) n rest =
    let more = print_hex k (n / 16) (hex_char (n % 16) ∷ rest) in
    if n / 16 == 0 then hex_char (n % 16) ∷ rest else more

-- A uint32_t has at most eight digits. `rest` is the text that follows.
unfoldable pub print_x : ℕ → List ℕ → List ℕ
unfolding print_hex
print_x n rest = print_hex 8 n rest

-- The number that the digits in front make, and what follows them.
unfoldable pub read_hex : ℕ → List ℕ → ℕ × List ℕ
read_hex acc [] = (acc, [])
read_hex acc (c ∷ cs) = elim (digit 16 c) [
  | none ↦ (acc, c ∷ cs)
  | some d ↦ read_hex (acc * 16 + d) cs
]

pub digit-hex_char : (d : ℕ) → d < 16 → digit 16 (hex_char d) ≡ some d
digit-hex_char d h = ground arith

read_digit :
    (acc d : ℕ) (rest : List ℕ)
    → d < 16
    → read_hex acc (hex_char d ∷ rest) ≡ read_hex (acc * 16 + d) rest
unfolding read_hex
read_digit acc d rest h = ground arith

read_hex-print_hex :
    (k n : ℕ) (rest : List ℕ)
    → n < 16 ^ suc k
    → read_hex 0 (print_hex (suc k) n rest) ≡ read_hex n rest
unfolding print_hex
read_hex-print_hex zero n rest h =
    let last : n / 16 ≡ 0 = omega arith in
    let small : 0 * 16 + n % 16 ≡ n = omega arith in
    rw last (read_digit 0 (n % 16) rest (omega arith) ∙ ap (λ m. read_hex m rest) small)
read_hex-print_hex (suc k) n rest h = elim (Bool-cases (n / 16 == 0)) [
  | inl z ↦
      let small : 0 * 16 + n % 16 ≡ n = ground arith in
      rw z (read_digit 0 (n % 16) rest (omega arith) ∙ ap (λ m. read_hex m rest) small)
  | inr z ↦
      let whole : n / 16 * 16 + n % 16 ≡ n = omega arith in
      rw z (
        read_hex-print_hex k (n / 16) (hex_char (n % 16) ∷ rest) (omega (arith, pow-suc 16 (suc k)))
        ∙ read_digit (n / 16) (n % 16) rest (omega arith)
        ∙ ap (λ m. read_hex m rest) whole)
]

pub read_hex-print_x :
    (n : ℕ) (rest : List ℕ) → n < 2 ^ 32 → read_hex 0 (print_x n rest) ≡ read_hex n rest
unfolding print_x
read_hex-print_x n rest h = read_hex-print_hex 7 n rest (omega arith)
