-- ===== src/Base/Bits.antt =====
-- The native `&`, `|` and `^`: their lowest digit, each of their bits, low masks and disjoint
-- fields, at every width.
use Prim.Native.Nat.{
  ℕ, zero, suc, ◌+◌, ◌-◌, ◌*◌, ◌/◌, ◌%◌, ◌^◌, ◌≤◌, ◌<◌, min, max, digits, bitwise, bit_and, bit_or,
  bit_xor, bit_and-bitwise, bit_or-bitwise, bit_xor-bitwise, differ,
}
use mathlib.Core.Path.{◌≡◌, refl, ◌∙◌, ap}
use native.Mathlib.Nat.{le_refl, pow-suc, div-div-eq-div-mul, mul_comm, one-le-pow}
use native.Mathlib.Nat.{mod-eq-sub-div-mul, div-mul-le_self}
use native.Mathlib.Omega.{arith}

-- The library's fuel is dropped: one equation for the lowest digit.
module _ (z : ℕ → ℕ) (f : ℕ → ℕ → ℕ) where
  digits_any_fuel : (n m a b : ℕ) → a ≤ n → a ≤ m → digits z f n a b ≡ digits z f m a b
  digits_any_fuel zero zero a b p q = refl
  digits_any_fuel zero (suc m) zero b p q = refl
  digits_any_fuel zero (suc m) (suc a) b p q = absurd (omega arith)
  digits_any_fuel (suc n) zero zero b p q = refl
  digits_any_fuel (suc n) zero (suc a) b p q = absurd (omega arith)
  digits_any_fuel (suc n) (suc m) zero b p q = refl
  digits_any_fuel (suc n) (suc m) (suc a) b p q =
      rw (digits_any_fuel n m (suc a / 2) (b / 2) (omega arith) (omega arith))

  bitwise_low :
      (a b : ℕ)
      → bitwise z f (suc a) b ≡ bitwise z f (suc a / 2) (b / 2) * 2 + f (suc a % 2) (b % 2)
  bitwise_low a b =
      omega (arith, digits_any_fuel a (suc a / 2) (suc a / 2) (b / 2) (omega arith) (le_refl _))

differ_bits : (x y : ℕ) → x < 2 → y < 2 → differ x y ≡ (x + y) % 2
differ_bits zero y p q = omega arith
differ_bits (suc zero) zero p q = refl
differ_bits (suc zero) (suc zero) p q = refl
differ_bits (suc zero) (suc (suc y)) p q = absurd (omega arith)
differ_bits (suc (suc x)) y p q = absurd (omega arith)

pub bit_or_low : (a b : ℕ) → bit_or a b ≡ bit_or (a / 2) (b / 2) * 2 + max (a % 2) (b % 2)
bit_or_low zero b = simp bit_or-bitwise (omega arith)
bit_or_low (suc a) b = simp bit_or-bitwise (bitwise_low (λ y. y) max a b)

pub bit_and_low : (a b : ℕ) → bit_and a b ≡ bit_and (a / 2) (b / 2) * 2 + min (a % 2) (b % 2)
bit_and_low zero b = simp bit_and-bitwise (omega arith)
bit_and_low (suc a) b = simp bit_and-bitwise (bitwise_low (λ y. 0) min a b)

bit_xor-differ : (a b : ℕ) → bit_xor a b ≡ bit_xor (a / 2) (b / 2) * 2 + differ (a % 2) (b % 2)
bit_xor-differ zero b = simp bit_xor-bitwise (omega arith)
bit_xor-differ (suc a) b = simp bit_xor-bitwise (bitwise_low (λ y. y) differ a b)

pub bit_xor_low : (a b : ℕ) → bit_xor a b ≡ bit_xor (a / 2) (b / 2) * 2 + (a % 2 + b % 2) % 2
bit_xor_low a b =
    omega (arith, bit_xor-differ a b, differ_bits (a % 2) (b % 2) (omega arith) (omega arith))

-- Bit `k` of a number.
abbrev pub bit : ℕ → ℕ → ℕ
bit k a = a / 2 ^ k % 2

pub div-two_pow_suc : (a k : ℕ) → a / 2 ^ suc k ≡ a / 2 / 2 ^ k
div-two_pow_suc a k = rw (div-div-eq-div-mul a 2 (2 ^ k), mul_comm 2 (2 ^ k), ← pow-suc 2 k) refl

bit-suc : (k a : ℕ) → bit (suc k) a ≡ bit k (a / 2)
bit-suc k a = rw (div-two_pow_suc a k)

-- The bits of `&`, `|` and `^` are those of the operands, joined.
pub bit-and : (k a b : ℕ) → bit k (bit_and a b) ≡ min (bit k a) (bit k b)
bit-and zero a b = omega (arith, bit_and_low a b)
bit-and (suc k) a b =
    let half : bit_and a b / 2 ≡ bit_and (a / 2) (b / 2) = omega (arith, bit_and_low a b) in
    rw (bit-suc k (bit_and a b), half, bit-suc k a, bit-suc k b) (bit-and k (a / 2) (b / 2))

pub bit-or : (k a b : ℕ) → bit k (bit_or a b) ≡ max (bit k a) (bit k b)
bit-or zero a b = omega (arith, bit_or_low a b)
bit-or (suc k) a b =
    let half : bit_or a b / 2 ≡ bit_or (a / 2) (b / 2) = omega (arith, bit_or_low a b) in
    rw (bit-suc k (bit_or a b), half, bit-suc k a, bit-suc k b) (bit-or k (a / 2) (b / 2))

pub bit-xor : (k a b : ℕ) → bit k (bit_xor a b) ≡ (bit k a + bit k b) % 2
bit-xor zero a b = omega (arith, bit_xor_low a b)
bit-xor (suc k) a b =
    let half : bit_xor a b / 2 ≡ bit_xor (a / 2) (b / 2) = omega (arith, bit_xor_low a b) in
    rw (bit-suc k (bit_xor a b), half, bit-suc k a, bit-suc k b) (bit-xor k (a / 2) (b / 2))

-- `& 0`, `| 0`, `^ 0` and `^` of a number with itself.
pub zero-bit_and : (b : ℕ) → bit_and 0 b ≡ 0
zero-bit_and b = bit_and-bitwise 0 b

pub zero-bit_or : (b : ℕ) → bit_or 0 b ≡ b
zero-bit_or b = bit_or-bitwise 0 b

pub zero-bit_xor : (b : ℕ) → bit_xor 0 b ≡ b
zero-bit_xor b = bit_xor-bitwise 0 b

-- A result is as narrow as its operands.
pub bit_and-lt : (k a b : ℕ) → a < 2 ^ k → bit_and a b < 2 ^ k
bit_and-lt zero zero b h = omega (arith, zero-bit_and b)
bit_and-lt zero (suc a) b h = absurd (omega arith)
bit_and-lt (suc k) a b h =
    omega (
      arith,
      bit_and_low a b,
      pow-suc 2 k,
      bit_and-lt k (a / 2) (b / 2) (omega (arith, pow-suc 2 k)),
    )

pub bit_or-lt : (k a b : ℕ) → a < 2 ^ k → b < 2 ^ k → bit_or a b < 2 ^ k
bit_or-lt zero zero b h g = omega (arith, zero-bit_or b)
bit_or-lt zero (suc a) b h g = absurd (omega arith)
bit_or-lt (suc k) a b h g =
    let p : 2 ^ suc k ≡ 2 ^ k * 2 = pow-suc 2 k in
    omega (arith, bit_or_low a b, bit_or-lt k (a / 2) (b / 2) (omega arith) (omega arith))

pub bit_xor-lt : (k a b : ℕ) → a < 2 ^ k → b < 2 ^ k → bit_xor a b < 2 ^ k
bit_xor-lt zero zero b h g = omega (arith, zero-bit_xor b)
bit_xor-lt zero (suc a) b h g = absurd (omega arith)
bit_xor-lt (suc k) a b h g =
    let p : 2 ^ suc k ≡ 2 ^ k * 2 = pow-suc 2 k in
    omega (arith, bit_xor_low a b, bit_xor-lt k (a / 2) (b / 2) (omega arith) (omega arith))

-- The operations act on the fields above and below bit `k` alone. The fields are variables, since
-- a quotient and a remainder by `2 ^ k` would be opaque.
abbrev pub field : ℕ → ℕ → ℕ → ℕ
field k q r = q * 2 ^ k + r

field_half : (k q r : ℕ) → field (suc k) q r / 2 ≡ field k q (r / 2)
field_half k q r = omega (arith, ap (λ (t : ℕ). q * t) (pow-suc 2 k))

field_parity : (k q r : ℕ) → field (suc k) q r % 2 ≡ r % 2
field_parity k q r = omega (arith, ap (λ (t : ℕ). q * t) (pow-suc 2 k))

pub bit_or-field :
    (k q r p s : ℕ)
    → r < 2 ^ k
    → s < 2 ^ k
    → bit_or (field k q r) (field k p s) ≡ field k (bit_or q p) (bit_or r s)
bit_or-field zero q r p s h g =
    let e : r ≡ 0 = omega arith in
    let f : s ≡ 0 = omega arith in
    let u : field 0 q 0 ≡ q = omega arith in
    let v : field 0 p 0 ≡ p = omega arith in rw (e, f, u, v) (omega (arith, zero-bit_or 0))
bit_or-field (suc k) q r p s h g =
    let w : 2 ^ suc k ≡ 2 ^ k * 2 = pow-suc 2 k in
    let ih = bit_or-field k q (r / 2) p (s / 2) (omega arith) (omega arith) in
    bit_or_low (field (suc k) q r) (field (suc k) p s)
    ∙ rw (field_half k q r, field_half k p s, field_parity k q r, field_parity k p s, ih)
        (omega (arith, bit_or_low r s, ap (λ (t : ℕ). bit_or q p * t) w))

bit_or-zero_below : (n x : ℕ) → x < n → bit_or x 0 ≡ x
bit_or-zero_below zero x h = absurd (omega arith)
bit_or-zero_below (suc n) zero h = refl
bit_or-zero_below (suc n) (suc x) h =
    omega (arith, bit_or_low (suc x) 0, bit_or-zero_below n (suc x / 2) (omega arith))

pub bit_or-zero : (x : ℕ) → bit_or x 0 ≡ x
bit_or-zero x = bit_or-zero_below (suc x) x (omega arith)

mod-two_pow_suc : (k x : ℕ) → x % 2 ^ suc k ≡ x / 2 % 2 ^ k * 2 + x % 2
mod-two_pow_suc k x =
    let w : 2 ^ suc k ≡ 2 ^ k * 2 = pow-suc 2 k in
    omega (
      arith,
      mod-eq-sub-div-mul x (2 ^ suc k),
      ap (λ (t : ℕ). t * 2 ^ suc k) (div-two_pow_suc x k),
      ap (λ (t : ℕ). x / 2 / 2 ^ k * t) w,
      mod-eq-sub-div-mul (x / 2) (2 ^ k),
      div-mul-le_self (x / 2) (2 ^ k),
    )

bit_and-zero_below : (n x : ℕ) → x < n → bit_and x 0 ≡ 0
bit_and-zero_below zero x h = absurd (omega arith)
bit_and-zero_below (suc n) zero h = refl
bit_and-zero_below (suc n) (suc x) h =
    omega (arith, bit_and_low (suc x) 0, bit_and-zero_below n (suc x / 2) (omega arith))

pub bit_and-zero : (x : ℕ) → bit_and x 0 ≡ 0
bit_and-zero x = bit_and-zero_below (suc x) x (omega arith)

-- `x & (2^k - 1)` keeps the low `k` bits.
pub bit_and_mask : (k x : ℕ) → bit_and x (2 ^ k - 1) ≡ x % 2 ^ k
bit_and_mask zero x = bit_and-zero x ∙ omega arith
bit_and_mask (suc k) x =
    let w : 2 ^ suc k ≡ 2 ^ k * 2 = pow-suc 2 k in
    let half : (2 ^ suc k - 1) / 2 ≡ 2 ^ k - 1 = omega (arith, one-le-pow k 2) in
    bit_and_low x (2 ^ suc k - 1)
    ∙ rw (half, bit_and_mask k (x / 2)) (omega (arith, one-le-pow k 2, mod-two_pow_suc k x))

-- `(2^k - 1) | x` is all ones when `x` has `k` bits.
pub ones-bit_or : (k x : ℕ) → x < 2 ^ k → bit_or (2 ^ k - 1) x ≡ 2 ^ k - 1
ones-bit_or zero x h = omega (arith, zero-bit_or x)
ones-bit_or (suc k) x h =
    let w : 2 ^ suc k ≡ 2 ^ k * 2 = pow-suc 2 k in
    let half : (2 ^ suc k - 1) / 2 ≡ 2 ^ k - 1 = omega (arith, one-le-pow k 2) in
    bit_or_low (2 ^ suc k - 1) x
    ∙ rw (half, ones-bit_or k (x / 2) (omega arith)) (omega (arith, one-le-pow k 2))

-- `(2^k - 1) & x` keeps the low `k` bits.
pub mask-bit_and : (k x : ℕ) → bit_and (2 ^ k - 1) x ≡ x % 2 ^ k
mask-bit_and zero x = zero-bit_and x ∙ omega arith
mask-bit_and (suc k) x =
    let w : 2 ^ suc k ≡ 2 ^ k * 2 = pow-suc 2 k in
    let half : (2 ^ suc k - 1) / 2 ≡ 2 ^ k - 1 = omega (arith, one-le-pow k 2) in
    bit_and_low (2 ^ suc k - 1) x
    ∙ rw (half, mask-bit_and k (x / 2)) (omega (arith, one-le-pow k 2, mod-two_pow_suc k x))
