-- ===== src/Rtl/Op.antt =====
-- The C operators behind the RTL instructions: nemu/include/rtl/c_op.h and the 64-bit divisions
-- of nemu/include/rtl/rtl.h, on the values of `rtlreg_t` (below 2^32). `none` is a host trap (a
-- division by zero, or a signed quotient that does not fit) or a shift that C leaves undefined (a
-- count of 32 or more). Signed products wrap, as they do on the two's complement hosts.
use ics.Base.{
  ℕ, ◌+◌, ◌-◌, ◌*◌, ◌/◌, ◌%◌, ◌^◌, bit_and, bit_or, bit_xor, Option, none, some, ◌==◌, ltb,
  if◌then◌else◌, ℤ, pos, negsuc, ◌*ℤ◌, quot, rem, signed, pattern_of,
}

unfoldable pub c_add : ℕ → ℕ → ℕ
c_add a b = (a + b) % 2 ^ 32

unfoldable pub c_sub : ℕ → ℕ → ℕ
c_sub a b = (a + 2 ^ 32 - b) % 2 ^ 32

unfoldable pub c_and : ℕ → ℕ → ℕ
c_and a b = bit_and a b

unfoldable pub c_or : ℕ → ℕ → ℕ
c_or a b = bit_or a b

unfoldable pub c_xor : ℕ → ℕ → ℕ
c_xor a b = bit_xor a b

unfoldable pub c_shl : ℕ → ℕ → Option ℕ
c_shl a b = if ltb b 32 then some (a * 2 ^ b % 2 ^ 32) else none

unfoldable pub c_shr : ℕ → ℕ → Option ℕ
c_shr a b = if ltb b 32 then some (a / 2 ^ b) else none

-- `>>` on an int32_t copies the sign bit: it divides and rounds down.
abbrev pub shift_floor : ℤ → ℕ → ℤ
shift_floor (pos n) b = pos (n / 2 ^ b)
shift_floor (negsuc n) b = negsuc (n / 2 ^ b)

unfoldable pub c_sar : ℕ → ℕ → Option ℕ
c_sar a b = if ltb b 32 then some (pattern_of 32 (shift_floor (signed 32 a) b)) else none

unfoldable pub c_mul_lo : ℕ → ℕ → ℕ
c_mul_lo a b = a * b % 2 ^ 32

-- The product of two 32-bit values is below 2^64, so the uint64_t product does not wrap.
unfoldable pub c_mul_hi : ℕ → ℕ → ℕ
c_mul_hi a b = a * b % 2 ^ 64 / 2 ^ 32 % 2 ^ 32

unfoldable pub c_imul_lo : ℕ → ℕ → ℕ
c_imul_lo a b = pattern_of 32 (signed 32 a *ℤ signed 32 b)

unfoldable pub c_imul_hi : ℕ → ℕ → ℕ
c_imul_hi a b = pattern_of 32 (shift_floor (signed 32 a *ℤ signed 32 b) 32)

unfoldable pub c_div_q : ℕ → ℕ → Option ℕ
c_div_q a b = if b == 0 then none else some (a / b)

unfoldable pub c_div_r : ℕ → ℕ → Option ℕ
c_div_r a b = if b == 0 then none else some (a % b)

-- INT_MIN / -1 traps like a zero divisor.
unfoldable pub c_idiv_q : ℕ → ℕ → Option ℕ
c_idiv_q a b =
    if b == 0
    then none
    else if a == 2 ^ 31
    then if b == 2 ^ 32 - 1 then none else some (pattern_of 32 (quot (signed 32 a) (signed 32 b)))
    else some (pattern_of 32 (quot (signed 32 a) (signed 32 b)))

unfoldable pub c_idiv_r : ℕ → ℕ → Option ℕ
c_idiv_r a b =
    if b == 0
    then none
    else if a == 2 ^ 31
    then if b == 2 ^ 32 - 1 then none else some (pattern_of 32 (rem (signed 32 a) (signed 32 b)))
    else some (pattern_of 32 (rem (signed 32 a) (signed 32 b)))

-- `((uint64_t)hi << 32) | lo`, with both halves below 2^32.
unfoldable pub dividend64 : ℕ → ℕ → ℕ
dividend64 hi lo = bit_or (hi * 2 ^ 32) lo

-- The quotient is stored in an `rtlreg_t`, which keeps its low 32 bits.
unfoldable pub div64_q : ℕ → ℕ → ℕ → Option ℕ
div64_q hi lo b = if b == 0 then none else some (dividend64 hi lo / b % 2 ^ 32)

unfoldable pub div64_r : ℕ → ℕ → ℕ → Option ℕ
div64_r hi lo b = if b == 0 then none else some (dividend64 hi lo % b)

-- The divisor is an `int32_t`; INT64_MIN / -1 traps.
unfoldable pub idiv64_q : ℕ → ℕ → ℕ → Option ℕ
idiv64_q hi lo b =
    if b == 0
    then none
    else if dividend64 hi lo == 2 ^ 63
    then if b == 2 ^ 32 - 1 then none else some (quotient (dividend64 hi lo))
    else some (quotient (dividend64 hi lo))
  where
    quotient : ℕ → ℕ
    quotient n = pattern_of 32 (quot (signed 64 n) (signed 32 b))

unfoldable pub idiv64_r : ℕ → ℕ → ℕ → Option ℕ
idiv64_r hi lo b =
    if b == 0
    then none
    else if dividend64 hi lo == 2 ^ 63
    then if b == 2 ^ 32 - 1 then none else some (remainder (dividend64 hi lo))
    else some (remainder (dividend64 hi lo))
  where
    remainder : ℕ → ℕ
    remainder n = pattern_of 32 (rem (signed 64 n) (signed 32 b))
