-- ===== src/X86/Flags/Values.antt =====
-- The values that the flag computations of x86/include/isa/rtl.h give, as arithmetic.
use ics.Base.{
  ℕ, ◌+◌, ◌-◌, ◌*◌, ◌/◌, ◌%◌, ◌^◌, ◌<◌, ◌≡◌, refl, inl, inr, some, arith, ◌==◌, ltb, leb,
  if◌then◌else◌, ◌∙◌, to_bit, not, ℤ, pattern_of, signed, ◌+ℤ◌, ◌-ℤ◌, pos, negsuc, ltb_ℤ, leb_ℤ,
  Bool, true, false, ◌&&◌, bit, bit-and, bit-xor, bit_and, bit_xor, bit_and_mask,
}
use mathlib.Core.Path.{ap₂}
use Prim.Native.Nat.{min}
use ics.Rtl.{shr_sign, c_not}
use ics.Rtl.Op.{c_add, c_sub, c_and, c_xor, c_shl, c_shr}
use ics.X86.Reg.Views.{IsWidth}
use ics.X86.Flags.{flag_of}

-- The integer fits `bits` bits in two's complement.
abbrev pub in_range : ℕ → ℤ → Bool
in_range bits z = leb_ℤ (negsuc (2 ^ (bits - 1) - 1)) z && ltb_ℤ z (pos (2 ^ (bits - 1)))

-- The most significant bit of the low `width` bytes.
abbrev pub sign_bit : ℕ → ℕ → ℕ
sign_bit width x = bit (width * 8 - 1) x

pub shr_sign-bit :
    (x : ℕ) {width : ℕ}
    → IsWidth width
    → (v : ℕ) × (shr_sign x width ≡ some v) × (bit_and v 1 ≡ sign_bit width x)
unfolding shr_sign c_shr
shr_sign-bit x (inl e) = (x / 2 ^ 7, rw e, rw e (bit_and_mask 1 (x / 2 ^ 7)))
shr_sign-bit x (inr (inl e)) = (x / 2 ^ 15, rw e, rw e (bit_and_mask 1 (x / 2 ^ 15)))
shr_sign-bit x (inr (inr e)) = (x / 2 ^ 31, rw e, rw e (bit_and_mask 1 (x / 2 ^ 31)))

pub c_shl-zero :
    (x : ℕ) {width : ℕ}
    → IsWidth width
    → x < 2 ^ 32
    → (y : ℕ) × (c_shl x (32 - width * 8) ≡ some y)
      × ((if y == 0 then 1 else 0) ≡ to_bit (x % 256 ^ width == 0))
unfolding c_shl
c_shl-zero x (inl e) h = (x * 2 ^ 24 % 2 ^ 32, rw e, rw e (ground arith))
c_shl-zero x (inr (inl e)) h = (x * 2 ^ 16 % 2 ^ 32, rw e, rw e (ground arith))
c_shl-zero x (inr (inr e)) h = (x * 1 % 2 ^ 32, rw e, rw e (ground arith))

abbrev add_sign : ℕ → ℕ → ℕ → ℕ
add_sign k d s = bit k (bit_and (bit_xor ((d + s) % 2 ^ 32) d) (bit_xor (2 ^ 32 - 1 - d) s))

add_sign-bits :
    (k d s : ℕ)
    → add_sign k d s
      ≡ min ((bit k ((d + s) % 2 ^ 32) + bit k d) % 2) ((bit k (2 ^ 32 - 1 - d) + bit k s) % 2)
add_sign-bits k d s =
    bit-and k (bit_xor ((d + s) % 2 ^ 32) d) (bit_xor (2 ^ 32 - 1 - d) s)
    ∙ ap₂ min (bit-xor k ((d + s) % 2 ^ 32) d) (bit-xor k (2 ^ 32 - 1 - d) s)

abbrev sum_fits : ℕ → ℕ → ℕ → Bool
sum_fits bits d s = in_range bits (signed bits d +ℤ signed bits s)

add_overflow8 : (d s : ℕ) → d < 256 → s < 256 → add_sign 7 d s ≡ to_bit (not (sum_fits 8 d s))
unfolding ◌+ℤ◌
add_overflow8 d s hd hs = add_sign-bits 7 d s ∙ ground arith

add_overflow16 :
    (d s : ℕ) → d < 65536 → s < 65536 → add_sign 15 d s ≡ to_bit (not (sum_fits 16 d s))
unfolding ◌+ℤ◌
add_overflow16 d s hd hs = add_sign-bits 15 d s ∙ ground arith

add_overflow32 :
    (d s : ℕ) → d < 2 ^ 32 → s < 2 ^ 32 → add_sign 31 d s ≡ to_bit (not (sum_fits 32 d s))
unfolding ◌+ℤ◌
add_overflow32 d s hd hs = add_sign-bits 31 d s ∙ ground arith

-- Signed overflow of a sum, from the sign bits of `~d ^ s` and of the result `^ d`.
pub add_overflow :
    (d s : ℕ) {width : ℕ}
    → IsWidth width
    → d < 256 ^ width
    → s < 256 ^ width
    → sign_bit width (c_and (c_xor (c_add d s) d) (c_xor (c_not d) s))
      ≡ to_bit (not (in_range (width * 8) (signed (width * 8) d +ℤ signed (width * 8) s)))
unfolding c_and c_xor c_add c_not
add_overflow d s (inl e) hd hs = rw e (add_overflow8 d s (rw e at hd) (rw e at hs))
add_overflow d s (inr (inl e)) hd hs = rw e (add_overflow16 d s (rw e at hd) (rw e at hs))
add_overflow d s (inr (inr e)) hd hs = rw e (add_overflow32 d s (rw e at hd) (rw e at hs))

abbrev sub_sign : ℕ → ℕ → ℕ → ℕ
sub_sign k d s = bit k (bit_and (bit_xor d s) (bit_xor ((d + 2 ^ 32 - s) % 2 ^ 32) d))

sub_sign-bits :
    (k d s : ℕ)
    → sub_sign k d s
      ≡ min ((bit k d + bit k s) % 2) ((bit k ((d + 2 ^ 32 - s) % 2 ^ 32) + bit k d) % 2)
sub_sign-bits k d s =
    bit-and k (bit_xor d s) (bit_xor ((d + 2 ^ 32 - s) % 2 ^ 32) d)
    ∙ ap₂ min (bit-xor k d s) (bit-xor k ((d + 2 ^ 32 - s) % 2 ^ 32) d)

abbrev difference_fits : ℕ → ℕ → ℕ → Bool
difference_fits bits d s = in_range bits (signed bits d -ℤ signed bits s)

sub_overflow8 :
    (d s : ℕ) → d < 256 → s < 256 → sub_sign 7 d s ≡ to_bit (not (difference_fits 8 d s))
unfolding ◌-ℤ◌
sub_overflow8 d s hd hs = sub_sign-bits 7 d s ∙ ground arith

sub_overflow16 :
    (d s : ℕ) → d < 65536 → s < 65536 → sub_sign 15 d s ≡ to_bit (not (difference_fits 16 d s))
unfolding ◌-ℤ◌
sub_overflow16 d s hd hs = sub_sign-bits 15 d s ∙ ground arith

sub_overflow32 :
    (d s : ℕ) → d < 2 ^ 32 → s < 2 ^ 32 → sub_sign 31 d s ≡ to_bit (not (difference_fits 32 d s))
unfolding ◌-ℤ◌
sub_overflow32 d s hd hs = sub_sign-bits 31 d s ∙ ground arith

-- Signed overflow of a difference, from the sign bits of `d ^ s` and of the result `^ d`.
pub sub_overflow :
    (d s : ℕ) {width : ℕ}
    → IsWidth width
    → d < 256 ^ width
    → s < 256 ^ width
    → sign_bit width (c_and (c_xor d s) (c_xor (c_sub d s) d))
      ≡ to_bit (not (in_range (width * 8) (signed (width * 8) d -ℤ signed (width * 8) s)))
unfolding c_and c_xor c_sub
sub_overflow d s (inl e) hd hs = rw e (sub_overflow8 d s (rw e at hd) (rw e at hs))
sub_overflow d s (inr (inl e)) hd hs = rw e (sub_overflow16 d s (rw e at hd) (rw e at hs))
sub_overflow d s (inr (inr e)) hd hs = rw e (sub_overflow32 d s (rw e at hd) (rw e at hs))

-- A value of a width is a 32-bit value.
pub width-lt : (x : ℕ) {width : ℕ} → IsWidth width → x < 256 ^ width → x < 2 ^ 32
width-lt x (inl e) h = let k : x < 256 = rw e at h in omega arith
width-lt x (inr (inl e)) h = let k : x < 65536 = rw e at h in omega arith
width-lt x (inr (inr e)) h = let k : x < 4294967296 = rw e at h in omega arith

-- Comparing the difference with the minuend finds the borrow.
pub sub_carry : (d s : ℕ) → d < 2 ^ 32 → s < 2 ^ 32 → ltb d (c_sub d s) ≡ ltb d s
unfolding c_sub
sub_carry d s hd hs = ground arith

-- Comparing a 32-bit sum with an addend finds the carry.
pub add_carry : (d s : ℕ) → d < 2 ^ 32 → s < 2 ^ 32 → ltb (c_add d s) d ≡ leb (2 ^ 32) (d + s)
unfolding c_add
add_carry d s hd hs = ground arith

pub c_add-lt : (a b : ℕ) → c_add a b < 2 ^ 32
unfolding c_add
c_add-lt a b = omega arith

pub c_sub-lt : (a b : ℕ) → c_sub a b < 2 ^ 32
unfolding c_sub
c_sub-lt a b = omega arith

-- A difference is zero modulo its width when the operands are equal.
pub sub_zero :
    (d s : ℕ) {width : ℕ}
    → IsWidth width
    → d < 256 ^ width
    → s < 256 ^ width
    → (c_sub d s % 256 ^ width == 0) ≡ (d == s)
unfolding c_sub
sub_zero d s (inl e) hd hs =
    let a : d < 256 = rw e at hd in let b : s < 256 = rw e at hs in rw e (ground arith)
sub_zero d s (inr (inl e)) hd hs =
    let a : d < 65536 = rw e at hd in let b : s < 65536 = rw e at hs in rw e (ground arith)
sub_zero d s (inr (inr e)) hd hs =
    let a : d < 2 ^ 32 = rw e at hd in let b : s < 2 ^ 32 = rw e at hs in rw e (ground arith)

pub flag_of-to_bit : (b : Bool) → flag_of (to_bit b) ≡ to_bit b
flag_of-to_bit true = refl
flag_of-to_bit false = refl

pub add_mod :
    (d s : ℕ) {width : ℕ} → IsWidth width → c_add d s % 256 ^ width ≡ (d + s) % 256 ^ width
unfolding c_add
add_mod d s (inl e) = rw e (omega arith)
add_mod d s (inr (inl e)) = rw e (omega arith)
add_mod d s (inr (inr e)) = rw e (omega arith)

pub sub_mod :
    (d s : ℕ) {width : ℕ}
    → IsWidth width
    → s < 256 ^ width
    → c_sub d s % 256 ^ width ≡ (d + 256 ^ width - s) % 256 ^ width
unfolding c_sub
sub_mod d s (inl e) h = let k : s < 256 = rw e at h in rw e (omega arith)
sub_mod d s (inr (inl e)) h = let k : s < 65536 = rw e at h in rw e (omega arith)
sub_mod d s (inr (inr e)) h = let k : s < 2 ^ 32 = rw e at h in rw e (omega arith)

pub pattern_of-lt : (z : ℤ) → pattern_of 32 z < 2 ^ 32
unfolding pattern_of
pattern_of-lt (pos n) = omega arith
pattern_of-lt (negsuc n) = omega arith
