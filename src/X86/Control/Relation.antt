-- ===== src/X86/Control/Relation.antt =====
-- The relations that `cmp` and a conditional jump decide together.
use ics.Base.{
  ℕ, ◌-◌, ◌*◌, ◌%◌, ◌^◌, ◌<◌, ◌≡◌, refl, inl, inr, arith, Bool, true, false, not, ◌||◌, ◌==◌, ltb,
  leb, to_bit, signed, ltb_ℤ, leb_ℤ, ◌-ℤ◌, bit, Ends, weaken, bit_and,
}
use mathlib.Core.Bool.{xor}
use ics.Machine.{Machine, DecodeInfo, Eflags}
use ics.Rtl.Op.{c_sub}
use ics.X86.Reg.Views.{IsWidth}
use ics.X86.Flags.Values.{sign_bit, in_range}
use ics.X86.Arith.{exec_cmp}
use ics.X86.Arith.Compare.{SubFlags, cmp-SubFlags}
use ics.X86.Control.{exec_jcc}
use ics.X86.Control.Branch.{Branched, jcc-cond}
use ics.X86.Cc.Conditions.{
  Cond, subcode, overflow, below, equal, below_or_equal, sign, less, less_or_equal, cond_holds,
  AreBits,
}

-- What each condition says of the compared values, of `bits` bits.
abbrev pub relation : Cond → ℕ → ℕ → ℕ → Bool
relation overflow bits d s = not (in_range bits (signed bits d -ℤ signed bits s))
relation below bits d s = ltb d s
relation equal bits d s = d == s
relation below_or_equal bits d s = leb d s
relation sign bits d s = leb (2 ^ (bits - 1)) (c_sub d s % 2 ^ bits)
relation less bits d s = ltb_ℤ (signed bits d) (signed bits s)
relation less_or_equal bits d s = leb_ℤ (signed bits d) (signed bits s)

-- The borrow of the sign against the overflow is the signed order.
abbrev SignedLess : ℕ → ℕ → ℕ → Type 0
SignedLess bits d s =
    xor (bit (bits - 1) (c_sub d s) == 1)
      (to_bit (not (in_range bits (signed bits d -ℤ signed bits s))) == 1)
    ≡ ltb_ℤ (signed bits d) (signed bits s)

less8 : (d s : ℕ) → d < 256 → s < 256 → SignedLess 8 d s
unfolding c_sub xor ◌-ℤ◌
less8 d s hd hs = ground arith

less32 : (d s : ℕ) → d < 2 ^ 32 → s < 2 ^ 32 → SignedLess 32 d s
unfolding c_sub xor ◌-ℤ◌
less32 d s hd hs = ground arith

less16 : (d s : ℕ) → d < 65536 → s < 65536 → SignedLess 16 d s
unfolding c_sub xor ◌-ℤ◌
less16 d s hd hs = ground arith

less-xor :
    (d s : ℕ) {width : ℕ}
    → IsWidth width
    → d < 256 ^ width
    → s < 256 ^ width
    → SignedLess (width * 8) d s
less-xor d s (inl e) hd hs = rw e (less8 d s (rw e at hd) (rw e at hs))
less-xor d s (inr (inl e)) hd hs = rw e (less16 d s (rw e at hd) (rw e at hs))
less-xor d s (inr (inr e)) hd hs = rw e (less32 d s (rw e at hd) (rw e at hs))

abbrev NotGreater : ℕ → ℕ → ℕ → Type 0
NotGreater bits d s =
    (ltb_ℤ (signed bits d) (signed bits s) || (d == s)) ≡ leb_ℤ (signed bits d) (signed bits s)

less-or-equal :
    (d s : ℕ) {width : ℕ}
    → IsWidth width
    → d < 256 ^ width
    → s < 256 ^ width
    → NotGreater (width * 8) d s
less-or-equal d s (inl e) hd hs =
    let a : d < 256 = rw e at hd in let b : s < 256 = rw e at hs in rw e (ground arith)
less-or-equal d s (inr (inl e)) hd hs =
    let a : d < 65536 = rw e at hd in let b : s < 65536 = rw e at hs in rw e (ground arith)
less-or-equal d s (inr (inr e)) hd hs =
    let a : d < 2 ^ 32 = rw e at hd in let b : s < 2 ^ 32 = rw e at hs in rw e (ground arith)

sign-bit_lem :
    (x : ℕ) {width : ℕ}
    → IsWidth width
    → (sign_bit width x == 1) ≡ leb (2 ^ (width * 8 - 1)) (x % 2 ^ (width * 8))
sign-bit_lem x (inl e) = rw e (ground arith)
sign-bit_lem x (inr (inl e)) = rw e (ground arith)
sign-bit_lem x (inr (inr e)) = rw e (ground arith)

bit-one : (b : Bool) → (to_bit b == 1) ≡ b
bit-one true = refl
bit-one false = refl

or-equal : (d s : ℕ) → ltb d s || (d == s) ≡ leb d s
or-equal d s = ground arith

pub cond_holds-relation :
    (c : Cond) {width d s : ℕ} {f : Eflags}
    → IsWidth width
    → d < 256 ^ width
    → s < 256 ^ width
    → SubFlags width d s f
    → cond_holds c f ≡ relation c (width * 8) d s
cond_holds-relation overflow w hd hs v = rw v.overflow (bit-one _)
cond_holds-relation below w hd hs v = rw v.carry (bit-one _)
cond_holds-relation equal w hd hs v = rw v.zero (bit-one _)
cond_holds-relation below_or_equal {d} {s} w hd hs v =
    rw (v.carry, v.zero, bit-one (ltb d s), bit-one (d == s)) (or-equal d s)
cond_holds-relation sign {d} {s} w hd hs v = rw v.sign (sign-bit_lem (c_sub d s) w)
cond_holds-relation less {d} {s} w hd hs v = rw (v.sign, v.overflow) (less-xor d s w hd hs)
cond_holds-relation less_or_equal {width} {d} {s} w hd hs v =
    rw (v.sign, v.overflow, less-xor d s w hd hs, v.zero, bit-one (d == s))
      (less-or-equal d s w hd hs)

to_bit-lt : (b : Bool) → to_bit b < 2
to_bit-lt true = omega arith
to_bit-lt false = omega arith

SubFlags-AreBits : {width d s : ℕ} {f : Eflags} → SubFlags width d s f → AreBits f
SubFlags-AreBits v = record {
  cf = rw v.carry (to_bit-lt _);
  zf = rw v.zero (to_bit-lt _);
  sf = rw v.sign (omega arith);
  of = rw v.overflow (to_bit-lt _);
}

-- `m` with another decoded instruction.
abbrev pub decoded : DecodeInfo → Machine → Machine
decoded next m = record m { decinfo = next }

-- A `cmp` of two values of the operand's width returns, and a `jcc` decoded after it, with any target
-- and the code of a condition other than parity (or of the negation of one), returns and is
-- taken exactly where the condition's relation holds (or does not hold) of the compared values:
-- `d` below `s` as numbers for CC_B, below as signed integers for CC_L, and so on.
pub cmp-jcc :
    (m : Machine) (next : DecodeInfo) (c : Cond) (negated : Bool)
    → IsWidth m.decinfo.dest.width
    → m.decinfo.dest.val < 256 ^ m.decinfo.dest.width
    → m.decinfo.src.val < 256 ^ m.decinfo.dest.width
    → bit_and next.opcode 0xf ≡ subcode c negated
    → Ends
        (λ m1.
          Ends
            (Branched
              (xor
                (relation c (m.decinfo.dest.width * 8) m.decinfo.dest.val m.decinfo.src.val)
                negated)
              (decoded next m1))
            (exec_jcc (decoded next m1)))
        (exec_cmp m)
cmp-jcc m next c negated w hd hs e = weaken (cmp-SubFlags m w hd hs) (λ m1 (v, same).
    rw⁻¹ (cond_holds-relation c w hd hs v)
      (jcc-cond (decoded next m1) c negated (SubFlags-AreBits v) e))
