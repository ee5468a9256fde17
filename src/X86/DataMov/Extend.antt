-- ===== src/X86/DataMov/Extend.antt =====
-- Sign and zero extension: `rtl_sext` of nemu/include/rtl/rtl.h, `movsx` and `movzx`.
use ics.Base.{
  ℕ, ◌+◌, ◌*◌, ◌/◌, ◌%◌, ◌^◌, ◌<◌, ◌≡◌, refl, ◌∙◌, ap, inl, inr, some, arith, ◌==◌, if◌then◌else◌,
  bit, bit_and, bit_or, bit_or-field, bit_and_mask, zero-bit_or, ones-bit_or, mask-bit_and, field,
  signed, pattern_of, Ends, ends, step,
}
use ics.Machine.{Machine, Loc, id_src}
use ics.Rtl.{rtl_sext, rtl_steps, shr_sign}
use ics.Rtl.Op.{c_shr}
use ics.X86.Reg.Views.{IsWidth}
use ics.X86.Flags.Values.{sign_bit, pattern_of-lt}
use ics.X86.Operands.Write.{Writable, holds, operand_write-holds}
use ics.X86.DataMov.{exec_movsx, widen_dest}

-- The low `width` bytes as a signed integer, in 32 bits.
abbrev pub sign_extended : ℕ → ℕ → ℕ
sign_extended width x = pattern_of 32 (signed (width * 8) (x % 256 ^ width))

-- Ones above the low `k` bits.
high8 : (x : ℕ) → x < 2 ^ 32 → bit_or 0xFFFFFF00 x ≡ 0xFFFFFF00 + x % 256
high8 x h =
    let e : x ≡ field 8 (x / 256) (x % 256) = omega arith in
    ap (bit_or 0xFFFFFF00) e
    ∙ bit_or-field 8 0xFFFFFF 0 (x / 256) (x % 256) (omega arith) (omega arith)
    ∙ rw (ones-bit_or 24 (x / 256) (omega arith), zero-bit_or (x % 256)) refl

high16 : (x : ℕ) → x < 2 ^ 32 → bit_or 0xFFFF0000 x ≡ 0xFFFF0000 + x % 65536
high16 x h =
    let e : x ≡ field 16 (x / 65536) (x % 65536) = omega arith in
    ap (bit_or 0xFFFF0000) e
    ∙ bit_or-field 16 0xFFFF 0 (x / 65536) (x % 65536) (omega arith) (omega arith)
    ∙ rw (ones-bit_or 16 (x / 65536) (omega arith), zero-bit_or (x % 65536)) refl

pub extend8 :
    (x : ℕ)
    → x < 2 ^ 32
    → (if bit 7 x == 0 then bit_and 0xFF x else bit_or 0xFFFFFF00 x) ≡ sign_extended 1 x
unfolding pattern_of
extend8 x h = rw (mask-bit_and 8 x, high8 x h) (ground arith)

extend16 :
    (x : ℕ)
    → x < 2 ^ 32
    → (if bit 15 x == 0 then bit_and 0xFFFF x else bit_or 0xFFFF0000 x) ≡ sign_extended 2 x
unfolding pattern_of
extend16 x h = rw (mask-bit_and 16 x, high16 x h) (ground arith)

extend32 :
    (x : ℕ)
    → x < 2 ^ 32
    → (if bit 31 x == 0 then bit_and 0xFFFFFFFF x else bit_or 0 x) ≡ sign_extended 4 x
unfolding pattern_of
extend32 x h = rw (mask-bit_and 32 x, zero-bit_or x) (ground arith)

-- The sign bit that `rtl_sext` leaves in `t0`, and its result.
sext_step :
    (m : Machine) {width : ℕ}
    → IsWidth width
    → m.decinfo.src.val < 2 ^ 32
    → rtl_sext Loc.s0 (Loc.val id_src) width m
      ≡ some (
        tt,
        record m {
          s0 = sign_extended width m.decinfo.src.val;
          t0 = sign_bit width m.decinfo.src.val;
        },
      )
unfolding rtl_sext rtl_steps c_shr shr_sign
sext_step m (inl e) h =
    let x = m.decinfo.src.val in rw e (rw (bit_and_mask 1 (x / 2 ^ 7), extend8 x h) refl)
sext_step m (inr (inl e)) h =
    let x = m.decinfo.src.val in rw e (rw (bit_and_mask 1 (x / 2 ^ 15), extend16 x h) refl)
sext_step m (inr (inr e)) h =
    let x = m.decinfo.src.val in rw e (rw (bit_and_mask 1 (x / 2 ^ 31), extend32 x h) refl)

-- The destination of `movsx` and `movzx`: 16 bits with an operand size prefix, else 32.
abbrev pub wide : Machine → ℕ
wide m = if m.decinfo.is_operand_size_16 then 2 else 4

-- On a destination that can be written once it has the width that `movsx` gives it, and a 32-bit
-- source value of width 1, 2 or 4, `movsx` returns, the destination holds the source's low
-- bytes as a signed integer (modulo the destination's width), and flags, program counter and run
-- state stay.
pub movsx-sign_extended :
    (m : Machine)
    → Writable (widen_dest m)
    → IsWidth m.decinfo.src.width
    → m.decinfo.src.val < 2 ^ 32
    → Ends
        (λ m'.
          (holds (widen_dest m).decinfo.dest m'
            ≡ some (sign_extended m.decinfo.src.width m.decinfo.src.val % 256 ^ wide m))
          × (m'.cpu.eflags ≡ m.cpu.eflags)
          × (m'.cpu.pc ≡ m.cpu.pc)
          × (m'.nemu_state ≡ m.nemu_state))
        (exec_movsx m)
unfolding exec_movsx widen_dest rtl_steps
movsx-sign_extended m can w h =
    let x = m.decinfo.src.val in
    let m0 = widen_dest m in
    let m1 : Machine = record m0 {
      s0 = sign_extended m.decinfo.src.width x;
      t0 = sign_bit m.decinfo.src.width x;
    } in
    let (gpr, bus, wrote, is, still) =
      operand_write-holds Loc.s0 m1 can
        (pattern_of-lt (signed (m.decinfo.src.width * 8) (x % 256 ^ m.decinfo.src.width))) in
    step _ (sext_step m0 w h) (rw wrote (ends (is, refl, refl, refl)))
