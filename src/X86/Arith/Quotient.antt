-- ===== src/X86/Arith/Quotient.antt =====
-- What `div` leaves in the accumulator.
use ics.Base.{
  ℕ, ◌+◌, ◌*◌, ◌/◌, ◌%◌, ◌^◌, ◌<◌, ◌≤◌, ◌≡◌, refl, false, sym, ◌∙◌, arith, bit_or-field,
  bit_or-zero, zero-bit_or, field, bit_or, ap, ◌==◌, Ends, ends,
}
use native.Mathlib.Nat.{mod-lt, mod-eq_of_lt, div-add-mod', div-lt_iff_lt-mul, mul-le-mul_right}
use ics.Machine.{Machine}
use ics.Rtl.{rtl_steps}
use ics.Rtl.Op.{div64_q, div64_r, dividend64}
use ics.X86.Reg.{rtl_lr, rtl_sr, read_reg, write_reg, check_reg_index, r_eax, r_edx}
use ics.X86.Arith.{exec_div, width_of}
use ics.X86.Reg.Views.{AreWords}

-- A 64-bit dividend divided by `d`: the quotient in EAX and the remainder in EDX.
pub record Divided (m : Machine) (d : ℕ) (m' : Machine) : Type 0 where
  pub total : m.cpu.gpr r_edx * 2 ^ 32 + m.cpu.gpr r_eax ≡ m'.cpu.gpr r_eax * d + m'.cpu.gpr r_edx
  pub small : m'.cpu.gpr r_edx < d
  pub others : (i : ℕ) → 3 ≤ i → m'.cpu.gpr i ≡ m.cpu.gpr i
  pub eflags : m'.cpu.eflags ≡ m.cpu.eflags
  pub pc : m'.cpu.pc ≡ m.cpu.pc
  pub bus : m'.bus ≡ m.bus

dividend64_sum : (hi lo : ℕ) → lo < 2 ^ 32 → dividend64 hi lo ≡ hi * 2 ^ 32 + lo
unfolding dividend64
dividend64_sum hi lo h =
    let high : hi * 2 ^ 32 ≡ field 32 hi 0 = omega arith in
    let low : lo ≡ field 32 0 lo = omega arith in
    ap (λ x. bit_or x lo) high
    ∙ ap (bit_or (field 32 hi 0)) low
    ∙ bit_or-field 32 hi 0 0 lo (omega arith) h
    ∙ rw (bit_or-zero hi, zero-bit_or lo) refl

quotient-lt : (hi lo b : ℕ) → lo < 2 ^ 32 → hi < b → (hi * 2 ^ 32 + lo) / b < 2 ^ 32
quotient-lt hi lo b h k =
    let bound : (hi + 1) * 2 ^ 32 ≤ b * 2 ^ 32 = mul-le-mul_right (2 ^ 32) (omega arith) in
    (div-lt_iff_lt-mul (omega arith)).1 (omega (arith, bound))

-- The dividend from the quotient and the remainder that are stored.
total_lem :
    (hi lo b : ℕ)
    → lo < 2 ^ 32
    → hi < b
    → hi * 2 ^ 32 + lo ≡ dividend64 hi lo / b % 2 ^ 32 * b + dividend64 hi lo % b
total_lem hi lo b h k =
    rw (dividend64_sum hi lo h, mod-eq_of_lt (quotient-lt hi lo b h k))
      (sym (div-add-mod' (hi * 2 ^ 32 + lo) b))

-- On 32-bit registers and a 32-bit operand of width 4 that is larger than EDX, `div` returns; the
-- dividend EDX:EAX is the operand times the new EAX plus the new EDX, which is smaller than the operand. EBX and
-- the registers after it, the flags, the program counter and the bus stay.
pub div-Divided :
    (m : Machine)
    → AreWords m.cpu.gpr
    → m.decinfo.dest.width ≡ 4
    → m.cpu.gpr r_edx < m.decinfo.dest.val
    → m.decinfo.dest.val < 2 ^ 32
    → Ends (Divided m m.decinfo.dest.val) (exec_div m)
unfolding exec_div rtl_steps rtl_lr rtl_sr read_reg write_reg check_reg_index width_of div64_q
    div64_r
div-Divided m words e h k =
    let nonzero : (m.decinfo.dest.val == 0) ≡ false = ground arith in
    rw (e, nonzero, nonzero)
      (ends record {
        total = total_lem (m.cpu.gpr r_edx) (m.cpu.gpr r_eax) m.decinfo.dest.val (words r_eax) h;
        small = mod-lt (dividend64 (m.cpu.gpr r_edx) (m.cpu.gpr r_eax)) (omega arith);
        others = λ i k. ground arith;
        eflags = refl;
        pc = refl;
        bus = refl;
      })
