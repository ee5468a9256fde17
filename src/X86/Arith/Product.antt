-- ===== src/X86/Arith/Product.antt =====
-- What `mul` leaves in the accumulator.
use ics.Base.{ℕ, ◌+◌, ◌*◌, ◌^◌, ◌<◌, ◌≤◌, ◌≡◌, refl, arith, Ends, ends}
use native.Mathlib.Nat.{mul-le-mul}
use ics.Machine.{Machine}
use ics.Rtl.{rtl_steps}
use ics.Rtl.Op.{c_mul_lo, c_mul_hi}
use ics.X86.Reg.{rtl_lr, rtl_sr, read_reg, write_reg, check_reg_index, r_eax, r_edx}
use ics.X86.Reg.Views.{AreWords}
use ics.X86.Arith.{exec_mul, width_of}

-- EDX:EAX holds a 64-bit product, and the other registers what they held.
pub record Product (m : Machine) (product : ℕ) (m' : Machine) : Type 0 where
  pub high_low : m'.cpu.gpr r_edx * 2 ^ 32 + m'.cpu.gpr r_eax ≡ product
  pub others : (i : ℕ) → 3 ≤ i → m'.cpu.gpr i ≡ m.cpu.gpr i
  pub eflags : m'.cpu.eflags ≡ m.cpu.eflags
  pub pc : m'.cpu.pc ≡ m.cpu.pc
  pub bus : m'.bus ≡ m.bus

high-low : (a b : ℕ) → a < 2 ^ 32 → b < 2 ^ 32 → c_mul_hi a b * 2 ^ 32 + c_mul_lo a b ≡ a * b
unfolding c_mul_hi c_mul_lo
high-low a b h k =
    let x : a ≤ 4294967295 = omega arith in
    let y : b ≤ 4294967295 = omega arith in
    let bound : a * b ≤ 18446744065119617025 = mul-le-mul x y in omega (arith, bound)

-- On 32-bit registers and a 32-bit operand of width 4, `mul` returns with the whole product of the operand
-- and EAX in EDX:EAX; EBX and the registers after it, the flags, the program counter
-- and the bus stay.
pub mul-Product :
    (m : Machine)
    → AreWords m.cpu.gpr
    → m.decinfo.dest.width ≡ 4
    → m.decinfo.dest.val < 2 ^ 32
    → Ends (Product m (m.decinfo.dest.val * m.cpu.gpr r_eax)) (exec_mul m)
unfolding exec_mul rtl_steps rtl_lr rtl_sr read_reg write_reg check_reg_index width_of
mul-Product m words e h = rw e (
    ends record {
      high_low = high-low m.decinfo.dest.val (m.cpu.gpr r_eax) h (words r_eax);
      others = λ i k. ground arith;
      eflags = refl;
      pc = refl;
      bus = refl;
    })
