-- ===== src/X86/Arith.antt =====
-- The arithmetic instructions: nemu/src/isa/x86/exec/arith.c. The assembly text that a DEBUG build
-- prints is left out.
pub mod Compare
pub mod ValueAsWidth
pub mod Sum
pub mod Quotient
pub mod Product
use ics.Base.{ℕ, ◌==◌, if◌then◌else◌, ◌>>=◌, ◌>>◌, skip, abort, from_option, Cmd, some}
use ics.Bus.Host.{len_mask}
use ics.Machine.{Machine, OperandId, id_src, id_src2, id_dest, operand, Loc}
use ics.Rtl.{
  Rtl, rtl_steps, rtl_li, rtl_add, rtl_sub, rtl_or, rtl_andi, rtl_shli, rtl_shri, rtl_sext,
  rtl_mul_lo, rtl_mul_hi, rtl_imul_lo, rtl_imul_hi, rtl_div_q, rtl_div_r, rtl_idiv_q, rtl_idiv_r,
  rtl_div64_q, rtl_div64_r, rtl_idiv64_q, rtl_idiv64_r,
}
use ics.X86.Reg.{r_eax, r_edx, r_ah, rtl_lr, rtl_sr}
use ics.X86.Flags.{
  rtl_is_add_carry, rtl_is_add_overflow, rtl_is_sub_carry, rtl_is_sub_overflow, rtl_set_cf,
  rtl_set_of, rtl_get_cf, rtl_update_zfsf,
}
use ics.X86.Operands.{operand_write}

abbrev pub s0 : Loc
s0 = Loc.s0

abbrev pub s1 : Loc
s1 = Loc.s1

abbrev pub dest : Loc
dest = Loc.val id_dest

abbrev pub src : Loc
src = Loc.val id_src

abbrev pub src2 : Loc
src2 = Loc.val id_src2

-- `id->width`, read where it is used.
unfoldable pub width_of : OperandId → Cmd Machine ℕ
unfolding operand
width_of id m = some ((operand id m).width, m)

unfoldable pub exec_add : Rtl
unfolding rtl_steps width_of
exec_add = do
  rtl_add s0 dest src
  rtl_is_add_carry s1 s0 dest
  operand_write id_dest s0
  w ← width_of id_dest
  rtl_update_zfsf s0 w
  rtl_set_cf s1
  rtl_is_add_overflow s1 s0 dest src w
  rtl_set_of s1

unfoldable pub exec_sub : Rtl
unfolding rtl_steps width_of
exec_sub = do
  rtl_sub s0 dest src
  rtl_is_sub_carry s1 s0 dest
  operand_write id_dest s0
  w ← width_of id_dest
  rtl_update_zfsf s0 w
  rtl_set_cf s1
  rtl_is_sub_overflow s1 s0 dest src w
  rtl_set_of s1

unfoldable pub exec_cmp : Rtl
unfolding rtl_steps width_of
exec_cmp = do
  rtl_sub s0 dest src
  w ← width_of id_dest
  rtl_update_zfsf s0 w
  rtl_is_sub_carry s1 s0 dest
  rtl_set_cf s1
  rtl_is_sub_overflow s1 s0 dest src w
  rtl_set_of s1

-- `rtl_update_ZFSF` is given the operand's value where it takes a width.
unfoldable pub exec_inc : Rtl
unfolding rtl_steps width_of
exec_inc = do
  rtl_li Loc.ir 1
  rtl_add s0 dest Loc.ir
  operand_write id_dest s0
  v ← λ m. some (m.decinfo.dest.val, m)
  rtl_update_zfsf s0 v

unfoldable pub exec_dec : Rtl
unfolding rtl_steps width_of
exec_dec = do
  rtl_li Loc.ir 1
  rtl_sub s0 dest Loc.ir
  operand_write id_dest s0
  v ← λ m. some (m.decinfo.dest.val, m)
  rtl_update_zfsf s0 v

unfoldable pub exec_neg : Rtl
unfolding rtl_steps width_of
exec_neg = do rtl_li Loc.ir 0; rtl_sub s1 Loc.ir dest; operand_write id_dest s1

-- `rtl_andi(&s1, &s1, 0xffffffffu >> ((4 - width) * 8))` unless the width is 4.
abbrev narrow : ℕ → Rtl
narrow w = if w == 4 then skip else do mask ← from_option (len_mask w); rtl_andi s1 s1 mask

unfoldable pub exec_adc : Rtl
unfolding rtl_steps width_of
exec_adc = do
  rtl_add s0 dest src
  rtl_get_cf s1
  rtl_add s1 s0 s1
  operand_write id_dest s1
  w ← width_of id_dest
  narrow w
  rtl_update_zfsf s1 w
  rtl_is_add_carry s1 s1 s0
  rtl_is_add_carry s0 s0 dest
  rtl_or s0 s0 s1
  rtl_set_cf s0
  rtl_is_add_overflow s0 s1 dest src w
  rtl_set_of s0

unfoldable pub exec_sbb : Rtl
unfolding rtl_steps width_of
exec_sbb = do
  rtl_sub s0 dest src
  rtl_get_cf s1
  rtl_sub s1 s0 s1
  operand_write id_dest s1
  w ← width_of id_dest
  narrow w
  rtl_update_zfsf s1 w
  rtl_is_sub_carry s1 s1 s0
  rtl_is_sub_carry s0 s0 dest
  rtl_or s0 s0 s1
  rtl_set_cf s0
  rtl_is_sub_overflow s0 s1 dest src w
  rtl_set_of s0

-- A `switch` on the width, whose default is `assert(0)`.
abbrev pub switch_width : ℕ → Rtl → Rtl → Rtl → Rtl
switch_width w one two four =
    if w == 1 then one else if w == 2 then two else if w == 4 then four else abort

-- The 8- and 16-bit results go to AX and DX:AX.
abbrev store_product : Rtl
store_product = do rtl_sr r_eax s1 2; rtl_shri s1 s1 16; rtl_sr r_edx s1 2

unfoldable pub exec_mul : Rtl
unfolding rtl_steps width_of
exec_mul = do
  w ← width_of id_dest
  rtl_lr s0 r_eax w
  rtl_mul_lo s1 dest s0
  switch_width w (rtl_sr r_eax s1 2) store_product
      (do rtl_mul_hi s0 dest s0; rtl_sr r_edx s0 4; rtl_sr r_eax s1 4)

unfoldable pub exec_imul1 : Rtl
unfolding rtl_steps width_of
exec_imul1 = do
  w ← width_of id_dest
  rtl_lr s0 r_eax w
  rtl_imul_lo s1 dest s0
  switch_width w (rtl_sr r_eax s1 2) store_product
      (do rtl_imul_hi s0 dest s0; rtl_sr r_edx s0 4; rtl_sr r_eax s1 4)

unfoldable pub exec_imul2 : Rtl
unfolding rtl_steps width_of
exec_imul2 = do
  w ← width_of id_src
  rtl_sext s0 src w
  v ← width_of id_dest
  rtl_sext s1 dest v
  rtl_imul_lo s0 s1 s0
  operand_write id_dest s0

unfoldable pub exec_imul3 : Rtl
unfolding rtl_steps width_of
exec_imul3 = do
  w ← width_of id_src
  rtl_sext s0 src w
  rtl_sext s1 src2 w
  rtl_imul_lo s0 s1 s0
  operand_write id_dest s0

-- DX:AX in `s0`.
abbrev load_dividend : Rtl
load_dividend = do rtl_lr s0 r_eax 2; rtl_lr s1 r_edx 2; rtl_shli s1 s1 16; rtl_or s0 s0 s1

unfoldable pub exec_div : Rtl
unfolding rtl_steps width_of
exec_div = do
  w ← width_of id_dest
  switch_width w
      (do
        rtl_lr s0 r_eax 2
        rtl_div_q s1 s0 dest
        rtl_sr r_eax s1 1
        rtl_div_r s1 s0 dest
        rtl_sr r_ah s1 1)
      (do
        load_dividend
        rtl_div_q s1 s0 dest
        rtl_sr r_eax s1 2
        rtl_div_r s1 s0 dest
        rtl_sr r_edx s1 2)
      (do
        rtl_lr s0 r_eax 4
        rtl_lr s1 r_edx 4
        rtl_div64_q (Loc.gpr r_eax) s1 s0 dest
        rtl_div64_r (Loc.gpr r_edx) s1 s0 dest)

unfoldable pub exec_idiv : Rtl
unfolding rtl_steps width_of
exec_idiv = do
  w ← width_of id_dest
  switch_width w
      (do
        rtl_lr s0 r_eax 2
        rtl_idiv_q s1 s0 dest
        rtl_sr r_eax s1 1
        rtl_idiv_r s1 s0 dest
        rtl_sr r_ah s1 1)
      (do
        load_dividend
        rtl_idiv_q s1 s0 dest
        rtl_sr r_eax s1 2
        rtl_idiv_r s1 s0 dest
        rtl_sr r_edx s1 2)
      (do
        rtl_lr s0 r_eax 4
        rtl_lr s1 r_edx 4
        rtl_idiv64_q (Loc.gpr r_eax) s1 s0 dest
        rtl_idiv64_r (Loc.gpr r_edx) s1 s0 dest)
