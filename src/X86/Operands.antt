-- ===== src/X86/Operands.antt =====
-- `operand_write` of nemu/src/isa/x86/decode/decode.c.
pub mod Write
use ics.Base.{ℕ, some, Option, abort, bind}
use ics.Machine.{
  Machine, OperandId, Operand, OpType, op_type_reg, op_type_mem, op_type_imm, operand, Loc, get,
}
use ics.Rtl.{Rtl, rtl_sm}
use ics.X86.Reg.{rtl_sr}

abbrev pub write_as : OpType → OperandId → Operand → Loc → Rtl
write_as op_type_reg id op src = rtl_sr op.word src op.width
write_as op_type_mem id op src = rtl_sm (Loc.addr id) src op.width
write_as op_type_imm id op src = abort

unfoldable pub operand_write : OperandId → Loc → Rtl
unfolding operand get rtl_sr rtl_sm
operand_write id src m = write_as (operand id m).type id (operand id m) src m
