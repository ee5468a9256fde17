-- ===== src/Risc.antt =====
-- What the two RISC instruction sets share: nemu/src/isa/riscv32 and nemu/src/isa/mips32 have the
-- same register file, the same operand helpers and the same execute helpers in files of their own,
-- so they are written once. A build has one instruction set; in a build of these two the eflags of
-- the machine and the x86 fields of `decinfo` do not exist, and nothing here reads or writes them.
-- `decinfo.isa.instr`, which `isa_exec` assigns before anything reads it, is an argument.
pub mod Reference
pub mod Fetch
pub mod Registers
pub mod ZeroRegister
pub mod Reachable
pub mod Table
use ics.Base.{
  ℕ, ◌+◌, ◌-◌, ◌/◌, ◌%◌, ◌^◌, ◌==◌, ltb, if◌then◌else◌, ◌||◌, Bool, ◌>>=◌, ◌>>◌, skip, modify,
  assert, abort,
}
use ics.Bus.{Bus}
use ics.Bus.Memory.{register_pmem}
use ics.Machine.{
  Machine, Loc, OperandId, operand, set_operand, op_type_imm, op_type_reg, id_src, id_src2, id_dest,
  interpret_rtl_exit, nemu_abort, nemu_end, get, put, set_gpr,
}
use ics.Cpu.{instr_fetch}
use ics.Rtl.{Rtl, rtl_li, rtl_mv, rtl_add, rtl_lm, rtl_sm}

-- The two's complement value of a bit field of `w` bits, as a word.
abbrev pub sign_field : ℕ → ℕ → ℕ
sign_field w x = if ltb x (2 ^ (w - 1)) then x else x + 2 ^ 32 - 2 ^ w

-- `&reg_l(index)`, whose index is asserted.
abbrev pub reg_l : ℕ → (Loc → Rtl) → Rtl
reg_l index use_it = if ltb index 32 then use_it (Loc.gpr index) else abort

unfoldable pub rtl_lr : Loc → ℕ → Rtl
unfolding rtl_li rtl_mv
rtl_lr dest r = if r == 0 then rtl_li dest 0 else reg_l r (λ l. rtl_mv dest l)

unfoldable pub rtl_sr : ℕ → Loc → Rtl
unfolding rtl_mv
rtl_sr r src1 = if r == 0 then skip else reg_l r (λ l. rtl_mv l src1)

unfoldable pub decode_op_i : OperandId → ℕ → Rtl
unfolding rtl_li operand set_operand
decode_op_i id imm = do
  modify λ m. set_operand id (record (operand id m) { type = op_type_imm; word = imm }) m
  rtl_li (Loc.val id) imm

unfoldable pub decode_op_r : OperandId → ℕ → Bool → Rtl
unfolding operand set_operand
decode_op_r id reg load_val = do
  modify λ m. set_operand id (record (operand id m) { type = op_type_reg; word = reg }) m
  if load_val then rtl_lr (Loc.val id) reg else skip

-- The register number in an operand.
abbrev pub reg_of : OperandId → (ℕ → Rtl) → Rtl
reg_of id run m = run (operand id m).word m

-- The `switch` on the width names the instruction, and aborts on a width other than 1, 2 and 4.
abbrev pub assert_width : Rtl
assert_width m = assert (m.decinfo.width == 4 || m.decinfo.width == 2 || m.decinfo.width == 1) m

unfoldable pub exec_ld : Rtl
unfolding operand
exec_ld = do
  λ m. rtl_lm Loc.s0 (Loc.addr id_src) m.decinfo.width m
  reg_of id_dest (λ r. rtl_sr r Loc.s0)
  assert_width

unfoldable pub exec_st : Rtl
exec_st = do λ m. rtl_sm (Loc.addr id_src) (Loc.val id_dest) m.decinfo.width m; assert_width

-- Two words are fetched for the message; then the emulator aborts with -1.
unfoldable pub exec_inv : Rtl
unfolding put interpret_rtl_exit
exec_inv = do
  modify λ m. put Loc.seq_pc m.cpu.pc m
  instr_fetch Loc.seq_pc 4
  instr_fetch Loc.seq_pc 4
  modify λ m. interpret_rtl_exit nemu_abort m.cpu.pc (2 ^ 32 - 1) m

-- `nemu_trap`, with the number of the register that holds the answer.
unfoldable pub trap : ℕ → Rtl
unfolding interpret_rtl_exit
trap r = modify λ m. interpret_rtl_exit nemu_end m.cpu.pc (m.cpu.gpr r) m

abbrev pub pc_start : ℕ
pc_start = 0x80000000 + 0x100000

unfoldable pub restart : Rtl
restart =
    modify λ m. record m { cpu = record (m.cpu) { pc = pc_start; gpr = set_gpr m.cpu.gpr 0 0 } }

unfoldable pub init_isa : Rtl
unfolding restart register_pmem
init_isa = do modify λ m. record m { bus = register_pmem 0x80000000 m.bus }; restart
