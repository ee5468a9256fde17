-- ===== src/Machine.antt =====
-- The state that one instruction reads and writes: `cpu`, the RTL temporaries and `decinfo`
-- (nemu/src/cpu/cpu.c, nemu/include/cpu/decode.h, nemu/src/isa/x86/include/isa/reg.h),
-- `nemu_state` (nemu/include/monitor/monitor.h) and the bus.
use ics.Base.{ℕ, Bool, some, ◌==◌, if◌then◌else◌, Cmd, bind}
use ics.Bus.{Bus}

-- `struct Eflags`: the one-bit fields and the runs of bits between them.
pub record Eflags : Type 0 where
  pub cf : ℕ
  pub not_concerned1 : ℕ
  pub pf : ℕ
  pub not_concerned2 : ℕ
  pub af : ℕ
  pub not_concerned3 : ℕ
  pub zf : ℕ
  pub sf : ℕ
  pub not_concerned4 : ℕ
  pub of : ℕ
  pub not_concerned : ℕ

-- `CPU_state`: `gpr i` is the 32-bit value of the union `gpr[i]`, for i below 8; `eax` to `edi` name
-- the same eight words.
pub record CpuState : Type 0 where
  pub gpr : ℕ → ℕ
  pub pc : ℕ
  pub eflags : Eflags

pub data OpType : Type 0 where
  op_type_reg op_type_mem op_type_imm : OpType

-- `Operand`, less `str`, which only a DEBUG build fills. The union of `reg`, `addr`, `imm` and
-- `simm` is one 32-bit word.
pub record Operand : Type 0 where
  pub type : OpType
  pub width : ℕ
  pub word : ℕ
  pub val : ℕ

-- `DecodeInfo`, with the two fields of `ISADecodeInfo`.
pub record DecodeInfo : Type 0 where
  pub opcode : ℕ
  pub width : ℕ
  pub seq_pc : ℕ
  pub is_jmp : Bool
  pub jmp_pc : ℕ
  pub src : Operand
  pub dest : Operand
  pub src2 : Operand
  pub is_operand_size_16 : Bool
  pub ext_opcode : ℕ

pub data RunState : Type 0 where
  nemu_stop nemu_running nemu_end nemu_abort : RunState

pub record NemuState : Type 0 where
  pub state : RunState
  pub halt_pc : ℕ
  pub halt_ret : ℕ

pub record Machine : Type 0 where
  pub cpu : CpuState
  pub s0 : ℕ
  pub s1 : ℕ
  pub s2 : ℕ
  pub t0 : ℕ
  pub t1 : ℕ
  pub ir : ℕ
  pub decinfo : DecodeInfo
  pub nemu_state : NemuState
  pub bus : Bus

-- `id_src`, `id_src2` and `id_dest`.
pub data OperandId : Type 0 where
  id_src id_src2 id_dest : OperandId

-- The `rtlreg_t` variables whose addresses RTL instructions are given.
pub data Loc : Type 0 where
  s0 s1 s2 t0 t1 ir : Loc
  seq_pc jmp_pc : Loc
  gpr : ℕ → Loc
  val addr : OperandId → Loc

unfoldable pub operand : OperandId → Machine → Operand
operand id_src m = m.decinfo.src
operand id_src2 m = m.decinfo.src2
operand id_dest m = m.decinfo.dest

unfoldable pub set_operand : OperandId → Operand → Machine → Machine
set_operand id_src o m = record m { decinfo = record (m.decinfo) { src = o } }
set_operand id_src2 o m = record m { decinfo = record (m.decinfo) { src2 = o } }
set_operand id_dest o m = record m { decinfo = record (m.decinfo) { dest = o } }

unfoldable pub get : Loc → Machine → ℕ
unfolding operand
get Loc.s0 m = m.s0
get Loc.s1 m = m.s1
get Loc.s2 m = m.s2
get Loc.t0 m = m.t0
get Loc.t1 m = m.t1
get Loc.ir m = m.ir
get Loc.seq_pc m = m.decinfo.seq_pc
get Loc.jmp_pc m = m.decinfo.jmp_pc
get (Loc.gpr i) m = m.cpu.gpr i
get (Loc.val id) m = (operand id m).val
get (Loc.addr id) m = (operand id m).word

abbrev pub set_gpr : (ℕ → ℕ) → ℕ → ℕ → ℕ → ℕ
set_gpr g i v j = if j == i then v else g j

unfoldable pub put : Loc → ℕ → Machine → Machine
unfolding operand set_operand
put Loc.s0 v m = record m { s0 = v }
put Loc.s1 v m = record m { s1 = v }
put Loc.s2 v m = record m { s2 = v }
put Loc.t0 v m = record m { t0 = v }
put Loc.t1 v m = record m { t1 = v }
put Loc.ir v m = record m { ir = v }
put Loc.seq_pc v m = record m { decinfo = record (m.decinfo) { seq_pc = v } }
put Loc.jmp_pc v m = record m { decinfo = record (m.decinfo) { jmp_pc = v } }
put (Loc.gpr i) v m = record m { cpu = record (m.cpu) { gpr = set_gpr m.cpu.gpr i v } }
put (Loc.val id) v m = set_operand id (record (operand id m) { val = v }) m
put (Loc.addr id) v m = set_operand id (record (operand id m) { word = v }) m

-- A bus access of the machine.
abbrev pub on_bus : {A : Type 0} → Cmd Bus A → Cmd Machine A
on_bus access m = bind (access m.bus) (λ (a, b). some (a, record m { bus = b }))

-- `interpret_rtl_exit`.
unfoldable pub interpret_rtl_exit : RunState → ℕ → ℕ → Machine → Machine
interpret_rtl_exit state halt_pc halt_ret m = record m {
  nemu_state = record { state = state; halt_pc = halt_pc; halt_ret = halt_ret };
}
