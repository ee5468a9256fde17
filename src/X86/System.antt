-- ===== src/X86/System.antt =====
-- Port input and output, and the special instructions: nemu/src/isa/x86/exec/system.c and
-- special.c.
use ics.Base.{ℕ, ◌-◌, ◌%◌, ◌^◌, ◌==◌, if◌then◌else◌, ◌>>=◌, ◌>>◌, skip, abort, modify}
use ics.Bus.Map.{pio_read_common, pio_write_common}
use ics.Machine.{id_dest, Loc, put, on_bus, interpret_rtl_exit, nemu_abort, nemu_end}
use ics.Rtl.{Rtl}
use ics.Cpu.{instr_fetch}
use ics.X86.Reg.{r_eax}
use ics.X86.Operands.{operand_write}
use ics.X86.Arith.{s0, width_of}

-- TODOs, which panic.
unfoldable pub exec_lidt : Rtl
exec_lidt = abort

unfoldable pub exec_mov_r2cr : Rtl
exec_mov_r2cr = abort

unfoldable pub exec_mov_cr2r : Rtl
exec_mov_cr2r = abort

unfoldable pub exec_int : Rtl
exec_int = abort

unfoldable pub exec_iret : Rtl
exec_iret = abort

-- The length of the `pio_read_b`, `_w` or `_l` that a width selects.
abbrev port_len : ℕ → ℕ
port_len w = if w == 1 then 1 else if w == 2 then 2 else 4

-- `ioaddr_t` keeps 16 bits of the port's number.
unfoldable pub exec_in : Rtl
unfolding width_of
exec_in = do
  w ← width_of id_dest
  v ← λ m. on_bus (pio_read_common (m.decinfo.src.val % 2 ^ 16) (port_len w)) m
  modify λ m. record m { s0 = v }
  operand_write id_dest s0

unfoldable pub exec_out : Rtl
unfolding width_of
exec_out = do
  w ← width_of id_dest
  λ m. on_bus (pio_write_common (m.decinfo.dest.val % 2 ^ 16) m.decinfo.src.val (port_len w)) m

unfoldable pub exec_nop : Rtl
exec_nop = skip

-- Two words are fetched for the message; then the emulator aborts with -1.
unfoldable pub exec_inv : Rtl
unfolding put interpret_rtl_exit
exec_inv = do
  modify λ m. put Loc.seq_pc m.cpu.pc m
  instr_fetch Loc.seq_pc 4
  instr_fetch Loc.seq_pc 4
  modify λ m. interpret_rtl_exit nemu_abort m.cpu.pc (2 ^ 32 - 1) m

unfoldable pub exec_nemu_trap : Rtl
unfolding interpret_rtl_exit
exec_nemu_trap = modify λ m. interpret_rtl_exit nemu_end m.cpu.pc (m.cpu.gpr r_eax) m
