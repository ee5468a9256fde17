-- ===== src/Tests/Image.antt =====
-- The built-in image, from the start of NEMU to its nemu_trap.
use ics.Base.{Option, none, some, [], bind, ◌≡◌, refl, pattern_of}
use ics.Bus.Host.{memcpy, load32, len_mask}
use ics.Bus.Map.{find_map}
use ics.Bus.Memory.{paddr_read, paddr_write, isa_vaddr_read, isa_vaddr_write}
use ics.Cpu.{exec_once, instr_fetch}
use ics.Machine.{NemuState, nemu_end, get, put, set_operand}
use ics.Monitor.Boot.{init_monitor}
use ics.Monitor.Run.{Setup, cpu_exec}
use ics.Tests.Debugger.{unready}
use ics.Tests.Execution.{setup}
use ics.Rtl.Op.{c_add, c_shl}
use ics.X86.DataMov.{exec_mov}
use ics.X86.Decode.{decode_op_r, decode_op_i, read_modr_m}
use ics.X86.Decode.Helpers.{decode_mov_i2r, decode_mov_g2e, decode_mov_i2e}
use ics.X86.Operands.{operand_write}
use ics.X86.System.{exec_nemu_trap}
use ics.X86.Exec.{isa_exec}
use ics.X86.Reg.{read_reg, write_reg}

abbrev machine_setup : Setup
machine_setup = record setup { isa_exec = isa_exec 2 }

abbrev final : Option NemuState
final =
    bind (init_monitor none [] 5 (λ i. i) unready)
      (λ s. bind (cpu_exec machine_setup 20 s) (λ t. some (t.machine.nemu_state)))

-- The image's eight instructions end in a good trap.
good_trap : final ≡ some (record { state = nemu_end; halt_pc = 0x100026; halt_ret = 0 })
unfolding init_monitor cpu_exec exec_once isa_exec memcpy load32 len_mask find_map paddr_read
    paddr_write isa_vaddr_read isa_vaddr_write read_reg write_reg instr_fetch get decode_mov_i2r
    decode_op_r decode_op_i set_operand put exec_mov operand_write decode_mov_g2e read_modr_m c_add
    decode_mov_i2e pattern_of c_shl exec_nemu_trap
good_trap = refl
