-- ===== src/Tests/Risc.antt =====
-- The two RISC instruction sets at concrete machines.
use ics.Base.{
  ℕ, zero, suc, ◌+◌, ◌%◌, ◌^◌, ◌<◌, ◌≡◌, refl, Option, some, List, [], ◌∷◌, arith, ◌∙◌, bind, ◌==◌,
  if◌then◌else◌,
}
use ics.Bus.Host.{Bytes, memcpy, load32, len_mask, memcpy-IsBytes}
use ics.Bus.Memory.{register_pmem, paddr_read, paddr_write, isa_vaddr_read, isa_vaddr_write}
use ics.Bus.Memory.Access.{number-memcpy}
use ics.Cpu.{exec_once, instr_fetch, update_pc}
use ics.Machine.{
  Machine, NemuState, nemu_end, set_gpr, get, put, set_operand, operand, interpret_rtl_exit,
}
use ics.Rtl.{Rtl, rtl_steps, rtl_lm, rtl_sm, decinfo_set_jmp}
use ics.Rtl.Op.{c_add, c_shl}
use ics.Risc.{init_isa, restart, decode_op_i, decode_op_r, rtl_lr, rtl_sr, exec_ld, exec_st, trap}
use ics.Risc.Table.{entry_of, idex, set_entry_width}
use ics.Risc.Fetch.{IsCode}
use ics.Risc.Reachable.{riscv32, Reachable, start, Reachable-zero}
use ics.Risc.Reference.{lw, observed, cells}
use ics.Riscv32.Refine.{riscv_step, exec_once-riscv_step}
use ics.Mips32.Refine.{mips_step, exec_once-mips_step}
use ics.Riscv32.Decode.{decode_u, store_offset}
use ics.Riscv32.Decode as RiscvDecode
use ics.Mips32.Decode.{decode_iu, decode_addr}
use ics.Mips32.Decode as MipsDecode
use ics.Riscv32.Exec as Riscv32
use ics.Riscv32.Start as RiscvStart
use ics.Mips32.Exec as Mips32
use ics.Mips32.Start as MipsStart
use ics.Tests.{bus, machine, added}

-- Words in memory, from an offset on.
abbrev place_words : List ℕ → ℕ → Bytes → Bytes
place_words [] p mem = mem
place_words (w ∷ ws) p mem = place_words ws (p + 4) (memcpy mem p w 4)

abbrev loaded : List ℕ → Machine
loaded img = record (machine added) {
  bus = record bus { pmem = place_words img 0x100000 (λ i. i % 256) };
}

abbrev turns : Rtl → ℕ → Machine → Option Machine
turns isa_exec zero m = some m
turns isa_exec (suc n) m = bind (exec_once isa_exec m) (λ (pc, m'). turns isa_exec n m')

abbrev run_image : Rtl → List ℕ → Option NemuState
run_image isa_exec img =
    bind (init_isa (loaded img)) (λ (t, m). bind (turns isa_exec 4 m) (λ m'. some (m'.nemu_state)))

-- What a run of the images unfolds in both sets.
unfoldable image_steps : Unit {0}
unfolding init_isa exec_once instr_fetch isa_vaddr_read isa_vaddr_write paddr_read paddr_write get
    put len_mask load32 memcpy decode_op_i decode_op_r rtl_lr rtl_sr exec_ld exec_st rtl_steps
    rtl_lm rtl_sm operand set_operand c_add c_shl entry_of idex set_entry_width update_pc
    interpret_rtl_exit trap register_pmem restart decinfo_set_jmp
image_steps = tt

-- Both images end in a good trap.
riscv32_good_trap :
    run_image Riscv32.isa_exec RiscvStart.isa_default_img
    ≡ some (record { state = nemu_end; halt_pc = 0x8010000c; halt_ret = 0 })
unfolding image_steps Riscv32.isa_exec Riscv32.opcode_table Riscv32.load_table Riscv32.store_table
    Riscv32.exec_load Riscv32.exec_store Riscv32.exec_lui Riscv32.exec_nemu_trap decode_u
    RiscvDecode.decode_ld RiscvDecode.decode_st store_offset
riscv32_good_trap = refl

mips32_good_trap :
    run_image Mips32.isa_exec MipsStart.isa_default_img
    ≡ some (record { state = nemu_end; halt_pc = 0x8010000c; halt_ret = 0 })
unfolding image_steps Mips32.isa_exec Mips32.opcode_table Mips32.exec_lui Mips32.exec_nemu_trap
    decode_iu decode_addr MipsDecode.decode_ld MipsDecode.decode_st
mips32_good_trap = refl

-- `lw a0, -4(t0)` and `lw v0, -4(a0)` at 0x80100000.
abbrev at_load : ℕ → Machine
at_load w = record (machine added) {
  cpu = record ((machine added).cpu) {
    gpr = λ i. if i == 5 then 0x80100008 else if i == 4 then 0x80100008 else 0;
    pc = 0x80100000;
  };
  bus = record bus {
    pmem = memcpy (λ i. 0) 0x100000 w 4;
    pmem_low = 0x80000000;
    pmem_high = 0x87ffffff;
  };
}

at_load-IsCode : (w : ℕ) → w < 2 ^ 32 → IsCode (at_load w) w
at_load-IsCode w h = record {
  inside = omega arith;
  bytes = memcpy-IsBytes (λ i. 0) 0x100000 w 4 (λ q. omega arith);
  word = number-memcpy (λ i. 0) 0x100000 w 4 ∙ omega arith;
  is_jmp = refl;
}

exec_once-riscv_step_example :
    observed (exec_once Riscv32.isa_exec (at_load 0xffc2a503))
    ≡ riscv_step (lw 10 5 0xffc) (cells (at_load 0xffc2a503))
unfolding ics.Riscv32.Encoding.InRange ics.Riscv32.Encoding.encode
exec_once-riscv_step_example =
    exec_once-riscv_step (at_load 0xffc2a503) (lw 10 5 0xffc)
      (omega arith, omega arith, omega arith) (at_load-IsCode 0xffc2a503 (omega arith))

exec_once-mips_step_example :
    observed (exec_once Mips32.isa_exec (at_load 0x8c82fffc))
    ≡ mips_step (lw 2 4 0xfffc) (cells (at_load 0x8c82fffc))
unfolding ics.Mips32.Encoding.InRange ics.Mips32.Encoding.encode
exec_once-mips_step_example =
    exec_once-mips_step (at_load 0x8c82fffc) (lw 2 4 0xfffc) (omega arith, omega arith, omega arith)
      (at_load-IsCode 0x8c82fffc (omega arith))

abbrev began : Machine
began = record (loaded RiscvStart.isa_default_img) {
  cpu = record ((loaded RiscvStart.isa_default_img).cpu) {
    gpr = set_gpr (loaded RiscvStart.isa_default_img).cpu.gpr 0 0;
    pc = 0x80100000;
  };
  bus = register_pmem 0x80000000 (loaded RiscvStart.isa_default_img).bus;
}

began-Reachable : Reachable riscv32 began
unfolding init_isa restart
began-Reachable = start (loaded RiscvStart.isa_default_img) refl

Reachable-zero_example : began.cpu.gpr 0 ≡ 0
Reachable-zero_example = Reachable-zero began-Reachable
