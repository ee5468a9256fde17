-- ===== src/Cpu.antt =====
-- Fetching and the program counter: nemu/include/cpu/exec.h and nemu/src/cpu/cpu.c.
use ics.Base.{ℕ, ◌+◌, ◌%◌, ◌^◌, false, some, Cmd, bind, if◌then◌else◌}
use ics.Bus.Memory.{isa_vaddr_read}
use ics.Machine.{Machine, Loc, get, put, on_bus}
use ics.Rtl.{Rtl, decinfo_set_jmp}

-- `instr_fetch` reads at `*pc` and moves `*pc` on.
unfoldable pub instr_fetch : Loc → ℕ → Cmd Machine ℕ
instr_fetch pc len m =
    bind (on_bus (isa_vaddr_read (get pc m) len) m)
      (λ (v, m'). some (v, put pc ((get pc m' + len) % 2 ^ 32) m'))

-- A jump has written `cpu.pc` already; any other instruction goes on at `seq_pc`.
unfoldable pub update_pc : Machine → Machine
unfolding decinfo_set_jmp
update_pc m =
    if m.decinfo.is_jmp
    then decinfo_set_jmp false m
    else record m { cpu = record (m.cpu) { pc = m.decinfo.seq_pc } }

-- `exec_once`, given `isa_exec`.
unfoldable pub exec_once : Rtl → Cmd Machine ℕ
unfolding update_pc
exec_once isa_exec m =
    bind (isa_exec (record m { decinfo = record (m.decinfo) { seq_pc = m.cpu.pc } }))
      (λ (t, m'). some ((update_pc m').decinfo.seq_pc, update_pc m'))
