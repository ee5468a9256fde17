-- ===== src/Risc/Fetch.antt =====
-- The fetch of an instruction word, which is the same for both instruction sets.
use ics.Base.{ℕ, ◌+◌, ◌-◌, ◌%◌, ◌^◌, ◌≡◌, some, false, arith}
use ics.Bus.Host.{IsBytes}
use ics.Bus.Memory.{isa_vaddr_read}
use ics.Bus.Memory.Access.{InPmem, number, paddr_read-number}
use ics.Machine.{Machine, Loc, get, put}
use ics.Cpu.{instr_fetch}

-- The instruction at the program counter is the word `w`, in physical memory.
pub record IsCode (m : Machine) (w : ℕ) : Type 0 where
  pub inside : InPmem m.bus m.cpu.pc
  pub bytes : IsBytes m.bus.pmem
  pub word : number m.bus.pmem (m.cpu.pc - m.bus.pmem_low) 4 ≡ w
  pub is_jmp : m.decinfo.is_jmp ≡ false

-- The machine when the instruction at its program counter is fetched.
abbrev pub started : Machine → Machine
started m = record m { decinfo = record (m.decinfo) { seq_pc = m.cpu.pc } }

pub fetch_word :
    (m : Machine) (w : ℕ)
    → IsCode m w
    → instr_fetch Loc.seq_pc 4 (started m)
      ≡ some (w, put Loc.seq_pc ((m.cpu.pc + 4) % 2 ^ 32) (started m))
unfolding instr_fetch isa_vaddr_read get put
fetch_word m w h = rw (paddr_read-number m.bus m.cpu.pc 4 h.inside (omega arith) h.bytes, h.word)
