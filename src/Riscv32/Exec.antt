-- ===== src/Riscv32/Exec.antt =====
-- Executing one instruction: `isa_exec` and the tables of nemu/src/isa/riscv32/exec/exec.c, and the
-- execute helpers beside it.
use ics.Base.{ℕ, List, [], ◌∷◌, ◌==◌, ◌>>=◌, ◌>>◌, assert}
use ics.Machine.{Loc, id_src, id_dest}
use ics.Cpu.{instr_fetch}
use ics.Rtl.{Rtl}
use ics.Risc.{rtl_sr, exec_ld, exec_st, trap, reg_of}
use ics.Risc.Table.{Entry, idexw, exw, empties, idex, set_entry_width, entry_of}
use ics.Riscv32.Instr
use ics.Riscv32.Decode.{decode_u, decode_ld, decode_st}

unfoldable pub exec_lui : Rtl
exec_lui = reg_of id_dest (λ r. rtl_sr r (Loc.val id_src))

-- Register 10 is a0.
unfoldable pub exec_nemu_trap : Rtl
unfolding trap
exec_nemu_trap = trap 10

unfoldable pub load_table : List Entry
load_table = empties 2 (exw (λ instr. exec_ld) 4 ∷ empties 5 [])

-- The width is set, and then the entry runs.
abbrev by_funct3 : List Entry → ℕ → Rtl
by_funct3 table instr =
    entry_of table (Instr.funct3 instr) (λ e. do set_entry_width e.width; idex instr e)

unfoldable pub exec_load : ℕ → Rtl
unfolding load_table entry_of set_entry_width idex
exec_load = by_funct3 load_table

unfoldable pub store_table : List Entry
store_table = empties 2 (exw (λ instr. exec_st) 4 ∷ empties 5 [])

unfoldable pub exec_store : ℕ → Rtl
unfolding store_table entry_of set_entry_width idex
exec_store = by_funct3 store_table

unfoldable pub opcode_table : List Entry
opcode_table =
    idexw decode_ld exec_load 0
    ∷ empties 7 (
        idexw decode_st exec_store 0
        ∷ empties 4 (
            idexw decode_u (λ instr. exec_lui) 0
            ∷ empties 12 (exw (λ instr. exec_nemu_trap) 0 ∷ empties 5 [])))

unfoldable pub isa_exec : Rtl
unfolding entry_of idex opcode_table
isa_exec = do
  instr ← instr_fetch Loc.seq_pc 4
  assert (Instr.opcode1_0 instr == 0x3)
  entry_of opcode_table (Instr.opcode6_2 instr) (idex instr)
