-- ===== src/Mips32/Exec.antt =====
-- Executing one instruction: `isa_exec` and the tables of nemu/src/isa/mips32/exec/exec.c, and the
-- execute helpers beside it.
use ics.Base.{ℕ, List, [], ◌∷◌, ◌>>=◌, ◌>>◌}
use ics.Machine.{Loc, id_src2, id_dest}
use ics.Cpu.{instr_fetch}
use ics.Rtl.{Rtl, rtl_shli}
use ics.Risc.{rtl_sr, exec_ld, exec_st, trap, reg_of}
use ics.Risc.Table.{Entry, idexw, exw, empties, idex, set_entry_width, entry_of}
use ics.Mips32.Instr
use ics.Mips32.Decode.{decode_iu, decode_ld, decode_st}

unfoldable pub exec_lui : Rtl
unfolding rtl_shli
exec_lui = do rtl_shli Loc.s0 (Loc.val id_src2) 16; reg_of id_dest (λ r. rtl_sr r Loc.s0)

-- Register 2 is v0.
unfoldable pub exec_nemu_trap : Rtl
unfolding trap
exec_nemu_trap = trap 2

unfoldable pub special_table : List Entry
special_table = empties 64 []

unfoldable pub exec_special : ℕ → Rtl
unfolding special_table entry_of idex
exec_special instr = entry_of special_table (Instr.func instr) (idex instr)

unfoldable pub opcode_table : List Entry
opcode_table =
    exw exec_special 0
    ∷ empties 14 (
        idexw decode_iu (λ instr. exec_lui) 0
        ∷ empties 19 (
            idexw decode_ld (λ instr. exec_ld) 4
            ∷ empties 7 (
                idexw decode_st (λ instr. exec_st) 4
                ∷ empties 16 (exw (λ instr. exec_nemu_trap) 0 ∷ empties 3 []))))

unfoldable pub isa_exec : Rtl
unfolding entry_of idex set_entry_width opcode_table
isa_exec = do
  instr ← instr_fetch Loc.seq_pc 4
  entry_of opcode_table (Instr.opcode instr) (λ e. do set_entry_width e.width; idex instr e)
