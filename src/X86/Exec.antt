-- ===== src/X86/Exec.antt =====
-- Fetching, decoding and executing one instruction: `isa_exec` of nemu/src/isa/x86/exec/exec.c and
-- the operand size prefix of prefix.c.
pub mod Groups
pub mod Table
pub mod ShortJump
use ics.Base.{
  ℕ, zero, suc, true, false, Bool, some, ◌==◌, if◌then◌else◌, ◌>>=◌, ◌>>◌, abort, modify, bit_or,
  List, ◌++◌, get_elem?, from_option,
}
use ics.Machine.{Machine, Loc}
use ics.Rtl.{Rtl}
use ics.Cpu.{instr_fetch}
use Table.{Entry, Helper, run, two_byte_esc, operand_size, one_byte_opcodes, two_byte_opcodes}

-- Width 0 stands for the operand size.
unfoldable pub set_width : ℕ → Rtl
set_width width = modify λ m.
    let w = if width == 0 then (if m.decinfo.is_operand_size_16 then 2 else 4) else width in
    record m {
      decinfo = record (m.decinfo) {
        src = record (m.decinfo.src) { width = w };
        dest = record (m.decinfo.dest) { width = w };
        src2 = record (m.decinfo.src2) { width = w };
      };
    }

unfoldable pub opcode_table : List Entry
unfolding one_byte_opcodes two_byte_opcodes
opcode_table = one_byte_opcodes ++ two_byte_opcodes

abbrev set_opcode : ℕ → Rtl
set_opcode opcode = modify λ m. record m { decinfo = record (m.decinfo) { opcode = opcode } }

abbrev set_operand_size_16 : Bool → Rtl
set_operand_size_16 b =
    modify λ m. record m { decinfo = record (m.decinfo) { is_operand_size_16 = b } }

-- `idex` of the entry of an opcode, once its width is set. `execute` runs its helper.
unfoldable pub dispatch : (Helper → Rtl) → ℕ → Rtl
unfolding opcode_table set_width
dispatch execute opcode = do
  set_opcode opcode
  entry ← from_option (get_elem? opcode_table opcode)
  set_width entry.width
  entry.decode
  execute entry.execute

-- The second half of the table has neither an escape nor a prefix.
unfoldable pub execute_last : Helper → Rtl
execute_last (run instruction) = instruction
execute_last two_byte_esc = abort
execute_last operand_size = abort

-- An execute helper; `rest` is the `isa_exec` that the prefix calls.
unfoldable pub execute_helper : Rtl → Helper → Rtl
unfolding dispatch execute_last
execute_helper rest (run instruction) = instruction
execute_helper rest two_byte_esc = do
  v ← instr_fetch Loc.seq_pc 1
  dispatch execute_last (bit_or v 0x100)
execute_helper rest operand_size = do set_operand_size_16 true; rest; set_operand_size_16 false

-- `isa_exec`, on fuel that counts opcode bytes: each operand size prefix takes one more.
unfoldable pub isa_exec : ℕ → Rtl
unfolding dispatch execute_helper
isa_exec zero = abort
isa_exec (suc fuel) = do
  opcode ← instr_fetch Loc.seq_pc 1
  dispatch (execute_helper (isa_exec fuel)) opcode
