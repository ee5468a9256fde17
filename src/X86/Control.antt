-- ===== src/X86/Control.antt =====
-- Jumps and calls: nemu/src/isa/x86/exec/control.c. The decode stage has left the target in
-- `decinfo.jmp_pc`; `pc` is `&decinfo.seq_pc`.
pub mod Branch
pub mod Relation
pub mod Return
use ics.Base.{ℕ, true, ◌>>=◌, ◌>>◌, abort, modify, some, Cmd, bit_and}
use ics.Machine.{Machine, Loc, id_dest}
use ics.Rtl.{Rtl, rtl_li, rtl_j, rtl_jr, rtl_jrelop, rtl_steps, decinfo_set_jmp}
use ics.Rtl.Relop.{code, relop_ne}
use ics.X86.Flags.{rtl_push, rtl_pop}
use ics.X86.Cc.{rtl_setcc}

abbrev jmp_pc_of : Cmd Machine ℕ
jmp_pc_of m = some (m.decinfo.jmp_pc, m)

unfoldable pub exec_jmp : Rtl
unfolding rtl_steps
exec_jmp = do target ← jmp_pc_of; rtl_j target

unfoldable pub exec_jcc : Rtl
unfolding rtl_steps
exec_jcc = do
  opcode ← λ m. some (m.decinfo.opcode, m)
  rtl_setcc Loc.s0 (bit_and opcode 0xf)
  rtl_li Loc.s1 0
  target ← jmp_pc_of
  rtl_jrelop (code relop_ne) Loc.s0 Loc.s1 target

unfoldable pub exec_jmp_rm : Rtl
unfolding rtl_steps
exec_jmp_rm = rtl_jr (Loc.val id_dest)

unfoldable pub exec_call : Rtl
unfolding rtl_steps
exec_call = do rtl_push Loc.seq_pc; target ← jmp_pc_of; rtl_j target

unfoldable pub exec_ret : Rtl
unfolding rtl_steps
exec_ret = do rtl_pop Loc.jmp_pc; target ← jmp_pc_of; rtl_j target

-- A TODO, which panics.
unfoldable pub exec_ret_imm : Rtl
exec_ret_imm = abort

unfoldable pub exec_call_rm : Rtl
unfolding rtl_steps decinfo_set_jmp
exec_call_rm = do
  modify λ m.
      let jumped = decinfo_set_jmp true m in
      record jumped { decinfo = record (jumped.decinfo) { jmp_pc = m.decinfo.dest.val } }
  rtl_push Loc.seq_pc
  target ← jmp_pc_of
  rtl_j target
