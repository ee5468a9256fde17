-- ===== src/X86/Logic.antt =====
-- The logic and shift instructions: nemu/src/isa/x86/exec/logic.c.
pub mod Flags
pub mod Rotate
use ics.Base.{ℕ, zero, suc, ◌^◌, ltb, if◌then◌else◌, ◌>>=◌, ◌>>◌, skip, abort, some, bit_and, Cmd}
use ics.Machine.{Machine, OperandId, id_dest, id_src, Loc}
use ics.Rtl.{
  Rtl, rtl_steps, rtl_li, rtl_and, rtl_or, rtl_xor, rtl_add, rtl_shl, rtl_shr, rtl_sar, rtl_shli,
  rtl_not, rtl_msb,
}
use ics.X86.Flags.{rtl_set_cf, rtl_set_of, rtl_get_cf, rtl_update_zfsf}
use ics.X86.Operands.{operand_write}
use ics.X86.Cc.{rtl_setcc}
use ics.X86.Arith.{s0, s1, dest, src, width_of}

abbrev clear_cf_of : Rtl
clear_cf_of = do rtl_li Loc.ir 0; rtl_set_cf Loc.ir; rtl_set_of Loc.ir

abbrev update_dest_zfsf : Rtl
update_dest_zfsf = do w ← width_of id_dest; rtl_update_zfsf s0 w

unfoldable pub exec_test : Rtl
unfolding rtl_steps width_of rtl_set_cf rtl_set_of
exec_test = do
  rtl_and s0 dest src
  rtl_li Loc.ir 0
  rtl_set_of Loc.ir
  rtl_set_cf Loc.ir
  update_dest_zfsf

unfoldable pub exec_and : Rtl
unfolding rtl_steps width_of rtl_set_cf rtl_set_of
exec_and = do rtl_and s0 dest src; operand_write id_dest s0; clear_cf_of; update_dest_zfsf

unfoldable pub exec_xor : Rtl
unfolding rtl_steps width_of rtl_set_cf rtl_set_of
exec_xor = do rtl_xor s0 dest src; operand_write id_dest s0; clear_cf_of; update_dest_zfsf

unfoldable pub exec_or : Rtl
unfolding rtl_steps width_of rtl_set_cf rtl_set_of
exec_or = do
  rtl_or s0 dest src
  operand_write id_dest s0
  rtl_li Loc.ir 0
  rtl_set_of Loc.ir
  rtl_set_cf Loc.ir
  update_dest_zfsf

-- The shifts give `rtl_update_ZFSF` the destination's value where it takes a width.
abbrev update_zfsf_by_value : Rtl
update_zfsf_by_value = do v ← λ m. some (m.decinfo.dest.val, m); rtl_update_zfsf s0 v

unfoldable pub exec_sar : Rtl
unfolding rtl_steps
exec_sar = do rtl_sar s0 dest src; operand_write id_dest s0; update_zfsf_by_value

unfoldable pub exec_shl : Rtl
unfolding rtl_steps
exec_shl = do rtl_shl s0 dest src; operand_write id_dest s0; update_zfsf_by_value

unfoldable pub exec_shr : Rtl
unfolding rtl_steps
exec_shr = do rtl_shr s0 dest src; operand_write id_dest s0; update_zfsf_by_value

-- One round of `rol`'s loop. It reads `id_dest->val`, which no round updates.
unfoldable pub rol_round : Rtl
unfolding rtl_steps width_of rtl_get_cf rtl_set_of rtl_set_cf
rol_round = do
  rtl_get_cf s1
  w ← width_of id_dest
  rtl_msb s0 dest w
  rtl_xor s1 s0 s1
  rtl_set_of s1
  rtl_shli s1 dest 1
  rtl_add s1 s0 s1
  operand_write id_dest s1
  rtl_set_cf s0

unfoldable pub rol_loop : ℕ → Rtl
rol_loop zero = skip
rol_loop (suc t) = rol_round >> rol_loop t

-- `int t = id_src->val` counts down to 0; a negative count would run into signed overflow.
unfoldable pub exec_rol : Rtl
exec_rol m = if ltb m.decinfo.src.val (2 ^ 31) then rol_loop m.decinfo.src.val m else abort m

unfoldable pub exec_setcc : Rtl
exec_setcc = do
  opcode ← λ m. some (m.decinfo.opcode, m)
  rtl_setcc s0 (bit_and opcode 0xf)
  operand_write id_dest s0

unfoldable pub exec_not : Rtl
unfolding rtl_steps
exec_not = do rtl_not s0 dest; operand_write id_dest s0
