-- ===== src/X86/DataMov.antt =====
-- Data movement: nemu/src/isa/x86/exec/data-mov.c.
pub mod Stack
pub mod Extend
use ics.Base.{ℕ, ◌+◌, ◌*◌, ◌/◌, ◌%◌, ◌==◌, if◌then◌else◌, ◌>>=◌, ◌>>◌, abort, modify, some, Cmd}
use ics.Machine.{Machine, OperandId, id_dest, id_src, operand, set_operand, Loc, get, put}
use ics.Rtl.{Rtl, rtl_steps, rtl_mv, rtl_sext, rtl_msb}
use ics.X86.Reg.{r_eax, r_edx, r_ebp}
use ics.X86.Flags.{esp, rtl_push, rtl_pop}
use ics.X86.Operands.{operand_write}
use ics.X86.Arith.{s0, dest, src, width_of}

unfoldable pub exec_mov : Rtl
exec_mov = operand_write id_dest src

unfoldable pub exec_push : Rtl
exec_push = rtl_push dest

unfoldable pub exec_pop : Rtl
exec_pop = do rtl_pop s0; operand_write id_dest s0

-- TODOs, which panic.
unfoldable pub exec_pusha : Rtl
exec_pusha = abort

unfoldable pub exec_popa : Rtl
exec_popa = abort

unfoldable pub exec_leave : Rtl
unfolding rtl_steps
exec_leave = do rtl_mv esp (Loc.gpr r_ebp); rtl_pop (Loc.gpr r_ebp)

-- `cpu.gpr[r]._16 = v`.
abbrev set_low16 : ℕ → ℕ → Machine → Machine
set_low16 r v m = put (Loc.gpr r) (m.cpu.gpr r / 65536 * 65536 + v % 65536) m

unfoldable pub exec_cltd : Rtl
unfolding rtl_steps
exec_cltd m =
    if m.decinfo.is_operand_size_16
    then (do rtl_sext s0 (Loc.gpr r_eax) 2; modify λ n. set_low16 r_edx (n.s0 / 65536) n) m
    else (do
      rtl_msb s0 (Loc.gpr r_eax) 4
      modify λ n. put (Loc.gpr r_edx) (if n.s0 == 0 then 0x00000000 else 0xFFFFFFFF) n)
        m

unfoldable pub exec_cwtl : Rtl
unfolding rtl_steps
exec_cwtl m =
    if m.decinfo.is_operand_size_16
    then (do rtl_sext s0 (Loc.gpr r_eax) 1; modify λ n. set_low16 r_eax n.s0 n) m
    else (do rtl_sext s0 (Loc.gpr r_eax) 2; modify λ n. put (Loc.gpr r_eax) n.s0 n) m

-- `id_dest->width = is_operand_size_16 ? 2 : 4`.
unfoldable pub widen_dest : Machine → Machine
widen_dest m = record m {
  decinfo = record (m.decinfo) {
    dest = record (m.decinfo.dest) { width = if m.decinfo.is_operand_size_16 then 2 else 4 };
  };
}

unfoldable pub exec_movsx : Rtl
unfolding rtl_steps widen_dest width_of
exec_movsx = do modify widen_dest; w ← width_of id_src; rtl_sext s0 src w; operand_write id_dest s0

unfoldable pub exec_movzx : Rtl
unfolding widen_dest
exec_movzx = do modify widen_dest; operand_write id_dest src

unfoldable pub exec_lea : Rtl
exec_lea = operand_write id_dest (Loc.addr id_src)
