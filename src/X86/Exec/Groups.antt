-- ===== src/X86/Exec/Groups.antt =====
-- The opcode groups of nemu/src/isa/x86/exec/exec.c, which the ModR/M byte's opcode field selects
-- from. `idex` does not set a width, so the widths of their entries have no effect.
use ics.Base.{List, [], ◌∷◌, ◌>>◌, get_elem?, bind}
use ics.Rtl.{Rtl}
use ics.X86.Arith.{
  exec_adc, exec_add, exec_cmp, exec_dec, exec_imul1, exec_inc, exec_neg, exec_mul, exec_div,
  exec_idiv, exec_sbb, exec_sub,
}
use ics.X86.Logic.{
  exec_and, exec_or, exec_xor, exec_test, exec_not, exec_rol, exec_shl, exec_shr, exec_sar,
}
use ics.X86.Control.{exec_jmp_rm, exec_call_rm}
use ics.X86.DataMov.{exec_push}
use ics.X86.System.{exec_inv}
use ics.X86.Decode.Helpers.{decode_test_i}

-- `idex` of the entry of the group at `ext_opcode`.
unfoldable pub group : List Rtl → Rtl
group table m = bind (get_elem? table m.decinfo.ext_opcode) (λ run. run m)

unfoldable pub exec_gp1 : Rtl
unfolding group
exec_gp1 =
    group
      (exec_add ∷ exec_or ∷ exec_adc ∷ exec_sbb ∷ exec_and ∷ exec_sub ∷ exec_xor ∷ exec_cmp ∷ [])

unfoldable pub exec_gp2 : Rtl
unfolding group
exec_gp2 =
    group
      (exec_rol ∷ exec_inv ∷ exec_inv ∷ exec_inv ∷ exec_shl ∷ exec_shr ∷ exec_inv ∷ exec_sar ∷ [])

unfoldable pub exec_gp3 : Rtl
unfolding group
exec_gp3 = group (
    (decode_test_i >> exec_test)
    ∷ exec_inv
    ∷ exec_not
    ∷ exec_neg
    ∷ exec_mul
    ∷ exec_imul1
    ∷ exec_div
    ∷ exec_idiv
    ∷ [])

unfoldable pub exec_gp4 : Rtl
unfolding group
exec_gp4 =
    group
      (exec_inv ∷ exec_dec ∷ exec_inv ∷ exec_inv ∷ exec_inv ∷ exec_inv ∷ exec_inv ∷ exec_inv ∷ [])

unfoldable pub exec_gp5 : Rtl
unfolding group
exec_gp5 = group (
    exec_inc ∷ exec_dec ∷ exec_call_rm ∷ exec_inv ∷ exec_jmp_rm ∷ exec_inv ∷ exec_push ∷ exec_inv
    ∷ [])

unfoldable pub exec_gp7 : Rtl
unfolding group
exec_gp7 =
    group
      (exec_inv ∷ exec_inv ∷ exec_inv ∷ exec_inv ∷ exec_inv ∷ exec_inv ∷ exec_inv ∷ exec_inv ∷ [])
