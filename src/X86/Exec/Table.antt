-- ===== src/X86/Exec/Table.antt =====
-- `opcode_table` of nemu/src/isa/x86/exec/exec.c, in runs of entries.
use ics.Base.{ℕ, zero, suc, List, [], ◌∷◌, ◌++◌, skip}
use ics.Rtl.{Rtl}
use ics.X86.Arith.{
  exec_adc, exec_add, exec_cmp, exec_dec, exec_imul2, exec_imul3, exec_inc, exec_sbb, exec_sub,
}
use ics.X86.Logic.{exec_and, exec_or, exec_xor, exec_test, exec_setcc}
use ics.X86.Control.{exec_jmp, exec_jcc, exec_call, exec_ret}
use ics.X86.DataMov.{
  exec_mov, exec_push, exec_pop, exec_leave, exec_cltd, exec_cwtl, exec_movsx, exec_movzx, exec_lea,
}
use ics.X86.System.{exec_in, exec_out, exec_nop, exec_inv, exec_nemu_trap}
use ics.X86.Decode.Helpers.{
  decode_a2o, decode_e, decode_e2g, decode_g2e, decode_gp2_1_e, decode_gp2_cl2e, decode_gp2_ib2e,
  decode_gp7_e, decode_i, decode_i2a, decode_i2e, decode_i_e2g, decode_in_dx2a, decode_j,
  decode_lea_m2g, decode_mov_e2g, decode_mov_g2e, decode_mov_i2e, decode_mov_i2r, decode_o2a,
  decode_out_a2dx, decode_push_si, decode_r, decode_setcc_e, decode_si2e,
}
use ics.X86.Exec.Groups.{exec_gp1, exec_gp2, exec_gp3, exec_gp4, exec_gp5, exec_gp7}

-- An execute helper: an instruction, or one of the two that fetch another opcode.
pub data Helper : Type 0 where
  run : Rtl → Helper
  two_byte_esc operand_size : Helper

-- `OpcodeEntry`; a NULL decode helper is `skip`.
pub record Entry : Type 0 where
  pub decode : Rtl
  pub execute : Helper
  pub width : ℕ

abbrev pub idexw : Rtl → Rtl → ℕ → Entry
idexw decode execute width = record { decode = decode; execute = run execute; width = width }

abbrev pub idex : Rtl → Rtl → Entry
idex decode execute = idexw decode execute 0

abbrev pub ex : Rtl → Entry
ex execute = idexw skip execute 0

abbrev pub empty : Entry
empty = ex exec_inv

abbrev pub two_byte_esc_entry : Entry
two_byte_esc_entry = record { decode = skip; execute = two_byte_esc; width = 0 }

abbrev pub operand_size_entry : Entry
operand_size_entry = record { decode = skip; execute = operand_size; width = 0 }

abbrev pub replicate : ℕ → Entry → List Entry
replicate zero e = []
replicate (suc n) e = e ∷ replicate n e

abbrev pub empties : ℕ → List Entry
empties n = replicate n empty

unfoldable pub arithmetic_opcodes : List Entry
arithmetic_opcodes =
    (idexw decode_g2e exec_add 1
      ∷ idex decode_g2e exec_add
      ∷ idexw decode_e2g exec_add 1
      ∷ idex decode_e2g exec_add
      ∷ idexw decode_i2a exec_add 1
      ∷ idex decode_i2a exec_add
      ∷ [])
    ++ (empty ∷ empty ∷ [])
    ++ (idexw decode_g2e exec_or 1
        ∷ idex decode_g2e exec_or
        ∷ idexw decode_e2g exec_or 1
        ∷ idex decode_e2g exec_or
        ∷ idexw decode_i2a exec_or 1
        ∷ idex decode_i2a exec_or
        ∷ [])
    ++ (empty ∷ [])
    ++ (two_byte_esc_entry
        ∷ idexw decode_g2e exec_adc 1
        ∷ idex decode_g2e exec_adc
        ∷ idexw decode_e2g exec_adc 1
        ∷ idex decode_e2g exec_adc
        ∷ idexw decode_i2a exec_adc 1
        ∷ idex decode_i2a exec_adc
        ∷ [])
    ++ (empty ∷ empty ∷ [])
    ++ (idexw decode_g2e exec_sbb 1
        ∷ idex decode_g2e exec_sbb
        ∷ idexw decode_e2g exec_sbb 1
        ∷ idex decode_e2g exec_sbb
        ∷ idexw decode_i2a exec_sbb 1
        ∷ idex decode_i2a exec_sbb
        ∷ [])
    ++ (empty ∷ empty ∷ [])
    ++ (idexw decode_g2e exec_and 1
        ∷ idex decode_g2e exec_and
        ∷ idexw decode_e2g exec_and 1
        ∷ idex decode_e2g exec_and
        ∷ idexw decode_i2a exec_and 1
        ∷ idex decode_i2a exec_and
        ∷ [])
    ++ (empty ∷ empty ∷ [])
    ++ (idexw decode_g2e exec_sub 1
        ∷ idex decode_g2e exec_sub
        ∷ idexw decode_e2g exec_sub 1
        ∷ idex decode_e2g exec_sub
        ∷ idexw decode_i2a exec_sub 1
        ∷ idex decode_i2a exec_sub
        ∷ [])
    ++ (empty ∷ empty ∷ [])
    ++ (idexw decode_g2e exec_xor 1
        ∷ idex decode_g2e exec_xor
        ∷ idexw decode_g2e exec_xor 1
        ∷ idex decode_e2g exec_xor
        ∷ idexw decode_i2a exec_xor 1
        ∷ idex decode_i2a exec_xor
        ∷ [])
    ++ (empty ∷ empty ∷ [])
    ++ (idexw decode_g2e exec_cmp 1
        ∷ idex decode_g2e exec_cmp
        ∷ idexw decode_e2g exec_cmp 1
        ∷ idex decode_e2g exec_cmp
        ∷ idexw decode_i2a exec_cmp 1
        ∷ idex decode_i2a exec_cmp
        ∷ [])
    ++ (empty ∷ empty ∷ [])

unfoldable pub register_opcodes : List Entry
register_opcodes =
    replicate 8 (idex decode_r exec_inc)
    ++ replicate 8 (idex decode_r exec_dec)
    ++ replicate 8 (idex decode_r exec_push)
    ++ replicate 8 (idex decode_r exec_pop)
    ++ empties 6
    ++ (operand_size_entry ∷ [])
    ++ (empty ∷ [])
    ++ (idex decode_i exec_push
        ∷ idex decode_i_e2g exec_imul3
        ∷ idexw decode_push_si exec_push 1
        ∷ [])
    ++ empties 5
    ++ replicate 16 (idexw decode_j exec_jcc 1)

unfoldable pub move_opcodes : List Entry
move_opcodes =
    (idexw decode_i2e exec_gp1 1 ∷ idex decode_i2e exec_gp1 ∷ [])
    ++ (empty ∷ [])
    ++ (idex decode_si2e exec_gp1 ∷ idexw decode_g2e exec_test 1 ∷ idex decode_g2e exec_test ∷ [])
    ++ (empty ∷ empty ∷ [])
    ++ (idexw decode_mov_g2e exec_mov 1
        ∷ idex decode_mov_g2e exec_mov
        ∷ idexw decode_mov_e2g exec_mov 1
        ∷ idex decode_mov_e2g exec_mov
        ∷ [])
    ++ (empty ∷ [])
    ++ (idex decode_lea_m2g exec_lea ∷ [])
    ++ (empty ∷ empty ∷ [])
    ++ (ex exec_nop ∷ [])
    ++ empties 7
    ++ (ex exec_cwtl ∷ ex exec_cltd ∷ [])
    ++ empties 6
    ++ (idexw decode_o2a exec_mov 1
        ∷ idex decode_o2a exec_mov
        ∷ idexw decode_a2o exec_mov 1
        ∷ idex decode_a2o exec_mov
        ∷ [])
    ++ empties 4
    ++ (idexw decode_i2a exec_test 1 ∷ idex decode_i2a exec_test ∷ [])
    ++ empties 6
    ++ replicate 8 (idexw decode_mov_i2r exec_mov 1)
    ++ replicate 8 (idex decode_mov_i2r exec_mov)

unfoldable pub control_opcodes : List Entry
control_opcodes =
    (idexw decode_gp2_ib2e exec_gp2 1 ∷ idex decode_gp2_ib2e exec_gp2 ∷ [])
    ++ (empty ∷ [])
    ++ (ex exec_ret ∷ [])
    ++ (empty ∷ empty ∷ [])
    ++ (idexw decode_mov_i2e exec_mov 1 ∷ idex decode_mov_i2e exec_mov ∷ [])
    ++ (empty ∷ [])
    ++ (ex exec_leave ∷ [])
    ++ empties 6
    ++ (idexw decode_gp2_1_e exec_gp2 1
        ∷ idex decode_gp2_1_e exec_gp2
        ∷ idexw decode_gp2_cl2e exec_gp2 1
        ∷ idex decode_gp2_cl2e exec_gp2
        ∷ [])
    ++ (empty ∷ empty ∷ [])
    ++ (ex exec_nemu_trap ∷ [])
    ++ empties 17
    ++ (idex decode_j exec_call ∷ idex decode_j exec_jmp ∷ [])
    ++ (empty ∷ [])
    ++ (idexw decode_j exec_jmp 1
        ∷ idexw decode_in_dx2a exec_in 1
        ∷ idex decode_in_dx2a exec_in
        ∷ idexw decode_out_a2dx exec_out 1
        ∷ idex decode_out_a2dx exec_out
        ∷ [])
    ++ empties 6
    ++ (idexw decode_e exec_gp3 1 ∷ idex decode_e exec_gp3 ∷ [])
    ++ empties 6
    ++ (idexw decode_e exec_gp4 1 ∷ idex decode_e exec_gp5 ∷ [])

unfoldable pub one_byte_opcodes : List Entry
unfolding arithmetic_opcodes register_opcodes move_opcodes control_opcodes
one_byte_opcodes = arithmetic_opcodes ++ register_opcodes ++ move_opcodes ++ control_opcodes

unfoldable pub two_byte_opcodes : List Entry
two_byte_opcodes =
    (empty ∷ [])
    ++ (idex decode_gp7_e exec_gp7 ∷ [])
    ++ empties 126
    ++ replicate 16 (idex decode_j exec_jcc)
    ++ replicate 8 (idexw decode_setcc_e exec_setcc 1)
    ++ empties 7
    ++ (idexw decode_setcc_e exec_setcc 1 ∷ [])
    ++ empties 15
    ++ (idex decode_e2g exec_imul2 ∷ [])
    ++ empties 6
    ++ (idexw decode_mov_e2g exec_movzx 1 ∷ idexw decode_mov_e2g exec_movzx 2 ∷ [])
    ++ empties 6
    ++ (idexw decode_mov_e2g exec_movsx 1 ∷ idexw decode_mov_e2g exec_movsx 2 ∷ [])
    ++ empties 63
    ++ (idex decode_e exec_gp5 ∷ [])
