-- ===== src/X86/Decode/Helpers.antt =====
-- The decode helpers of nemu/src/isa/x86/decode/decode.c.
use ics.Base.{
  ℕ, ◌+◌, ◌%◌, ◌^◌, true, false, none, some, ◌==◌, ◌||◌, ◌>>=◌, ◌>>◌, assert, modify, bit_and,
}
use ics.Machine.{id_src, id_src2, id_dest, op_type_reg, op_type_imm, operand, set_operand, Loc}
use ics.Rtl.{Rtl, rtl_li}
use ics.X86.Reg.{r_ecx, r_edx, rtl_lr}
use ics.X86.Arith.{width_of}
use ics.X86.Decode.{
  set_type, set_word, set_width, when, decode_op_i, decode_op_si, decode_op_a, decode_op_r,
  decode_op_o, read_modr_m,
}

unfoldable pub decode_g2e : Rtl
decode_g2e = read_modr_m id_dest true (some id_src) true

unfoldable pub decode_mov_g2e : Rtl
decode_mov_g2e = read_modr_m id_dest false (some id_src) true

unfoldable pub decode_e2g : Rtl
decode_e2g = read_modr_m id_src true (some id_dest) true

unfoldable pub decode_mov_e2g : Rtl
decode_mov_e2g = read_modr_m id_src true (some id_dest) false

unfoldable pub decode_lea_m2g : Rtl
decode_lea_m2g = read_modr_m id_src false (some id_dest) false

unfoldable pub decode_i2a : Rtl
decode_i2a = do decode_op_a id_dest true; decode_op_i id_src

unfoldable pub decode_i_e2g : Rtl
decode_i_e2g = do read_modr_m id_src2 true (some id_dest) false; decode_op_i id_src

unfoldable pub decode_i2e : Rtl
decode_i2e = do read_modr_m id_dest true none false; decode_op_i id_src

unfoldable pub decode_mov_i2e : Rtl
decode_mov_i2e = do read_modr_m id_dest false none false; decode_op_i id_src

unfoldable pub decode_i2r : Rtl
decode_i2r = do decode_op_r id_dest true; decode_op_i id_src

unfoldable pub decode_mov_i2r : Rtl
decode_mov_i2r = do decode_op_r id_dest false; decode_op_i id_src

unfoldable pub decode_i : Rtl
decode_i = decode_op_i id_dest

unfoldable pub decode_r : Rtl
decode_r = decode_op_r id_dest true

unfoldable pub decode_e : Rtl
decode_e = read_modr_m id_dest true none false

unfoldable pub decode_setcc_e : Rtl
decode_setcc_e = read_modr_m id_dest false none false

unfoldable pub decode_gp7_e : Rtl
decode_gp7_e = read_modr_m id_dest false none false

unfoldable pub decode_test_i : Rtl
decode_test_i = decode_op_i id_src

-- `id_src->val &= 0xffff` on a 16-bit destination.
abbrev narrow_src : ℕ → Rtl
narrow_src w = when (w == 2) (
    modify λ m.
      set_operand id_src (record (operand id_src m) { val = bit_and (operand id_src m).val 0xffff })
        m)

unfoldable pub decode_si2e : Rtl
unfolding width_of
decode_si2e = do
  w ← width_of id_dest
  assert (w == 2 || w == 4)
  read_modr_m id_dest true none false
  set_width id_src 1
  decode_op_si id_src
  narrow_src w

unfoldable pub decode_si_e2g : Rtl
unfolding width_of
decode_si_e2g = do
  w ← width_of id_dest
  assert (w == 2 || w == 4)
  read_modr_m id_src2 true (some id_dest) false
  set_width id_src 1
  decode_op_si id_src
  narrow_src w

unfoldable pub decode_gp2_1_e : Rtl
unfolding rtl_li
decode_gp2_1_e = do
  read_modr_m id_dest true none false
  set_type id_src op_type_imm
  set_word id_src 1
  rtl_li (Loc.val id_src) 1

-- A register as `id_src` whose value is read at a width of its own.
abbrev src_register : ℕ → ℕ → Rtl
src_register r width = do
  set_type id_src op_type_reg
  set_word id_src r
  rtl_lr (Loc.val id_src) r width

unfoldable pub decode_gp2_cl2e : Rtl
unfolding rtl_lr
decode_gp2_cl2e = do read_modr_m id_dest true none false; src_register r_ecx 1

unfoldable pub decode_gp2_ib2e : Rtl
decode_gp2_ib2e = do read_modr_m id_dest true none false; set_width id_src 1; decode_op_i id_src

unfoldable pub decode_ib_g2e : Rtl
decode_ib_g2e = do
  read_modr_m id_dest true (some id_src2) true
  set_width id_src 1
  decode_op_i id_src

unfoldable pub decode_cl_g2e : Rtl
unfolding rtl_lr
decode_cl_g2e = do read_modr_m id_dest true (some id_src2) true; src_register r_ecx 1

unfoldable pub decode_o2a : Rtl
decode_o2a = do decode_op_o id_src true; decode_op_a id_dest false

unfoldable pub decode_a2o : Rtl
decode_a2o = do decode_op_a id_src true; decode_op_o id_dest false

-- The target is relative to the address behind the displacement.
unfoldable pub decode_j : Rtl
decode_j = do
  decode_op_si id_dest
  modify λ m. record m {
    decinfo = record (m.decinfo) { jmp_pc = (m.decinfo.dest.word + m.decinfo.seq_pc) % 2 ^ 32 };
  }

unfoldable pub decode_push_si : Rtl
decode_push_si = decode_op_si id_dest

unfoldable pub decode_in_i2a : Rtl
decode_in_i2a = do set_width id_src 1; decode_op_i id_src; decode_op_a id_dest false

unfoldable pub decode_in_dx2a : Rtl
unfolding rtl_lr
decode_in_dx2a = do src_register r_edx 2; decode_op_a id_dest false

unfoldable pub decode_out_a2i : Rtl
decode_out_a2i = do decode_op_a id_src true; set_width id_dest 1; decode_op_i id_dest

unfoldable pub decode_out_a2dx : Rtl
unfolding rtl_lr
decode_out_a2dx = do
  decode_op_a id_src true
  set_type id_dest op_type_reg
  set_word id_dest r_edx
  rtl_lr (Loc.val id_dest) r_edx 2
