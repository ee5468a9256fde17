-- ===== src/Mips32/Decode.antt =====
-- Decoding: nemu/src/isa/mips32/decode.c.
use ics.Base.{ℕ, true, false, ◌>>◌}
use ics.Machine.{Loc, id_src, id_src2, id_dest}
use ics.Rtl.{Rtl, rtl_add}
use ics.Risc.{decode_op_i, decode_op_r}
use ics.Mips32.Instr

unfoldable pub decode_iu : ℕ → Rtl
decode_iu instr = do
  decode_op_r id_src (Instr.rs instr) true
  decode_op_i id_src2 (Instr.imm instr)
  decode_op_r id_dest (Instr.rt instr) false

unfoldable pub decode_addr : ℕ → Rtl
decode_addr instr = do
  decode_op_r id_src (Instr.rs instr) true
  decode_op_i id_src2 (Instr.simm instr)
  rtl_add (Loc.addr id_src) (Loc.val id_src) (Loc.val id_src2)

unfoldable pub decode_ld : ℕ → Rtl
unfolding decode_addr
decode_ld instr = do decode_addr instr; decode_op_r id_dest (Instr.rt instr) false

unfoldable pub decode_st : ℕ → Rtl
unfolding decode_addr
decode_st instr = do decode_addr instr; decode_op_r id_dest (Instr.rt instr) true
