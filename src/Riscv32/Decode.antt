-- ===== src/Riscv32/Decode.antt =====
-- Decoding: nemu/src/isa/riscv32/include/isa/decode.h and nemu/src/isa/riscv32/decode.c.
use ics.Base.{ℕ, ◌*◌, ◌%◌, ◌^◌, true, false, ◌>>◌, bit_or}
use ics.Machine.{Loc, id_src, id_src2, id_dest}
use ics.Rtl.{Rtl, rtl_add}
use ics.Riscv32.Instr
use ics.Risc.{decode_op_i, decode_op_r}

unfoldable pub decode_u : ℕ → Rtl
decode_u instr = do
  decode_op_i id_src (Instr.imm31_12 instr * 2 ^ 12 % 2 ^ 32)
  decode_op_r id_dest (Instr.rd instr) false

unfoldable pub decode_ld : ℕ → Rtl
decode_ld instr = do
  decode_op_r id_src (Instr.rs1 instr) true
  decode_op_i id_src2 (Instr.simm11_0 instr)
  rtl_add (Loc.addr id_src) (Loc.val id_src) (Loc.val id_src2)
  decode_op_r id_dest (Instr.rd instr) false

-- `simm11_5 << 5` shifts a negative number on the two's complement hosts.
unfoldable pub store_offset : ℕ → ℕ
store_offset instr = bit_or (Instr.simm11_5 instr * 2 ^ 5 % 2 ^ 32) (Instr.imm4_0 instr)

unfoldable pub decode_st : ℕ → Rtl
unfolding store_offset
decode_st instr = do
  decode_op_r id_src (Instr.rs1 instr) true
  decode_op_i id_src2 (store_offset instr)
  rtl_add (Loc.addr id_src) (Loc.val id_src) (Loc.val id_src2)
  decode_op_r id_dest (Instr.rs2 instr) true
