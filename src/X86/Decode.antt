-- ===== src/X86/Decode.antt =====
-- Decoding operands: nemu/src/isa/x86/decode/decode.c and modrm.c. `pc` is `&decinfo.seq_pc`.
pub mod Address
pub mod Code
pub mod Helpers
use ics.Base.{
  ℕ, ◌*◌, ◌/◌, ◌%◌, Bool, true, false, not, ◌&&◌, ◌||◌, Option, none, some, ◌==◌, if◌then◌else◌,
  ◌>>=◌, ◌>>◌, skip, assert, modify, pure, Cmd, signed, pattern_of,
}
use ics.Machine.{
  Machine, OperandId, Operand, OpType, op_type_reg, op_type_mem, op_type_imm, operand, set_operand,
  Loc, get, put,
}
use ics.Cpu.{instr_fetch}
use ics.Rtl.{Rtl, rtl_steps, rtl_li, rtl_mv, rtl_add, rtl_addi, rtl_shli, rtl_lm, rtl_sext}
use ics.X86.Reg.{r_eax, r_esp, r_ebp, rtl_lr}
use ics.X86.Arith.{s0, s1, width_of}

-- `op->type = type`, and `op->reg = word` or `op->imm = word`.
abbrev pub set_type : OperandId → OpType → Rtl
set_type id type = modify λ m. set_operand id (record (operand id m) { type = type }) m

abbrev pub set_word : OperandId → ℕ → Rtl
set_word id word = modify λ m. set_operand id (record (operand id m) { word = word }) m

abbrev pub set_width : OperandId → ℕ → Rtl
set_width id width = modify λ m. set_operand id (record (operand id m) { width = width }) m

-- `if (load) ...`.
abbrev pub when : Bool → Rtl → Rtl
when load run = if load then run else skip

unfoldable pub decode_op_i : OperandId → Rtl
unfolding rtl_li width_of
decode_op_i id = do
  set_type id op_type_imm
  w ← width_of id
  v ← instr_fetch Loc.seq_pc w
  set_word id v
  rtl_li (Loc.val id) v

unfoldable pub decode_op_si : OperandId → Rtl
unfolding rtl_li rtl_sext width_of
decode_op_si id = do
  w ← width_of id
  assert (w == 1 || w == 4)
  set_type id op_type_imm
  v ← instr_fetch Loc.seq_pc w
  if w == 1
      then (do rtl_li s0 v; rtl_sext s1 s0 w; simm ← λ m. some (m.s1, m); set_word id simm)
      else set_word id v
  simm ← λ m. some ((operand id m).word, m)
  rtl_li (Loc.val id) simm

unfoldable pub decode_op_a : OperandId → Bool → Rtl
unfolding rtl_lr width_of
decode_op_a id load = do
  set_type id op_type_reg
  set_word id r_eax
  w ← width_of id
  when load (rtl_lr (Loc.val id) r_eax w)

unfoldable pub decode_op_r : OperandId → Bool → Rtl
unfolding rtl_lr width_of
decode_op_r id load = do
  set_type id op_type_reg
  opcode ← λ m. some (m.decinfo.opcode, m)
  set_word id (opcode % 8)
  w ← width_of id
  when load (rtl_lr (Loc.val id) (opcode % 8) w)

unfoldable pub decode_op_o : OperandId → Bool → Rtl
unfolding rtl_li rtl_lm width_of
decode_op_o id load = do
  set_type id op_type_mem
  v ← instr_fetch Loc.seq_pc 4
  rtl_li (Loc.addr id) v
  w ← width_of id
  when load (rtl_lm (Loc.val id) (Loc.addr id) w)

-- The registers that an address is made of; -1 in the code is `none`.
pub record Parts : Type 0 where
  pub base : Option ℕ
  pub index : Option ℕ
  pub scale : ℕ

-- The fields of the `SIB` byte, which R_ESP in the R_M field announces.
abbrev pub sib_parts : ℕ → Parts
sib_parts v = record {
  base = some (v % 8);
  index = if v / 8 % 8 == r_esp then none else some (v / 8 % 8);
  scale = v / 64 % 4;
}

unfoldable pub fetch_parts : ℕ → Cmd Machine Parts
fetch_parts r_m =
    if r_m == r_esp
    then (do v ← instr_fetch Loc.seq_pc 1; pure (sib_parts v))
    else pure (record { base = some r_m; index = none; scale = 0 })

abbrev pub is_ebp : Option ℕ → Bool
is_ebp none = false
is_ebp (some r) = r == r_ebp

-- The base and the size of the displacement, by the `mod` field.
abbrev pub base_of : ℕ → Option ℕ → Option ℕ
base_of md base = if md == 0 && is_ebp base then none else base

abbrev pub disp_size : ℕ → Option ℕ → ℕ
disp_size md base = if md == 0 then (if is_ebp base then 4 else 0) else if md == 1 then 1 else 4

-- `(int8_t)disp` for a displacement of one byte.
unfoldable pub add_disp : ℕ → Rtl
unfolding rtl_steps
add_disp size = if size == 0 then skip else (do
  v ← instr_fetch Loc.seq_pc size
  rtl_addi s0 s0 (if size == 1 then pattern_of 32 (signed 8 v) else v))

unfoldable pub add_base : Option ℕ → Rtl
unfolding rtl_steps
add_base none = skip
add_base (some r) = rtl_add s0 s0 (Loc.gpr r)

unfoldable pub add_index : Option ℕ → ℕ → Rtl
unfolding rtl_steps
add_index none scale = skip
add_index (some r) scale = do rtl_shli s1 (Loc.gpr r) scale; rtl_add s0 s0 s1

unfoldable pub load_addr : ℕ → ℕ → OperandId → Rtl
unfolding rtl_steps fetch_parts add_disp add_base add_index
load_addr md r_m rm = do
  assert (not (md == 3))
  rtl_li s0 0
  p ← fetch_parts r_m
  add_disp (disp_size md p.base)
  add_base (base_of md p.base)
  add_index p.index p.scale
  rtl_mv (Loc.addr rm) s0
  set_type rm op_type_mem

abbrev pub set_ext_opcode : ℕ → Rtl
set_ext_opcode v = modify λ m. record m { decinfo = record (m.decinfo) { ext_opcode = v } }

-- The register operand, if there is one.
unfoldable pub decode_reg : Option OperandId → Bool → ℕ → Rtl
unfolding rtl_lr width_of
decode_reg none load r = skip
decode_reg (some reg) load r = do
  set_type reg op_type_reg
  set_word reg r
  w ← width_of reg
  when load (rtl_lr (Loc.val reg) r w)

-- The fields of the ModR/M byte: `mod` over `reg` (or `opcode`) over `R_M`.
unfoldable pub read_modr_m : OperandId → Bool → Option OperandId → Bool → Rtl
unfolding rtl_steps rtl_lr rtl_lm width_of load_addr decode_reg
read_modr_m rm load_rm reg load_reg = do
  v ← instr_fetch Loc.seq_pc 1
  set_ext_opcode (v / 8 % 8)
  decode_reg reg load_reg (v / 8 % 8)
  w ← width_of rm
  if v / 64 % 4 == 3
      then (do
        set_type rm op_type_reg
        set_word rm (v % 8)
        when load_rm (rtl_lr (Loc.val rm) (v % 8) w))
      else (do
        load_addr (v / 64 % 4) (v % 8) rm
        when load_rm (rtl_lm (Loc.val rm) (Loc.addr rm) w))
