-- ===== src/Rtl.antt =====
-- The register transfer language: nemu/include/rtl/rtl.h. An instruction is given the variables
-- that it reads and writes, which may be one and the same.
pub mod Host
pub mod Op
pub mod Relop
use ics.Base.{
  ℕ, ◌+◌, ◌-◌, ◌*◌, ◌/◌, ◌%◌, ◌^◌, Bool, true, false, Option, none, some, ◌==◌, leb, ltb,
  if◌then◌else◌, to_bit, Cmd, ◌>>=◌, ◌>>◌, skip, abort, modify, bind, bit_and, bit_or,
}
use ics.Bus.Memory.{isa_vaddr_read, isa_vaddr_write}
use ics.Machine.{Machine, Loc, get, put, on_bus}
use Op.{
  c_add, c_sub, c_and, c_or, c_xor, c_shl, c_shr, c_sar, c_mul_lo, c_mul_hi, c_imul_lo, c_imul_hi,
  c_div_q, c_div_r, c_idiv_q, c_idiv_r, div64_q, div64_r, idiv64_q, idiv64_r,
}
use Relop.{interpret_relop}

abbrev pub Rtl : Type 0
Rtl = Cmd Machine (Unit {0})

unfoldable pub rtl_li : Loc → ℕ → Rtl
rtl_li dest imm = modify (put dest imm)

unfoldable pub rtl_mv : Loc → Loc → Rtl
rtl_mv dest src1 = modify λ m. put dest (get src1 m) m

-- `make_rtl_arith_logic`, for an operator that always has a value and for one that may trap.
abbrev pub arith_logic : (ℕ → ℕ → ℕ) → Loc → Loc → Loc → Rtl
arith_logic op dest src1 src2 = modify λ m. put dest (op (get src1 m) (get src2 m)) m

abbrev pub arith_trap : (ℕ → ℕ → Option ℕ) → Loc → Loc → Loc → Rtl
arith_trap op dest src1 src2 m = bind (op (get src1 m) (get src2 m)) (λ v. some (tt, put dest v m))

unfoldable pub rtl_add : Loc → Loc → Loc → Rtl
rtl_add = arith_logic c_add

unfoldable pub rtl_sub : Loc → Loc → Loc → Rtl
rtl_sub = arith_logic c_sub

unfoldable pub rtl_and : Loc → Loc → Loc → Rtl
rtl_and = arith_logic c_and

unfoldable pub rtl_or : Loc → Loc → Loc → Rtl
rtl_or = arith_logic c_or

unfoldable pub rtl_xor : Loc → Loc → Loc → Rtl
rtl_xor = arith_logic c_xor

unfoldable pub rtl_shl : Loc → Loc → Loc → Rtl
rtl_shl = arith_trap c_shl

unfoldable pub rtl_shr : Loc → Loc → Loc → Rtl
rtl_shr = arith_trap c_shr

unfoldable pub rtl_sar : Loc → Loc → Loc → Rtl
rtl_sar = arith_trap c_sar

unfoldable pub rtl_mul_lo : Loc → Loc → Loc → Rtl
rtl_mul_lo = arith_logic c_mul_lo

unfoldable pub rtl_mul_hi : Loc → Loc → Loc → Rtl
rtl_mul_hi = arith_logic c_mul_hi

unfoldable pub rtl_imul_lo : Loc → Loc → Loc → Rtl
rtl_imul_lo = arith_logic c_imul_lo

unfoldable pub rtl_imul_hi : Loc → Loc → Loc → Rtl
rtl_imul_hi = arith_logic c_imul_hi

unfoldable pub rtl_div_q : Loc → Loc → Loc → Rtl
rtl_div_q = arith_trap c_div_q

unfoldable pub rtl_div_r : Loc → Loc → Loc → Rtl
rtl_div_r = arith_trap c_div_r

unfoldable pub rtl_idiv_q : Loc → Loc → Loc → Rtl
rtl_idiv_q = arith_trap c_idiv_q

unfoldable pub rtl_idiv_r : Loc → Loc → Loc → Rtl
rtl_idiv_r = arith_trap c_idiv_r

-- The forms with an immediate go through `ir`, which they overwrite.
abbrev pub with_imm : (Loc → Loc → Loc → Rtl) → Loc → Loc → ℕ → Rtl
with_imm op dest src1 imm = rtl_li Loc.ir imm >> op dest src1 Loc.ir

unfoldable pub rtl_addi : Loc → Loc → ℕ → Rtl
unfolding rtl_add rtl_li
rtl_addi = with_imm rtl_add

unfoldable pub rtl_andi : Loc → Loc → ℕ → Rtl
unfolding rtl_and rtl_li
rtl_andi = with_imm rtl_and

unfoldable pub rtl_xori : Loc → Loc → ℕ → Rtl
unfolding rtl_xor rtl_li
rtl_xori = with_imm rtl_xor

unfoldable pub rtl_shli : Loc → Loc → ℕ → Rtl
unfolding rtl_shl rtl_li
rtl_shli = with_imm rtl_shl

unfoldable pub rtl_shri : Loc → Loc → ℕ → Rtl
unfolding rtl_shr rtl_li
rtl_shri = with_imm rtl_shr

abbrev div64 : (ℕ → ℕ → ℕ → Option ℕ) → Loc → Loc → Loc → Loc → Rtl
div64 op dest src1_hi src1_lo src2 m =
    bind (op (get src1_hi m) (get src1_lo m) (get src2 m)) (λ v. some (tt, put dest v m))

unfoldable pub rtl_div64_q : Loc → Loc → Loc → Loc → Rtl
rtl_div64_q = div64 div64_q

unfoldable pub rtl_div64_r : Loc → Loc → Loc → Loc → Rtl
rtl_div64_r = div64 div64_r

unfoldable pub rtl_idiv64_q : Loc → Loc → Loc → Loc → Rtl
rtl_idiv64_q = div64 idiv64_q

unfoldable pub rtl_idiv64_r : Loc → Loc → Loc → Loc → Rtl
rtl_idiv64_r = div64 idiv64_r

unfoldable pub rtl_lm : Loc → Loc → ℕ → Rtl
rtl_lm dest place len m =
    bind (on_bus (isa_vaddr_read (get place m) len) m) (λ (v, m'). some (tt, put dest v m'))

unfoldable pub rtl_sm : Loc → Loc → ℕ → Rtl
rtl_sm place src1 len m = on_bus (isa_vaddr_write (get place m) (get src1 m) len) m

unfoldable pub rtl_setrelop : ℕ → Loc → Loc → Loc → Rtl
rtl_setrelop relop dest src1 src2 m =
    bind (interpret_relop relop (get src1 m) (get src2 m)) (λ r. some (tt, put dest (to_bit r) m))

unfoldable pub rtl_setrelopi : ℕ → Loc → Loc → ℕ → Rtl
unfolding rtl_setrelop rtl_li
rtl_setrelopi relop dest src1 imm = do rtl_li Loc.ir imm; rtl_setrelop relop dest src1 Loc.ir

abbrev pub set_pc : ℕ → Machine → Machine
set_pc target m = record m { cpu = record (m.cpu) { pc = target } }

unfoldable pub decinfo_set_jmp : Bool → Machine → Machine
decinfo_set_jmp is_jmp m = record m { decinfo = record (m.decinfo) { is_jmp = is_jmp } }

unfoldable pub rtl_j : ℕ → Rtl
unfolding decinfo_set_jmp
rtl_j target = modify λ m. decinfo_set_jmp true (set_pc target m)

unfoldable pub rtl_jr : Loc → Rtl
unfolding decinfo_set_jmp
rtl_jr target = modify λ m. decinfo_set_jmp true (set_pc (get target m) m)

unfoldable pub rtl_jrelop : ℕ → Loc → Loc → ℕ → Rtl
unfolding decinfo_set_jmp
rtl_jrelop relop src1 src2 target m =
    bind (interpret_relop relop (get src1 m) (get src2 m))
      (λ is_jmp. some (tt, decinfo_set_jmp is_jmp (if is_jmp then set_pc target m else m)))

-- `~x` on 32 bits.
unfoldable pub c_not : ℕ → ℕ
c_not x = 2 ^ 32 - 1 - x

unfoldable pub rtl_not : Loc → Loc → Rtl
rtl_not dest src1 = modify λ m. put dest (c_not (get src1 m)) m

-- `x >> (width * 8 - 1)`: undefined unless the width is 1 to 4.
unfoldable pub shr_sign : ℕ → ℕ → Option ℕ
shr_sign x width = if width == 0 then none else c_shr x (width * 8 - 1)

-- One width of `rtl_sext`: the sign bit goes to `t0`, which decides how `dest` is filled. `src1` is
-- read again after that.
sext_width : ℕ → (ones zeros : ℕ) → Loc → Loc → Rtl
sext_width width ones zeros dest src1 m = bind (shr_sign (get src1 m) width) (λ v.
    let m' = put Loc.t0 (bit_and v 1) m in
    some (
      tt,
      put dest
          (if (get Loc.t0 m') == 0 then bit_and zeros (get src1 m') else bit_or ones (get src1 m'))
          m',
    ))

-- Other widths change nothing.
unfoldable pub rtl_sext : Loc → Loc → ℕ → Rtl
unfolding sext_width shr_sign
rtl_sext dest src1 width =
    if width == 1
    then sext_width 1 0xFFFFFF00 0x000000FF dest src1
    else if width == 2
    then sext_width 2 0xFFFF0000 0x0000FFFF dest src1
    else if width == 4
    then sext_width 4 0x00000000 0xFFFFFFFF dest src1
    else skip

unfoldable pub rtl_msb : Loc → Loc → ℕ → Rtl
unfolding shr_sign
rtl_msb dest src1 width m =
    bind (shr_sign (get src1 m) width) (λ v. some (tt, put dest (bit_and v 1) m))

-- `rtl_mux` is a TODO, which panics.
unfoldable pub rtl_mux : Loc → Loc → Loc → Loc → Rtl
rtl_mux dest cond src1 src2 = abort

-- A proof that steps through RTL code unfolds this name.
unfoldable pub rtl_steps : Unit {0}
unfolding get put rtl_li rtl_mv rtl_add rtl_sub rtl_and rtl_or rtl_xor rtl_shl rtl_shr rtl_sar
    rtl_mul_lo rtl_mul_hi rtl_imul_lo rtl_imul_hi rtl_div_q rtl_div_r rtl_idiv_q rtl_idiv_r rtl_addi
    rtl_andi rtl_xori rtl_shli rtl_shri rtl_div64_q rtl_div64_r rtl_idiv64_q rtl_idiv64_r
    rtl_setrelop rtl_j rtl_jr rtl_jrelop rtl_not rtl_msb
rtl_steps = tt
