-- ===== src/X86/Flags.antt =====
-- The x86 pseudo instructions on the stack and on EFLAGS: nemu/src/isa/x86/include/isa/rtl.h.
pub mod Values
pub mod Steps
use ics.Base.{ℕ, ◌-◌, ◌*◌, some, ◌==◌, leb, if◌then◌else◌, ◌>>◌, abort, modify, bind, bit_and}
use ics.Machine.{Machine, Eflags, Loc, get, put}
use ics.Rtl.{
  Rtl, rtl_and, rtl_xor, rtl_not, rtl_msb, rtl_shli, rtl_setrelop, rtl_lm, rtl_sm, shr_sign,
}
use ics.Rtl.Op.{c_add, c_sub}
use ics.Rtl.Relop.{code, relop_ltu}
use ics.X86.Reg.{r_esp}

abbrev pub esp : Loc
esp = Loc.gpr r_esp

unfoldable pub rtl_push : Loc → Rtl
rtl_push src1 = do modify λ m. put esp (c_sub (get esp m) 4) m; rtl_sm esp src1 4

unfoldable pub rtl_pop : Loc → Rtl
rtl_pop dest = do rtl_lm dest esp 4; modify λ m. put esp (c_add (get esp m) 4) m

unfoldable pub rtl_is_sub_overflow : Loc → Loc → Loc → Loc → ℕ → Rtl
unfolding rtl_xor rtl_and rtl_msb
rtl_is_sub_overflow dest res src1 src2 width = do
  rtl_xor Loc.t0 src1 src2
  rtl_xor Loc.t1 res src1
  rtl_and Loc.t0 Loc.t0 Loc.t1
  rtl_msb dest Loc.t0 width

unfoldable pub rtl_is_sub_carry : Loc → Loc → Loc → Rtl
unfolding rtl_setrelop
rtl_is_sub_carry dest res src1 = rtl_setrelop (code relop_ltu) dest src1 res

unfoldable pub rtl_is_add_overflow : Loc → Loc → Loc → Loc → ℕ → Rtl
unfolding rtl_not rtl_xor rtl_and rtl_msb
rtl_is_add_overflow dest res src1 src2 width = do
  rtl_not Loc.t0 src1
  rtl_xor Loc.t1 Loc.t0 src2
  rtl_xor Loc.t0 res src1
  rtl_and Loc.t0 Loc.t0 Loc.t1
  rtl_msb dest Loc.t0 width

unfoldable pub rtl_is_add_carry : Loc → Loc → Loc → Rtl
unfolding rtl_setrelop
rtl_is_add_carry dest res src1 = rtl_setrelop (code relop_ltu) dest res src1

abbrev pub eflags : Machine → Eflags
eflags m = m.cpu.eflags

abbrev pub set_eflags : Eflags → Machine → Machine
set_eflags f m = record m { cpu = record (m.cpu) { eflags = f } }

-- `make_rtl_setget_eflags`: a flag is set to 1 by any value but 0.
abbrev pub flag_of : ℕ → ℕ
flag_of v = if v == 0 then 0 else 1

unfoldable pub rtl_set_cf : Loc → Rtl
rtl_set_cf src = modify λ m. set_eflags (record (eflags m) { cf = flag_of (get src m) }) m

unfoldable pub rtl_set_of : Loc → Rtl
rtl_set_of src = modify λ m. set_eflags (record (eflags m) { of = flag_of (get src m) }) m

unfoldable pub rtl_set_zf : Loc → Rtl
rtl_set_zf src = modify λ m. set_eflags (record (eflags m) { zf = flag_of (get src m) }) m

unfoldable pub rtl_set_sf : Loc → Rtl
rtl_set_sf src = modify λ m. set_eflags (record (eflags m) { sf = flag_of (get src m) }) m

unfoldable pub rtl_get_cf : Loc → Rtl
rtl_get_cf dest = modify λ m. put dest (eflags m).cf m

unfoldable pub rtl_get_of : Loc → Rtl
rtl_get_of dest = modify λ m. put dest (eflags m).of m

unfoldable pub rtl_get_zf : Loc → Rtl
rtl_get_zf dest = modify λ m. put dest (eflags m).zf m

unfoldable pub rtl_get_sf : Loc → Rtl
rtl_get_sf dest = modify λ m. put dest (eflags m).sf m

-- `32 - width * 8` as a shift count; it is negative, and the shift undefined, from width 5 on.
abbrev zf_shift : ℕ → Loc → Loc → Rtl
zf_shift width dest src = if leb width 4 then rtl_shli dest src (32 - width * 8) else abort

unfoldable pub rtl_update_zf : Loc → ℕ → Rtl
unfolding rtl_shli
rtl_update_zf result width = do
  zf_shift width Loc.t0 result
  modify λ m. set_eflags (record (eflags m) { zf = if m.t0 == 0 then 1 else 0 }) m

unfoldable pub rtl_update_sf : Loc → ℕ → Rtl
unfolding shr_sign
rtl_update_sf result width m =
    bind (shr_sign (get result m) width)
      (λ v. some (tt, set_eflags (record (eflags m) { sf = bit_and v 1 }) m))

unfoldable pub rtl_update_zfsf : Loc → ℕ → Rtl
unfolding rtl_update_zf rtl_update_sf
rtl_update_zfsf result width = do rtl_update_zf result width; rtl_update_sf result width
