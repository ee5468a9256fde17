-- ===== src/X86/Flags/Steps.antt =====
-- What each flag computation of x86/include/isa/rtl.h leaves, in closed form.
use ics.Base.{ℕ, ◌-◌, ◌*◌, ◌%◌, ◌^◌, ◌<◌, ◌≡◌, some, ◌==◌, ltb, le→leb, to_bit}
use ics.Machine.{Machine, Loc, get, put, id_src, id_dest}
use ics.Rtl.{rtl_steps, c_not}
use ics.Rtl.Op.{c_and, c_xor}
use ics.Rtl.Relop.{relop_ltu_lem}
use ics.X86.Reg.Views.{IsWidth}
use ics.X86.Flags.{
  eflags, set_eflags, rtl_update_zfsf, rtl_is_sub_carry, rtl_is_add_carry, rtl_is_sub_overflow,
  rtl_is_add_overflow,
}
use ics.X86.Flags.Values.{sign_bit, shr_sign-bit, c_shl-zero}
use ics.X86.Operands.Write.{width-len}

pub sub_carry_step :
    (dest res src1 : Loc) (m : Machine)
    → rtl_is_sub_carry dest res src1 m
      ≡ some (tt, put dest (to_bit (ltb (get src1 m) (get res m))) m)
unfolding rtl_is_sub_carry
sub_carry_step dest res src1 m = rw (relop_ltu_lem (get src1 m) (get res m))

pub add_carry_step :
    (dest res src1 : Loc) (m : Machine)
    → rtl_is_add_carry dest res src1 m
      ≡ some (tt, put dest (to_bit (ltb (get res m) (get src1 m))) m)
unfolding rtl_is_add_carry
add_carry_step dest res src1 m = rw (relop_ltu_lem (get res m) (get src1 m))

-- ZF and SF set by the low `width` bytes of `x`.
abbrev pub with_zfsf : ℕ → ℕ → Machine → Machine
with_zfsf width x m =
    set_eflags (record (eflags m) { zf = to_bit (x % 256 ^ width == 0); sf = sign_bit width x }) m

-- The temporaries of the flag computations, overwritten.
abbrev pub scratch : ℕ → ℕ → ℕ → Machine → Machine
scratch a b i m = record m { t0 = a; t1 = b; ir = i }

-- The two temporaries that the instructions keep their results in.
abbrev pub IsResult : Loc → Type 0
IsResult Loc.s0 = Unit
IsResult Loc.s1 = Unit
IsResult _ = ⊥

pub zfsf_step :
    (l : Loc) {width : ℕ} (m : Machine)
    → IsResult l
    → IsWidth width
    → get l m < 2 ^ 32
    → (a : ℕ) × (i : ℕ) × (rtl_update_zfsf l width m
        ≡ some (tt, with_zfsf width (get l m) (record m { t0 = a; ir = i })))
unfolding rtl_update_zfsf rtl_steps
zfsf_step Loc.s0 {width} m r iw small =
    let (y, shifted, is_zero) = c_shl-zero m.s0 iw small in
    let (v, sf, sfv) = shr_sign-bit m.s0 iw in
    (y, 32 - width * 8, rw (le→leb (width-len iw).1, shifted, is_zero, sf, sfv))
zfsf_step Loc.s1 {width} m r iw small =
    let (y, shifted, is_zero) = c_shl-zero m.s1 iw small in
    let (v, sf, sfv) = shr_sign-bit m.s1 iw in
    (y, 32 - width * 8, rw (le→leb (width-len iw).1, shifted, is_zero, sf, sfv))
zfsf_step _ m r iw small = absurd r

-- The destination's and the source's values, which the overflow tests read.
abbrev pub dest_val : Machine → ℕ
dest_val m = m.decinfo.dest.val

abbrev pub src_val : Machine → ℕ
src_val m = m.decinfo.src.val

pub sub_overflow_step :
    (out res : Loc) {width : ℕ} (m : Machine)
    → IsResult res
    → IsWidth width
    → (a : ℕ) × (b : ℕ) × (rtl_is_sub_overflow out res (Loc.val id_dest) (Loc.val id_src) width m
        ≡ some (
          tt,
          put out
              (sign_bit width
                (c_and (c_xor (dest_val m) (src_val m)) (c_xor (get res m) (dest_val m))))
              (record m { t0 = a; t1 = b }),
        ))
unfolding rtl_is_sub_overflow rtl_steps
sub_overflow_step out Loc.s0 m r iw =
    let (v, e, ev) =
      shr_sign-bit (c_and (c_xor (dest_val m) (src_val m)) (c_xor m.s0 (dest_val m))) iw in
    (
      c_and (c_xor (dest_val m) (src_val m)) (c_xor m.s0 (dest_val m)),
      c_xor m.s0 (dest_val m),
      rw (e, ev),
    )
sub_overflow_step out Loc.s1 m r iw =
    let (v, e, ev) =
      shr_sign-bit (c_and (c_xor (dest_val m) (src_val m)) (c_xor m.s1 (dest_val m))) iw in
    (
      c_and (c_xor (dest_val m) (src_val m)) (c_xor m.s1 (dest_val m)),
      c_xor m.s1 (dest_val m),
      rw (e, ev),
    )
sub_overflow_step out _ m r iw = absurd r

pub add_overflow_step :
    (out res : Loc) {width : ℕ} (m : Machine)
    → IsResult res
    → IsWidth width
    → (a : ℕ) × (b : ℕ) × (rtl_is_add_overflow out res (Loc.val id_dest) (Loc.val id_src) width m
        ≡ some (
          tt,
          put out
              (sign_bit width
                (c_and (c_xor (get res m) (dest_val m)) (c_xor (c_not (dest_val m)) (src_val m))))
              (record m { t0 = a; t1 = b }),
        ))
unfolding rtl_is_add_overflow rtl_steps
add_overflow_step out Loc.s0 m r iw =
    let (v, e, ev) =
      shr_sign-bit (c_and (c_xor m.s0 (dest_val m)) (c_xor (c_not (dest_val m)) (src_val m))) iw in
    (
      c_and (c_xor m.s0 (dest_val m)) (c_xor (c_not (dest_val m)) (src_val m)),
      c_xor (c_not (dest_val m)) (src_val m),
      rw (e, ev),
    )
add_overflow_step out Loc.s1 m r iw =
    let (v, e, ev) =
      shr_sign-bit (c_and (c_xor m.s1 (dest_val m)) (c_xor (c_not (dest_val m)) (src_val m))) iw in
    (
      c_and (c_xor m.s1 (dest_val m)) (c_xor (c_not (dest_val m)) (src_val m)),
      c_xor (c_not (dest_val m)) (src_val m),
      rw (e, ev),
    )
add_overflow_step out _ m r iw = absurd r
