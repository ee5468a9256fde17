-- ===== src/X86/Arith/Compare.antt =====
-- The flags after `sub` and `cmp`.
use ics.Base.{
  ℕ, ◌*◌, ◌%◌, ◌^◌, ◌<◌, ◌≡◌, refl, ap, some, ◌==◌, ltb, to_bit, not, signed, ◌-ℤ◌, Ends, ends,
  step,
}
use ics.Machine.{Machine, Loc, id_dest, Eflags, put}
use ics.Rtl.Op.{c_sub, c_xor, c_and}
use ics.X86.Reg.Views.{IsWidth}
use ics.X86.Flags.{rtl_set_cf, rtl_set_of, eflags, set_eflags, flag_of}
use ics.X86.Flags.Steps.{zfsf_step, sub_carry_step, sub_overflow_step, with_zfsf}
use ics.X86.Flags.Values.{
  in_range, sign_bit, sub_overflow, sub_carry, width-lt, c_sub-lt, sub_zero, flag_of-to_bit,
}
use ics.X86.Operands.Write.{Writable, holds, stored, operand_write-holds}
use ics.X86.Arith.{exec_cmp, exec_sub}

-- The flags of `d - s` at a width, as the i386 manual defines them.
pub record SubFlags (width d s : ℕ) (f : Eflags) : Type 0 where
  pub carry : f.cf ≡ to_bit (ltb d s)
  pub zero : f.zf ≡ to_bit (d == s)
  pub sign : f.sf ≡ sign_bit width (c_sub d s)
  pub overflow :
      f.of ≡ to_bit (not (in_range (width * 8) (signed (width * 8) d -ℤ signed (width * 8) s)))

module _ (m : Machine) where
  abbrev d : ℕ
  d = m.decinfo.dest.val

  abbrev s : ℕ
  s = m.decinfo.src.val

  abbrev w : ℕ
  w = m.decinfo.dest.width

  -- The flags that the computations of the code amount to.
  abbrev computed : Eflags
  computed = record (m.cpu.eflags) {
    cf = flag_of (to_bit (ltb d (c_sub d s)));
    zf = to_bit (c_sub d s % 256 ^ w == 0);
    sf = sign_bit w (c_sub d s);
    of = flag_of (sign_bit w (c_and (c_xor d s) (c_xor (c_sub d s) d)));
  }

  difference : IsWidth w → d < 256 ^ w → s < 256 ^ w → SubFlags w d s computed
  difference iw hd hs = record {
    carry = rw (flag_of-to_bit, sub_carry d s (width-lt d iw hd) (width-lt s iw hs));
    zero = ap to_bit (sub_zero d s iw hd hs);
    sign = refl;
    overflow = rw (sub_overflow d s iw hd hs, flag_of-to_bit);
  }

  -- What `cmp` and the flag part of `sub` leave alone.
  abbrev pub Untouched : Machine → Type 0
  Untouched m' =
      (m'.cpu.gpr ≡ m.cpu.gpr)
      × (m'.cpu.pc ≡ m.cpu.pc)
      × (m'.decinfo ≡ m.decinfo)
      × (m'.nemu_state ≡ m.nemu_state)
      × (m'.bus ≡ m.bus)

  -- On operand values of the destination's width, 1, 2 or 4, `cmp` returns with CF, ZF, SF and OF as
  -- the manual defines them for the difference: an unsigned borrow, equality, the sign of the
  -- result, and a signed difference out of range. Registers, program counter, decoded instruction,
  -- run state and bus stay.
  pub cmp-SubFlags :
      IsWidth w
      → d < 256 ^ w
      → s < 256 ^ w
      → Ends (λ m'. SubFlags w d s m'.cpu.eflags × Untouched m') (exec_cmp m)
  unfolding exec_cmp rtl_set_cf rtl_set_of
  cmp-SubFlags iw hd hs =
      let r = c_sub d s in
      let m1 : Machine = record m { s0 = r } in
      let (a, i, zfsf) = zfsf_step Loc.s0 m1 tt iw (c_sub-lt d s) in
      let m2 = with_zfsf w r (record m1 { t0 = a; ir = i }) in
      let m3 = put Loc.s1 (to_bit (ltb d r)) m2 in
      let m4 = set_eflags (record (eflags m3) { cf = flag_of (to_bit (ltb d r)) }) m3 in
      let (b, c, over) = sub_overflow_step Loc.s1 Loc.s0 m4 tt iw in
      step _ zfsf (
        step _ (sub_carry_step Loc.s1 Loc.s0 (Loc.val id_dest) m2)
          (step _ over (ends (difference iw hd hs, (refl, refl, refl, refl, refl)))))

  -- On a destination that can be written and operand values of its width, `sub` returns with the
  -- flags of the difference and the difference, modulo the width, in the destination; program
  -- counter, decoded instruction and run state stay.
  pub sub-SubFlags :
      Writable m
      → d < 256 ^ w
      → s < 256 ^ w
      → Ends
          (λ m'.
            SubFlags w d s m'.cpu.eflags
            × (holds m.decinfo.dest m' ≡ some (c_sub d s % 256 ^ w))
            × (m'.cpu.pc ≡ m.cpu.pc)
            × (m'.decinfo ≡ m.decinfo)
            × (m'.nemu_state ≡ m.nemu_state))
          (exec_sub m)
  unfolding exec_sub rtl_set_cf rtl_set_of
  sub-SubFlags can hd hs =
      let iw = can.width in
      let r = c_sub d s in
      let m1 : Machine = record m { s0 = r; s1 = to_bit (ltb d r) } in
      let (gpr, bus, wrote, is, still) = operand_write-holds Loc.s0 m1 can (c_sub-lt d s) in
      let m2 = stored gpr bus m1 in
      let (a, i, zfsf) = zfsf_step Loc.s0 m2 tt iw (c_sub-lt d s) in
      let m3 = with_zfsf w r (record m2 { t0 = a; ir = i }) in
      let m4 = set_eflags (record (eflags m3) { cf = flag_of (to_bit (ltb d r)) }) m3 in
      let (b, c, over) = sub_overflow_step Loc.s1 Loc.s0 m4 tt iw in
      step _ (sub_carry_step Loc.s1 Loc.s0 (Loc.val id_dest) (record m { s0 = r })) (
        step _ wrote (step _ zfsf (step _ over (ends (difference iw hd hs, is, refl, refl, refl)))))
