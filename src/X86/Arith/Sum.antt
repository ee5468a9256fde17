-- ===== src/X86/Arith/Sum.antt =====
-- The destination and the flags after `add`.
use ics.Base.{
  ℕ, ◌+◌, ◌*◌, ◌%◌, ◌^◌, ◌<◌, ◌≡◌, refl, ap, ◌∙◌, ◌==◌, ltb, leb, to_bit, not, signed, ◌+ℤ◌, Ends,
  ends, step, some,
}
use ics.Machine.{Machine, Loc, id_dest, Eflags}
use ics.Rtl.{c_not}
use ics.Rtl.Op.{c_add, c_xor, c_and}
use ics.X86.Reg.Views.{IsWidth}
use ics.X86.Flags.{rtl_set_cf, rtl_set_of, eflags, set_eflags, flag_of}
use ics.X86.Flags.Steps.{zfsf_step, add_carry_step, add_overflow_step, with_zfsf}
use ics.X86.Flags.Values.{
  in_range, sign_bit, add_overflow, add_carry, width-lt, c_add-lt, add_mod, flag_of-to_bit,
}
use ics.X86.Operands.Write.{Writable, holds, stored, operand_write-holds}
use ics.X86.Arith.{exec_add}

-- The flags of `d + s` at a width: CF is the carry out of bit 31, whatever the width.
pub record AddFlags (width d s : ℕ) (f : Eflags) : Type 0 where
  pub carry : f.cf ≡ to_bit (leb (2 ^ 32) (d + s))
  pub zero : f.zf ≡ to_bit ((d + s) % 256 ^ width == 0)
  pub sign : f.sf ≡ sign_bit width (c_add d s)
  pub overflow :
      f.of ≡ to_bit (not (in_range (width * 8) (signed (width * 8) d +ℤ signed (width * 8) s)))

module _ (m : Machine) where
  abbrev d : ℕ
  d = m.decinfo.dest.val

  abbrev s : ℕ
  s = m.decinfo.src.val

  abbrev w : ℕ
  w = m.decinfo.dest.width

  abbrev computed : Eflags
  computed = record (m.cpu.eflags) {
    cf = flag_of (to_bit (ltb (c_add d s) d));
    zf = to_bit (c_add d s % 256 ^ w == 0);
    sf = sign_bit w (c_add d s);
    of = flag_of (sign_bit w (c_and (c_xor (c_add d s) d) (c_xor (c_not d) s)));
  }

  sum : IsWidth w → d < 256 ^ w → s < 256 ^ w → AddFlags w d s computed
  sum iw hd hs = record {
    carry = rw (flag_of-to_bit, add_carry d s (width-lt d iw hd) (width-lt s iw hs));
    zero = rw (add_mod d s iw);
    sign = refl;
    overflow = rw (add_overflow d s iw hd hs, flag_of-to_bit);
  }

  -- On a destination that can be written and operand values of its width, `add` returns with the
  -- sum, modulo the width, in the destination; ZF, SF and OF are the manual's for that width, and
  -- CF is the carry out of bit 31 at every width. Program counter, decoded instruction and run state
  -- stay.
  pub add-AddFlags :
      Writable m
      → d < 256 ^ w
      → s < 256 ^ w
      → Ends
          (λ m'.
            AddFlags w d s m'.cpu.eflags
            × (holds m.decinfo.dest m' ≡ some ((d + s) % 256 ^ w))
            × (m'.cpu.pc ≡ m.cpu.pc)
            × (m'.decinfo ≡ m.decinfo)
            × (m'.nemu_state ≡ m.nemu_state))
          (exec_add m)
  unfolding exec_add rtl_set_cf rtl_set_of
  add-AddFlags can hd hs =
      let iw = can.width in
      let r = c_add d s in
      let m1 : Machine = record m { s0 = r; s1 = to_bit (ltb r d) } in
      let (gpr, bus, wrote, is, still) = operand_write-holds Loc.s0 m1 can (c_add-lt d s) in
      let m2 = stored gpr bus m1 in
      let (a, i, zfsf) = zfsf_step Loc.s0 m2 tt iw (c_add-lt d s) in
      let m3 = with_zfsf w r (record m2 { t0 = a; ir = i }) in
      let m4 = set_eflags (record (eflags m3) { cf = flag_of (to_bit (ltb r d)) }) m3 in
      let (b, c, over) = add_overflow_step Loc.s1 Loc.s0 m4 tt iw in
      step _ (add_carry_step Loc.s1 Loc.s0 (Loc.val id_dest) (record m { s0 = r })) (
        step _ wrote (
          step _ zfsf
            (step _ over (ends (sum iw hd hs, is ∙ ap some (add_mod d s iw), refl, refl, refl)))))
