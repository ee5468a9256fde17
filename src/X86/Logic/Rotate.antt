-- ===== src/X86/Logic/Rotate.antt =====
-- What `rol` does: its loop reads the decoded value again in every round.
use ics.Base.{
  ℕ, zero, suc, ◌+◌, ◌*◌, ◌%◌, ◌^◌, ◌<◌, ◌≡◌, refl, some, arith, lt→ltb, Ends, ends, step, and_then,
  weaken, ap, ◌∙◌, bit_xor,
}
use ics.Machine.{Machine, DecodeInfo, Loc, id_dest}
use ics.Rtl.{rtl_steps, rtl_msb}
use ics.Rtl.Op.{c_add, c_shl, c_xor}
use ics.X86.Reg.Views.{IsWidth}
use ics.X86.Flags.{rtl_set_cf, rtl_set_of, rtl_get_cf, set_eflags, eflags, flag_of}
use ics.X86.Flags.Values.{sign_bit, shr_sign-bit}
use ics.X86.Operands.Write.{Writable, holds, operand_write-holds}
use ics.X86.Logic.{exec_rol, rol_round, rol_loop}
use ics.X86.Arith.{width_of}

-- The value rotated left by one bit, with the bits above the width.
abbrev pub rotated : ℕ → ℕ → ℕ
rotated width x = (sign_bit width x + x * 2 % 2 ^ 32) % 2 ^ 32

rotated-lt : (width x : ℕ) → rotated width x < 2 ^ 32
rotated-lt width x = omega arith

-- One round, on a machine whose decoded operand is that of `m`: it writes the same value whatever
-- the rounds before it wrote.
pub record Round (m : Machine) (m' : Machine) : Type 0 where
  pub decinfo : m'.decinfo ≡ m.decinfo
  pub pc : m'.cpu.pc ≡ m.cpu.pc
  pub dest :
      holds m.decinfo.dest m'
      ≡ some (rotated m.decinfo.dest.width m.decinfo.dest.val % 256 ^ m.decinfo.dest.width)
  pub carry : m'.cpu.eflags.cf ≡ sign_bit m.decinfo.dest.width m.decinfo.dest.val
  pub writable : Writable m'

flag_of-bit : (x : ℕ) → x < 2 → flag_of x ≡ x
flag_of-bit x h = ground arith

msb_step :
    (m : Machine) {width : ℕ}
    → IsWidth width
    → rtl_msb Loc.s0 (Loc.val id_dest) width m
      ≡ some (tt, record m { s0 = sign_bit width m.decinfo.dest.val })
unfolding rtl_steps
msb_step m w = let (v, e, ev) = shr_sign-bit m.decinfo.dest.val w in rw (e, ev) refl

rol_round-Round : (m : Machine) → Writable m → Ends (Round m) (rol_round m)
unfolding rol_round rtl_steps rtl_set_cf rtl_set_of rtl_get_cf width_of c_shl c_add c_xor
rol_round-Round m can =
    let w = m.decinfo.dest.width in
    let d = m.decinfo.dest.val in
    let m0 : Machine = record m { s1 = m.cpu.eflags.cf } in
    let m1 : Machine = record m {
      s0 = sign_bit w d;
      s1 = bit_xor (sign_bit w d) m.cpu.eflags.cf;
    } in
    let m2 : Machine = set_eflags (record (eflags m1) { of = flag_of m1.s1 }) m1 in
    let m3 : Machine = record m2 { s1 = rotated w d; ir = 1 } in
    let (gpr, bus, wrote, is, still) = operand_write-holds Loc.s1 m3 can (rotated-lt w d) in
    step _ (msb_step m0 can.width) (
      step _ wrote (
        ends record {
          decinfo = refl;
          pc = refl;
          dest = is;
          carry = flag_of-bit (sign_bit w d) (omega arith);
          writable = record {
            width = still.width;
            place = still.place;
            words = still.words;
            bytes = still.bytes;
          };
        }))

-- A round after another does again what the first did.
again : {m m' m'' : Machine} → Round m m' → Round m' m'' → Round m m''
again {m} {m'} {m''} r q =
    let e : m'.decinfo.dest ≡ m.decinfo.dest = ap (λ (d : DecodeInfo). d.dest) r.decinfo in
    record {
      decinfo = q.decinfo ∙ r.decinfo;
      pc = q.pc ∙ r.pc;
      dest = rw e at q.dest;
      carry = rw e at q.carry;
      writable = q.writable;
    }

rounds : (t : ℕ) (m : Machine) → Writable m → Ends (Round m) (rol_loop (suc t) m)
unfolding rol_loop
rounds zero m can = and_then _ (rol_round-Round m can) (λ u m' r. ends r)
rounds (suc t) m can =
    and_then _ (rol_round-Round m can)
      (λ u m' r. weaken (rounds t m' r.writable) (λ m'' q. again r q))

-- On a destination that can be written, `rol` by any count from 1 to 2^31 - 1 returns, and whatever the count is
-- the destination holds its decoded value rotated left by one bit only, with CF the value's most
-- significant bit; the decoded instruction and the program counter stay.
pub rol-once :
    (m : Machine)
    → Writable m
    → 0 < m.decinfo.src.val
    → m.decinfo.src.val < 2 ^ 31
    → Ends (Round m) (exec_rol m)
unfolding exec_rol
rol-once m can h k = rw (lt→ltb m.decinfo.src.val (2 ^ 31) k) (many m.decinfo.src.val h)
  where
    many : (n : ℕ) → 0 < n → Ends (Round m) (rol_loop n m)
    many zero h = absurd (omega arith)
    many (suc t) h = rounds t m can
