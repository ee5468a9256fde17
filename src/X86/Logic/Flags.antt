-- ===== src/X86/Logic/Flags.antt =====
-- The destination and the flags after `and`, `or`, `xor` and `test`.
use ics.Base.{
  ℕ, ◌%◌, ◌^◌, ◌<◌, ◌≡◌, refl, some, ◌==◌, to_bit, bit_and, bit_or, bit_xor, bit_and-lt, bit_or-lt,
  bit_xor-lt, Ends, ends, step, weaken, Option, ◌>>◌,
}
use ics.Machine.{Machine, Loc, Eflags, id_dest}
use ics.Rtl.{Rtl, rtl_steps}
use ics.Rtl.Op.{c_and, c_or, c_xor}
use ics.X86.Flags.{rtl_set_cf, rtl_set_of, eflags, set_eflags}
use ics.X86.Flags.Steps.{zfsf_step}
use ics.X86.Flags.Values.{sign_bit}
use ics.X86.Operands.{operand_write}
use ics.X86.Operands.Write.{Writable, holds, stored, operand_write-holds}
use ics.X86.Logic.{exec_and, exec_or, exec_xor, clear_cf_of, update_dest_zfsf}
use ics.X86.Arith.{width_of}

-- The flags of a logic result `r`, as the manual defines them.
pub record LogicFlags (width r : ℕ) (f : Eflags) : Type 0 where
  pub carry : f.cf ≡ 0
  pub overflow : f.of ≡ 0
  pub zero : f.zf ≡ to_bit (r % 256 ^ width == 0)
  pub sign : f.sf ≡ sign_bit width r

-- The result `r`, stored in the destination and described by the flags.
pub record LogicDone (m : Machine) (r : ℕ) (m' : Machine) : Type 0 where
  pub flags : LogicFlags m.decinfo.dest.width r m'.cpu.eflags
  pub dest : holds m.decinfo.dest m' ≡ some (r % 256 ^ m.decinfo.dest.width)
  pub pc : m'.cpu.pc ≡ m.cpu.pc
  pub decinfo : m'.decinfo ≡ m.decinfo
  pub nemu_state : m'.nemu_state ≡ m.nemu_state

-- `m` with CF and OF clear.
abbrev cleared : Machine → Machine
cleared m = set_eflags (record (eflags m) { cf = 0; of = 0 }) (record m { ir = 0 })

abbrev write_flags : Rtl
write_flags m = (do operand_write id_dest Loc.s0; clear_cf_of; update_dest_zfsf) m

finish : (m : Machine) → Writable m → m.s0 < 2 ^ 32 → Ends (LogicDone m m.s0) (write_flags m)
unfolding rtl_set_cf rtl_set_of rtl_steps width_of
finish m can small =
    let (gpr, bus, wrote, is, still) = operand_write-holds Loc.s0 m can small in
    let m1 = cleared (stored gpr bus m) in
    let (a, i, zfsf) = zfsf_step Loc.s0 m1 tt can.width small in
    step _ wrote (
      rw zfsf (
        ends record {
          flags = record { carry = refl; overflow = refl; zero = refl; sign = refl };
          dest = is;
          pc = refl;
          decinfo = refl;
          nemu_state = refl;
        }))

-- What is left of a machine whose `s0` alone was set before.
from_s0 :
    {m : Machine} (r : ℕ) {o : Option (Unit {0} × Machine)}
    → Ends (LogicDone (record m { s0 = r }) r) o
    → Ends (LogicDone m r) o
from_s0 r e = weaken e (λ m' done. record {
  flags = done.flags;
  dest = done.dest;
  pc = done.pc;
  decinfo = done.decinfo;
  nemu_state = done.nemu_state;
})

-- On a destination that can be written and 32-bit operand values, `and`, `or` and `xor` return; the
-- destination then holds the bitwise result modulo its width, CF and OF are 0, ZF and SF
-- describe the result at that width, and the program counter, the decoded instruction and the run
-- state stay.
pub logic-LogicFlags :
    (m : Machine)
    → Writable m
    → m.decinfo.dest.val < 2 ^ 32
    → m.decinfo.src.val < 2 ^ 32
    → Ends (LogicDone m (bit_and m.decinfo.dest.val m.decinfo.src.val)) (exec_and m)
      × Ends (LogicDone m (bit_or m.decinfo.dest.val m.decinfo.src.val)) (exec_or m)
      × Ends (LogicDone m (bit_xor m.decinfo.dest.val m.decinfo.src.val)) (exec_xor m)
unfolding exec_and exec_or exec_xor c_and c_or c_xor rtl_steps
logic-LogicFlags m can hd hs =
    let d = m.decinfo.dest.val in
    let s = m.decinfo.src.val in
    (
      from_s0 (bit_and d s) (finish (record m { s0 = bit_and d s }) can (bit_and-lt 32 d s hd)),
      from_s0 (bit_or d s) (finish (record m { s0 = bit_or d s }) can (bit_or-lt 32 d s hd hs)),
      from_s0 (bit_xor d s) (finish (record m { s0 = bit_xor d s }) can (bit_xor-lt 32 d s hd hs)),
    )
