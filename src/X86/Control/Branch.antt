-- ===== src/X86/Control/Branch.antt =====
-- Conditional jumps, and what they mean after a comparison.
use ics.Base.{
  ◌≡◌, refl, ap, Bool, true, false, Ends, ends, and_then, bit_and, if◌then◌else◌, not, ◌==◌,
}
use mathlib.Core.Bool.{xor}
use ics.Machine.{DecodeInfo, Machine, Loc}
use ics.Rtl.{Rtl, rtl_jrelop, rtl_steps, set_pc, decinfo_set_jmp}
use ics.Rtl.Relop.{code, relop_ne, relop_ne_lem}
use ics.X86.Cc.Conditions.{Answered, Cond, AreBits, subcode, cond_holds, setcc-cond}
use ics.X86.Control.{exec_jcc}

-- What `jcc` leaves when the condition's answer is `b`: the program counter is the target if it is
-- taken, `is_jmp` says which, and registers, flags, run state and bus stay.
pub record Branched (b : Bool) (m m' : Machine) : Type 0 where
  pub cpu : m'.cpu ≡ (if b then set_pc m.decinfo.jmp_pc m else m).cpu
  pub is_jmp : m'.decinfo.is_jmp ≡ b
  pub seq_pc : m'.decinfo.seq_pc ≡ m.decinfo.seq_pc
  pub nemu_state : m'.nemu_state ≡ m.nemu_state
  pub bus : m'.bus ≡ m.bus

-- The end of `jcc`: a jump if `s0` is not zero.
abbrev jump_if : Rtl
jump_if m' = rtl_jrelop (code relop_ne) Loc.s0 Loc.s1 m'.decinfo.jmp_pc (record m' { s1 = 0 })

branched : (b : Bool) (m m' : Machine) → Answered m b m' → Ends (Branched b m) (jump_if m')
unfolding rtl_steps decinfo_set_jmp
branched true m m' (e, cpu, dec, nemu, bus) =
    let taken : not (m'.s0 == 0) ≡ true = rw e refl in
    rw (relop_ne_lem m'.s0 0, taken)
      (ends record {
        cpu = rw (cpu, dec) refl;
        is_jmp = refl;
        seq_pc = ap (λ (d : DecodeInfo). d.seq_pc) dec;
        nemu_state = nemu;
        bus = bus;
      })
branched false m m' (e, cpu, dec, nemu, bus) =
    let taken : not (m'.s0 == 0) ≡ false = rw e refl in
    rw (relop_ne_lem m'.s0 0, taken)
      (ends record {
        cpu = cpu;
        is_jmp = refl;
        seq_pc = ap (λ (d : DecodeInfo). d.seq_pc) dec;
        nemu_state = nemu;
        bus = bus;
      })

-- On one-bit flags, a `jcc` whose opcode's low four bits are the code of a condition other than
-- parity, or of the negation of one, returns; it is taken exactly where the condition (negated,
-- where the code says so) holds of EFLAGS. If it is taken, `cpu.pc` is the target and `is_jmp` is
-- set; if not, `cpu` is unchanged and `is_jmp` clear. The rest of the machine but the RTL temporaries stays.
pub jcc-cond :
    (m : Machine) (c : Cond) (negated : Bool)
    → AreBits m.cpu.eflags
    → bit_and m.decinfo.opcode 0xf ≡ subcode c negated
    → Ends (Branched (xor (cond_holds c m.cpu.eflags) negated) m) (exec_jcc m)
unfolding exec_jcc rtl_steps
jcc-cond m c negated v e =
    rw e (and_then _ (setcc-cond m c negated v) (λ t m' answer. branched _ m m' answer))
