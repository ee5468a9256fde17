-- ===== src/X86/Exec/ShortJump.antt =====
-- A short conditional jump, from its two bytes in memory to the next program counter.
use ics.Base.{
  ℕ, suc, ◌+◌, ◌-◌, ◌/◌, ◌%◌, ◌^◌, ◌<◌, ◌≡◌, refl, ap, ◌∙◌, some, true, false, Bool, arith, Ends,
  ends, and_then, if◌then◌else◌, get_elem?, bit_and_mask, bit_and,
}
use mathlib.Core.Bool.{xor}
use ics.Bus.Host.{IsBytes}
use ics.Bus.Memory.{isa_vaddr_read}
use ics.Bus.Memory.Access.{InPmem, number, paddr_read-number}
use ics.Machine.{Machine, CpuState, Loc, op_type_imm, get, put}
use ics.Cpu.{instr_fetch, exec_once, update_pc}
use ics.X86.Cc.Conditions.{
  Cond, overflow, below, equal, below_or_equal, sign, less, less_or_equal, AreBits, subcode,
  cond_holds,
}
use ics.X86.Control.{exec_jcc}
use ics.X86.Control.Branch.{Branched, jcc-cond}
use ics.X86.Decode.Helpers.{decode_j}
use ics.X86.Decode.{decode_op_si}
use ics.X86.Arith.{width_of}
use ics.X86.DataMov.Extend.{sign_extended, extend8}
use ics.X86.Flags.Values.{sign_bit}
use ics.Rtl.{decinfo_set_jmp, rtl_sext, rtl_steps, shr_sign}
use ics.Rtl.Op.{c_shr}
use ics.X86.Exec.Table.{idexw}
use ics.X86.Exec.{opcode_table, isa_exec, set_width, dispatch, execute_helper}

-- Fetching one byte of code in physical memory.
pub fetch_byte :
    (m : Machine)
    → InPmem m.bus m.decinfo.seq_pc
    → IsBytes m.bus.pmem
    → instr_fetch Loc.seq_pc 1 m
      ≡ some (
        m.bus.pmem (m.decinfo.seq_pc - m.bus.pmem_low),
        put Loc.seq_pc ((m.decinfo.seq_pc + 1) % 2 ^ 32) m,
      )
unfolding instr_fetch isa_vaddr_read get put number
fetch_byte m i h =
    rw (paddr_read-number m.bus m.decinfo.seq_pc 1 i (omega arith) h)
      (ap (λ b. some (b, put Loc.seq_pc ((m.decinfo.seq_pc + 1) % 2 ^ 32) m)) (omega arith))

jcc_entry :
    (c : Cond) (negated : Bool)
    → get_elem? opcode_table (0x70 + subcode c negated) ≡ some (idexw decode_j exec_jcc 1)
unfolding opcode_table
jcc_entry overflow false = refl
jcc_entry overflow true = refl
jcc_entry below false = refl
jcc_entry below true = refl
jcc_entry equal false = refl
jcc_entry equal true = refl
jcc_entry below_or_equal false = refl
jcc_entry below_or_equal true = refl
jcc_entry sign false = refl
jcc_entry sign true = refl
jcc_entry less false = refl
jcc_entry less true = refl
jcc_entry less_or_equal false = refl
jcc_entry less_or_equal true = refl

sext_byte :
    (m : Machine)
    → m.s0 < 2 ^ 32
    → rtl_sext Loc.s1 Loc.s0 1 m
      ≡ some (tt, record m { s1 = sign_extended 1 m.s0; t0 = sign_bit 1 m.s0 })
unfolding rtl_sext rtl_steps c_shr shr_sign
sext_byte m h = rw (bit_and_mask 1 (m.s0 / 2 ^ 7), extend8 m.s0 h) refl

-- The byte of code at an address, and the state after the decoding of a short jump whose
-- displacement byte is `b`.
abbrev pub code_byte : Machine → ℕ → ℕ
code_byte m a = m.bus.pmem (a - m.bus.pmem_low)

abbrev after_j : ℕ → Machine → Machine
after_j b m = record m {
  s0 = b;
  s1 = sign_extended 1 b;
  t0 = sign_bit 1 b;
  decinfo = record (m.decinfo) {
    dest = record {
      type = op_type_imm;
      width = 1;
      word = sign_extended 1 b;
      val = sign_extended 1 b;
    };
    seq_pc = (m.decinfo.seq_pc + 1) % 2 ^ 32;
    jmp_pc = (sign_extended 1 b + (m.decinfo.seq_pc + 1) % 2 ^ 32) % 2 ^ 32;
  };
}

-- `m` once the width of an operand of one byte is set.
abbrev byte_wide : Machine → Machine
byte_wide m = record m {
  decinfo = record (m.decinfo) {
    src = record (m.decinfo.src) { width = 1 };
    dest = record (m.decinfo.dest) { width = 1 };
    src2 = record (m.decinfo.src2) { width = 1 };
  };
}

-- `m` with an immediate of one byte as its destination.
abbrev byte_immediate : Machine → Machine
byte_immediate m = record m {
  decinfo = record (m.decinfo) { dest = record (m.decinfo.dest) { type = op_type_imm; width = 1 } };
}

j_step :
    (m : Machine)
    → InPmem m.bus m.decinfo.seq_pc
    → IsBytes m.bus.pmem
    → decode_j (byte_wide m) ≡ some (tt, after_j (code_byte m m.decinfo.seq_pc) (byte_wide m))
unfolding decode_j decode_op_si rtl_steps width_of
j_step m i h =
    let b = code_byte m m.decinfo.seq_pc in
    let m1 = byte_immediate (byte_wide m) in
    let m2 : Machine = record (put Loc.seq_pc ((m.decinfo.seq_pc + 1) % 2 ^ 32) m1) { s0 = b } in
    let small : b < 2 ^ 32 = omega (arith, h (m.decinfo.seq_pc - m.bus.pmem_low)) in
    rw (fetch_byte m1 i h, sext_byte m2 small) refl

-- The machine when the instruction at its program counter is fetched.
abbrev started : Machine → Machine
started m = record m { decinfo = record (m.decinfo) { seq_pc = m.cpu.pc } }

-- The bytes of a short `jcc` at the program counter, with the condition's code in the first.
pub record IsShortJump (m : Machine) (c : Cond) (negated : Bool) : Type 0 where
  pub first : InPmem m.bus m.cpu.pc
  pub second : InPmem m.bus (m.cpu.pc + 1)
  pub small : m.cpu.pc + 2 < 2 ^ 32
  pub bytes : IsBytes m.bus.pmem
  pub opcode : code_byte m m.cpu.pc ≡ 0x70 + subcode c negated

-- The next program counter after a short jump whose condition answers `b`.
abbrev pub next_pc : Machine → Bool → ℕ
next_pc m b =
    if b
    then (sign_extended 1 (code_byte m (m.cpu.pc + 1)) + (m.cpu.pc + 2)) % 2 ^ 32
    else m.cpu.pc + 2

pub record Jumped (m : Machine) (b : Bool) (m' : Machine) : Type 0 where
  pub pc : m'.cpu.pc ≡ next_pc m b
  pub gpr : m'.cpu.gpr ≡ m.cpu.gpr
  pub eflags : m'.cpu.eflags ≡ m.cpu.eflags
  pub is_jmp : m'.decinfo.is_jmp ≡ false
  pub nemu_state : m'.nemu_state ≡ m.nemu_state
  pub bus : m'.bus ≡ m.bus

low_bits : (c : Cond) (negated : Bool) → bit_and (0x70 + subcode c negated) 0xf ≡ subcode c negated
low_bits overflow false = refl
low_bits overflow true = refl
low_bits below false = refl
low_bits below true = refl
low_bits equal false = refl
low_bits equal true = refl
low_bits below_or_equal false = refl
low_bits below_or_equal true = refl
low_bits sign false = refl
low_bits sign true = refl
low_bits less false = refl
low_bits less true = refl
low_bits less_or_equal false = refl
low_bits less_or_equal true = refl

-- The machine that `jcc` runs on.
abbrev jump_decoded : (m : Machine) → ℕ → Machine
jump_decoded m opcode = after_j (code_byte m (m.cpu.pc + 1)) (
    byte_wide
      (record m { decinfo = record (m.decinfo) { opcode = opcode; seq_pc = m.cpu.pc + 1 } }))

moved_on :
    (b : Bool) (m m' : Machine) (opcode : ℕ)
    → m.cpu.pc + 2 < 2 ^ 32
    → Branched b (jump_decoded m opcode) m'
    → Jumped m b (update_pc m')
unfolding update_pc decinfo_set_jmp
moved_on true m m' opcode h br = rw br.is_jmp record {
  pc = ap (λ (c : CpuState). c.pc) br.cpu ∙ omega arith;
  gpr = ap (λ (c : CpuState). c.gpr) br.cpu;
  eflags = ap (λ (c : CpuState). c.eflags) br.cpu;
  is_jmp = refl;
  nemu_state = br.nemu_state;
  bus = br.bus;
}
moved_on false m m' opcode h br = rw br.is_jmp record {
  pc = br.seq_pc ∙ omega arith;
  gpr = ap (λ (c : CpuState). c.gpr) br.cpu;
  eflags = ap (λ (c : CpuState). c.eflags) br.cpu;
  is_jmp = refl;
  nemu_state = br.nemu_state;
  bus = br.bus;
}

-- Where the two bytes at the program counter are a short `jcc` in physical memory, for a condition
-- other than parity or the negation of one, and EFLAGS has one-bit flags, `exec_once` with any
-- fuel but 0 returns. The next program counter is the address behind the instruction plus the signed
-- displacement if the condition (negated, where the code says so) holds of EFLAGS, and the address behind the instruction if
-- not; registers, flags, run state and bus stay, and `is_jmp` is clear.
pub exec_once-short_jump :
    (fuel : ℕ) (m : Machine) (c : Cond) (negated : Bool)
    → IsShortJump m c negated
    → AreBits m.cpu.eflags
    → Ends (Jumped m (xor (cond_holds c m.cpu.eflags) negated)) (exec_once (isa_exec (suc fuel)) m)
unfolding exec_once isa_exec dispatch set_width execute_helper put
exec_once-short_jump fuel m c negated code bits =
    let opcode = 0x70 + subcode c negated in
    let fetched : Machine = record m {
      decinfo = record (m.decinfo) { opcode = opcode; seq_pc = m.cpu.pc + 1 };
    } in
    let behind : (m.cpu.pc + 1) % 2 ^ 32 ≡ m.cpu.pc + 1 = omega (arith, code.small) in
    rw
      (
        fetch_byte (started m) code.first code.bytes,
        code.opcode,
        jcc_entry c negated,
        behind,
        j_step fetched code.second code.bytes,
      )
      (and_then _ (jcc-cond (jump_decoded m opcode) c negated bits (low_bits c negated))
        (λ u m' br. ends (moved_on _ m m' opcode code.small br)))
