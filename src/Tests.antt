-- ===== src/Tests.antt =====
-- Concrete machines, and the theorems at them.
mod Debugger
mod Execution
mod Expressions
mod Image
mod Instructions
mod References
mod Risc
mod Tools
mod Values
mod Storage
mod Watchpoints
use ics.Base.{
  ℕ, ◌+◌, ◌-◌, ◌*◌, ◌/◌, ◌%◌, ◌^◌, ◌<◌, ◌≤◌, ◌≡◌, refl, inl, inr, none, some, true, false, not,
  arith, [], ◌==◌, Ends, if◌then◌else◌, bit_and, bit_or, bit_xor, Bool, Option, List, ◌∷◌,
}
use mathlib.Core.Bool.{xor}
use ics.Bus.{Bus, Devices, IoMap, pmem_size}
use ics.Bus.Queue.{KeyQueue}
use ics.Machine.{
  Machine, CpuState, Eflags, Operand, OpType, op_type_reg, op_type_mem, op_type_imm, DecodeInfo,
  NemuState, nemu_running,
}
use ics.Rtl.Op.{c_sub}
use ics.X86.Operands.Write.{Writable}
use ics.X86.Cc.Conditions.{AreBits, subcode, less, cond_holds, setcc-cond, Answered}
use ics.X86.Cc.{rtl_setcc}
use ics.X86.Control.{exec_jcc, exec_call, exec_ret}
use ics.X86.Control.Branch.{Branched, jcc-cond}
use ics.X86.Control.Relation.{cmp-jcc, decoded, relation}
use ics.X86.Control.Return.{HasRoom, Returned, call-ret}
use ics.X86.Arith.{exec_cmp}

abbrev pub no_keys : KeyQueue
no_keys = record { key_queue = λ i. 0; key_f = 0; key_r = 0 }

abbrev pub devices : Devices
devices = record {
  serial_ch_base = 0;
  rtc_port_base = 0;
  i8042_data_port_base = 0;
  screensize_port_base = 0;
  sync_port_base = 0;
  vmem = 0;
  keys = no_keys;
  out = [];
  clock = [];
  shown = λ i. 0;
}

abbrev pub vmem_map : IoMap
vmem_map = record { low = 0xa0000000; high = 0xa007cfff; space = 4096; callback = none }

abbrev pub bus : Bus
bus = record {
  pmem = λ i. i % 256;
  pmem_low = 0;
  pmem_high = pmem_size - 1;
  mmio_maps = vmem_map ∷ [];
  pio_maps = [];
  io_space = λ i. 0;
  p_space = 8192;
  dev = devices;
}

abbrev pub flags : Eflags
flags = record {
  cf = 0;
  not_concerned1 = 1;
  pf = 0;
  not_concerned2 = 0;
  af = 0;
  not_concerned3 = 0;
  zf = 0;
  sf = 1;
  not_concerned4 = 0;
  of = 0;
  not_concerned = 0;
}

-- A register operand, and a memory operand.
abbrev pub register : ℕ → ℕ → ℕ → Operand
register r width v = record { type = op_type_reg; width = width; word = r; val = v }

abbrev pub cell : ℕ → ℕ → ℕ → Operand
cell a width v = record { type = op_type_mem; width = width; word = a; val = v }

abbrev pub instruction : ℕ → Operand → Operand → DecodeInfo
instruction opcode source destination = record {
  opcode = opcode;
  width = 4;
  seq_pc = 0x100005;
  is_jmp = false;
  jmp_pc = 0x100020;
  src = source;
  dest = destination;
  src2 = source;
  is_operand_size_16 = false;
  ext_opcode = 0;
}

abbrev pub machine : DecodeInfo → Machine
machine d = record {
  cpu = record { gpr = λ i. if i == 4 then 0x7c00 else i % 256; pc = 0x100000; eflags = flags };
  s0 = 0;
  s1 = 0;
  s2 = 0;
  t0 = 0;
  t1 = 0;
  ir = 0;
  decinfo = d;
  nemu_state = record { state = nemu_running; halt_pc = 0; halt_ret = 0 };
  bus = bus;
}

-- `cmp $-1, %ecx` with 3 in the register, and `jl` behind it.
abbrev pub compared : DecodeInfo
compared = instruction 0x81 (register 2 4 0xffffffff) (register 1 4 3)

abbrev pub jump_less : DecodeInfo
jump_less = instruction 0x7c (register 2 4 0) (register 1 4 0)

-- `add $5, %ecx` with 2^32 - 3 in the register.
abbrev pub added : DecodeInfo
added = instruction 0 (register 2 4 5) (register 1 4 0xfffffffd)

-- `machine d` can write its destination, if that is one of the eight registers at 32 bits.
pub writes_register :
    (source : Operand) (r v : ℕ)
    → r < 8
    → Writable (machine (instruction 0 source (register r 4 v)))
writes_register source r v h = record {
  width = inr (inr refl);
  place = h;
  words = λ i. ground arith;
  bytes = λ q. omega arith;
}

pub has_room : (d : DecodeInfo) → HasRoom (machine d)
unfolding c_sub
has_room d = record { place = omega arith; bytes = λ q. omega arith; small = omega arith }

pub flags-AreBits : AreBits flags
flags-AreBits = record { cf = omega arith; zf = omega arith; sf = omega arith; of = omega arith }
