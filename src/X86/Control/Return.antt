-- ===== src/X86/Control/Return.antt =====
-- Calls and returns.
use ics.Base.{ℕ, ◌^◌, ◌<◌, ◌≡◌, refl, arith, Ends, ends, true}
use ics.Bus.Host.{IsBytes}
use ics.Bus.Memory.{isa_vaddr_write, isa_vaddr_read}
use ics.Bus.Memory.Access.{InPmem, paddr_read-paddr_write}
use ics.Machine.{Machine, DecodeInfo}
use ics.Rtl.{rtl_steps, rtl_sm, rtl_lm, decinfo_set_jmp}
use ics.Rtl.Op.{c_sub, c_add}
use ics.X86.Reg.{r_esp}
use ics.X86.Flags.{rtl_push, rtl_pop}
use ics.X86.Control.{exec_call, exec_ret}
use ics.X86.Control.Relation.{decoded}

-- The stack pointer of `m`, and a stack with room for one more word in physical memory.
abbrev pub esp_of : Machine → ℕ
esp_of m = m.cpu.gpr r_esp

pub record HasRoom (m : Machine) : Type 0 where
  pub place : InPmem m.bus (c_sub (esp_of m) 4)
  pub bytes : IsBytes m.bus.pmem
  pub small : esp_of m < 2 ^ 32

-- A call that has returned: the program goes on behind the call, with the stack pointer it had.
pub record Returned (m m' : Machine) : Type 0 where
  pub pc : m'.cpu.pc ≡ m.decinfo.seq_pc
  pub is_jmp : m'.decinfo.is_jmp ≡ true
  pub gpr : (i : ℕ) → m'.cpu.gpr i ≡ m.cpu.gpr i
  pub eflags : m'.cpu.eflags ≡ m.cpu.eflags
  pub nemu_state : m'.nemu_state ≡ m.nemu_state

-- Popping what was pushed restores the stack pointer.
pub restored : (x : ℕ) → x < 2 ^ 32 → c_add (c_sub x 4) 4 ≡ x
unfolding c_add c_sub
restored x h = omega arith

-- With a stack that has room in physical memory and a 32-bit return address, `call` returns with
-- `cpu.pc` at its target, and a `ret` decoded right after it returns with `cpu.pc` at the address behind the
-- call, a jump; every register, the flags and the run state are those before the call.
pub call-ret :
    (m : Machine) (next : DecodeInfo)
    → HasRoom m
    → m.decinfo.seq_pc < 2 ^ 32
    → Ends
        (λ m1. (m1.cpu.pc ≡ m.decinfo.jmp_pc) × Ends (Returned m) (exec_ret (decoded next m1)))
        (exec_call m)
unfolding exec_call exec_ret rtl_push rtl_pop rtl_sm rtl_lm rtl_steps decinfo_set_jmp isa_vaddr_read
    isa_vaddr_write
call-ret m next room small =
    let (c, wrote, back, others, cells, inside) =
      paddr_read-paddr_write m.bus (c_sub (esp_of m) 4) m.decinfo.seq_pc 4 room.place (omega arith)
        room.bytes in
    rw wrote (
      ends (
        refl,
        rw back (
            ends record {
              pc = omega arith;
              is_jmp = refl;
              gpr = λ i. ground (arith, restored (esp_of m) room.small);
              eflags = refl;
              nemu_state = refl;
            }),
      ))
