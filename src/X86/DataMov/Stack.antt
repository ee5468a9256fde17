-- ===== src/X86/DataMov/Stack.antt =====
-- A push and the pop that follows it.
use ics.Base.{ℕ, ◌%◌, ◌^◌, ◌<◌, ◌≡◌, refl, arith, ◌==◌, Ends, ends, if◌then◌else◌, lt→ltb, some}
use ics.Bus.Memory.{isa_vaddr_write, isa_vaddr_read}
use ics.Bus.Memory.Access.{paddr_read-paddr_write}
use ics.Machine.{Machine, DecodeInfo, op_type_reg, OpType, Operand, Loc, id_dest, set_gpr}
use ics.Rtl.{rtl_steps, rtl_sm, rtl_lm}
use ics.Rtl.Op.{c_sub, c_add}
use ics.X86.Reg.{write_reg, rtl_sr, r_esp, check_reg_index}
use ics.X86.Flags.{rtl_push, rtl_pop}
use ics.X86.Operands.{operand_write, write_as}
use ics.X86.Control.Relation.{decoded}
use ics.X86.Control.Return.{esp_of, HasRoom, restored}
use ics.X86.DataMov.{exec_push, exec_pop}

-- A decoded `pop` into one of the eight 32-bit registers.
pub record IsPopReg (next : DecodeInfo) : Type 0 where
  pub type : next.dest.type ≡ op_type_reg
  pub width : next.dest.width ≡ 4
  pub word : next.dest.word < 8

-- `m` with `v` in register `r`.
abbrev with_gpr : ℕ → ℕ → Machine → Machine
with_gpr r v m = record m { cpu = record (m.cpu) { gpr = set_gpr m.cpu.gpr r v } }

sr_word :
    (r width : ℕ) (m : Machine)
    → width ≡ 4
    → r < 8
    → rtl_sr r Loc.s0 width m ≡ some (tt, with_gpr r m.s0 m)
unfolding rtl_sr write_reg check_reg_index rtl_steps
sr_word r width m e h = rw (e, lt→ltb r 8 h) refl

write_as_reg :
    (t : OpType) (op : Operand) (m : Machine)
    → t ≡ op_type_reg
    → op.width ≡ 4
    → op.word < 8
    → write_as t id_dest op Loc.s0 m ≡ some (tt, with_gpr op.word m.s0 m)
write_as_reg t op m e w h = rw e (sr_word op.word op.width m w h)

pub record Popped (m : Machine) (next : DecodeInfo) (m' : Machine) : Type 0 where
  pub gpr :
      (i : ℕ) → m'.cpu.gpr i ≡ (if i == next.dest.word then m.decinfo.dest.val else m.cpu.gpr i)
  pub eflags : m'.cpu.eflags ≡ m.cpu.eflags
  pub pc : m'.cpu.pc ≡ m.cpu.pc
  pub nemu_state : m'.nemu_state ≡ m.nemu_state

-- With a stack that has room in physical memory and a 32-bit operand, `push` returns, and a `pop`
-- decoded right after it, into one of the 32-bit registers, returns with the operand's value in that
-- register; every other register has the value it had before the push, as have the flags, the
-- program counter and the run state.
pub push-pop :
    (m : Machine) (next : DecodeInfo)
    → HasRoom m
    → m.decinfo.dest.val < 2 ^ 32
    → IsPopReg next
    → Ends (λ m1. Ends (Popped m next) (exec_pop (decoded next m1))) (exec_push m)
unfolding exec_push exec_pop rtl_push rtl_pop rtl_sm rtl_lm rtl_steps isa_vaddr_read isa_vaddr_write
    operand_write
push-pop m next room small pop =
    let (c, wrote, back, others, cells, inside) =
      paddr_read-paddr_write m.bus (c_sub (esp_of m) 4) m.decinfo.dest.val 4 room.place
        (omega arith) room.bytes in
    let m1 = record (decoded next m) {
      cpu = record (m.cpu) {
        gpr =
            set_gpr (set_gpr m.cpu.gpr r_esp (c_sub (esp_of m) 4)) r_esp
              (c_add (c_sub (esp_of m) 4) 4);
      };
      s0 = m.decinfo.dest.val % 256 ^ 4;
      bus = c;
    } in
    rw wrote (
      ends (
        rw back (
          rw (write_as_reg next.dest.type next.dest m1 pop.type pop.width pop.word) (
            ends record {
              gpr = λ i. ground (arith, restored (esp_of m) room.small);
              eflags = refl;
              pc = refl;
              nemu_state = refl;
            }))))
