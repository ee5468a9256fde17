-- ===== src/X86/Operands/Write.antt =====
-- What writing an operand does: the operand reads back the value, and nothing but the registers and
-- the bus changes.
use ics.Base.{ℕ, ◌%◌, ◌^◌, ◌≤◌, ◌<◌, ◌≡◌, inl, inr, none, some, arith, Option, bind}
use ics.Bus.{Bus}
use ics.Bus.Host.{IsBytes}
use ics.Bus.Memory.{paddr_read, isa_vaddr_write}
use ics.Bus.Memory.Access.{InPmem, paddr_read-paddr_write}
use ics.Machine.{Machine, id_dest, Operand, OpType, op_type_reg, op_type_mem, op_type_imm, Loc, get}
use ics.X86.Reg.{read_reg}
use ics.X86.Reg.Views.{IsWidth, AreWords, read_reg-write_reg}
use ics.X86.Operands.{operand_write, write_as}

-- What the operand's register or memory holds.
abbrev pub holds_as : OpType → Operand → (ℕ → ℕ) → Bus → Option ℕ
holds_as op_type_reg op gpr bus = read_reg gpr op.word op.width
holds_as op_type_mem op gpr bus = bind (paddr_read op.word op.width bus) (λ (v, b). some v)
holds_as op_type_imm op gpr bus = none

abbrev pub holds : Operand → Machine → Option ℕ
holds op m = holds_as op.type op m.cpu.gpr m.bus

-- The operand is one of the eight registers, or lies in physical memory.
abbrev pub Place : OpType → Operand → Bus → Type 0
Place op_type_reg op bus = op.word < 8
Place op_type_mem op bus = InPmem bus op.word
Place op_type_imm op bus = ⊥

-- A machine with 32-bit registers, byte-sized cells and an operand of width 1, 2 or 4 that can be
-- written.
pub record CanWrite (op : Operand) (gpr : ℕ → ℕ) (bus : Bus) : Type 0 where
  pub width : IsWidth op.width
  pub place : Place op.type op bus
  pub words : AreWords gpr
  pub bytes : IsBytes bus.pmem

-- The destination operand can be written.
abbrev pub Writable : Machine → Type 0
Writable m = CanWrite m.decinfo.dest m.cpu.gpr m.bus

-- `m` with other registers and another bus.
abbrev pub stored : (ℕ → ℕ) → Bus → Machine → Machine
stored gpr bus m = record m { cpu = record (m.cpu) { gpr = gpr }; bus = bus }

pub width-len : {w : ℕ} → IsWidth w → (1 ≤ w) × (w ≤ 4)
width-len (inl e) = omega arith
width-len (inr (inl e)) = omega arith
width-len (inr (inr e)) = omega arith

write_as-lem :
    (t : OpType) (l : Loc) (m : Machine)
    → IsWidth m.decinfo.dest.width
    → Place t m.decinfo.dest m.bus
    → AreWords m.cpu.gpr
    → IsBytes m.bus.pmem
    → get l m < 2 ^ 32
    → (gpr : ℕ → ℕ) × (bus : Bus) × (write_as t id_dest m.decinfo.dest l m
        ≡ some (tt, stored gpr bus m))
      × (holds_as t m.decinfo.dest gpr bus ≡ some (get l m % 256 ^ m.decinfo.dest.width))
      × Place t m.decinfo.dest bus
      × AreWords gpr
      × IsBytes bus.pmem
unfolding operand_write isa_vaddr_write
write_as-lem op_type_reg l m w place words bytes small =
    let op = m.decinfo.dest in
    let (g, done, back, others, keeps) =
      read_reg-write_reg m.cpu.gpr op.word op.width (get l m) words place w small in
    (g, m.bus, rw done, back, place, keeps, bytes)
write_as-lem op_type_mem l m w place words bytes small =
    let op = m.decinfo.dest in
    let (c, done, back, others, cells, inside) =
      paddr_read-paddr_write m.bus op.word (get l m) op.width place (width-len w) bytes in
    (m.cpu.gpr, c, rw done, rw back, inside op.word place, words, cells)
write_as-lem op_type_imm l m w place words bytes small = absurd place

-- Writing the destination operand of a machine that can be written succeeds, changes nothing but the
-- registers and the bus, and the destination then holds the written value modulo its width and can
-- be written still.
pub operand_write-holds :
    (l : Loc) (m : Machine)
    → Writable m
    → get l m < 2 ^ 32
    → (gpr : ℕ → ℕ) × (bus : Bus) × (operand_write id_dest l m ≡ some (tt, stored gpr bus m))
      × (holds m.decinfo.dest (stored gpr bus m) ≡ some (get l m % 256 ^ m.decinfo.dest.width))
      × Writable (stored gpr bus m)
unfolding operand_write
operand_write-holds l m c small =
    let (gpr, bus, wrote, is, place, words, bytes) =
      write_as-lem m.decinfo.dest.type l m c.width c.place c.words c.bytes small in
    (gpr, bus, wrote, is, record { width = c.width; place = place; words = words; bytes = bytes })
