-- ===== src/Risc/Reference.antt =====
-- The four instructions of the two sets as a programmer knows them, to compare the code with.
use ics.Base.{
  ℕ, ◌+◌, ◌*◌, ◌%◌, ◌^◌, ◌<◌, ◌≡◌, Option, none, some, ◌==◌, if◌then◌else◌, bind, ◌⊎◌, inl, inr,
  refl, arith, pos, ◌+ℤ◌, signed, pattern_of,
}
use ics.Bus.{Bus}
use ics.Bus.Memory.{paddr_read, paddr_write}
use ics.Machine.{Machine, NemuState, nemu_end, set_gpr}
use ics.Risc.{sign_field}
use ics.Rtl.Op.{c_add}

-- Register numbers first, then the immediate.
pub data Instruction : Type 0 where
  lui : (rd imm : ℕ) → Instruction
  lw : (rd base offset : ℕ) → Instruction
  sw : (src base offset : ℕ) → Instruction
  halt : Instruction

-- The registers, the program counter, the run state and what lies outside the processor.
pub record Cells : Type 0 where
  pub gpr : ℕ → ℕ
  pub pc : ℕ
  pub nemu_state : NemuState
  pub bus : Bus

abbrev pub cells : Machine → Cells
cells m = record { gpr = m.cpu.gpr; pc = m.cpu.pc; nemu_state = m.nemu_state; bus = m.bus }

abbrev pub observed : {A : Type 0} → Option (A × Machine) → Option Cells
observed none = none
observed (some (v, m)) = some (cells m)

-- Register 0 reads as 0, and writing it changes nothing.
abbrev pub read : ℕ → Cells → ℕ
read r c = if r == 0 then 0 else c.gpr r

abbrev pub write : ℕ → ℕ → Cells → Cells
write r v c = record c { gpr = if r == 0 then c.gpr else set_gpr c.gpr r v }

abbrev pub next : Cells → Cells
next c = record c { pc = (c.pc + 4) % 2 ^ 32 }

-- The address that a base register and an offset of `bits` bits give.
unfoldable pub address : ℕ → ℕ → ℕ → Cells → ℕ
address bits base offset c = pattern_of 32 (pos (read base c) +ℤ signed bits offset)

-- `shift` and `bits` are what `lui` shifts by and the width of an offset, `answer` the register that
-- `halt` reports.
module _ (shift bits answer : ℕ) where
  unfoldable pub step : Instruction → Cells → Option Cells
  unfolding address
  step (lui rd imm) c = some (next (write rd (imm * 2 ^ shift) c))
  step (lw rd base offset) c =
      bind (paddr_read (address bits base offset c) 4 c.bus)
        (λ (v, b). some (next (write rd v (record c { bus = b }))))
  step (sw src base offset) c =
      bind (paddr_write (address bits base offset c) (read src c) 4 c.bus)
        (λ (t, b). some (next (record c { bus = b })))
  step halt c = some (
      next (record c {
        nemu_state = record { state = nemu_end; halt_pc = c.pc; halt_ret = c.gpr answer };
      }))

-- Adding a sign-extended field is adding the integer that it stands for.
pub c_add-sign_field12 :
    (a x : ℕ) → x < 2 ^ 12 → c_add a (sign_field 12 x) ≡ pattern_of 32 (pos a +ℤ signed 12 x)
unfolding c_add pattern_of ◌+ℤ◌
c_add-sign_field12 a x h = ground arith

pub c_add-sign_field16 :
    (a x : ℕ) → x < 2 ^ 16 → c_add a (sign_field 16 x) ≡ pattern_of 32 (pos a +ℤ signed 16 x)
unfolding c_add pattern_of ◌+ℤ◌
c_add-sign_field16 a x h = ground arith

pub Option-cases {ℓ} : {A : Type ℓ} (o : Option A) → (o ≡ none) ⊎ ((x : A) × (o ≡ some x))
Option-cases none = inl refl
Option-cases (some x) = inr (x, refl)
