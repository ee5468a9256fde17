-- ===== src/X86/Start.antt =====
-- What happens before the first instruction: `reg_test` of nemu/src/isa/x86/reg.c, and `init_isa` and
-- the built-in image of nemu/src/isa/x86/init.c.
pub mod Ready
use ics.Base.{
  ℕ, zero, suc, ◌+◌, ◌*◌, ◌/◌, ◌%◌, ◌^◌, Option, none, some, List, [], ◌∷◌, ◌==◌, ltb,
  if◌then◌else◌, bind, Cmd, ◌>>=◌, ◌>>◌, modify, assert, length, bit_and,
}
use ics.Bus.{Bus}
use ics.Bus.Memory.{register_pmem}
use ics.Machine.{Machine, set_gpr}
use ics.X86.Reg.{read_reg, r_eax, r_ecx, r_edx, r_ebx, r_ah}

-- `assert(reg == value)` for a register of a width.
abbrev pub assert_reg : ℕ → ℕ → ℕ → Cmd Machine (Unit {0})
assert_reg r width value m =
    bind (read_reg m.cpu.gpr r width) (λ v. if v == value then some (tt, m) else none)

-- The loop from register `i` on, for `n` registers; `sample` is what rand() gives.
unfoldable pub set_samples : (ℕ → ℕ) → ℕ → ℕ → Cmd Machine (Unit {0})
set_samples sample zero i m = some (tt, m)
set_samples sample (suc n) i m =
    let m1 : Machine = record m { cpu = record (m.cpu) { gpr = set_gpr m.cpu.gpr i (sample i) } } in
    bind (assert_reg i 2 (sample i % 65536) m1) (λ (t, m2). set_samples sample n (suc i) m2)

-- The two low bytes of a register.
abbrev assert_bytes : ℕ → ℕ → Cmd Machine (Unit {0})
assert_bytes r value = do assert_reg r 1 (value % 256); assert_reg (r + r_ah) 1 (value / 256 % 256)

abbrev assert_words : (ℕ → ℕ) → ℕ → ℕ → Cmd Machine (Unit {0})
assert_words sample zero i m = some (tt, m)
assert_words sample (suc n) i m =
    bind (assert_reg i 4 (sample i) m) (λ (t, m1). assert_words sample n (suc i) m1)

unfoldable pub reg_test : ℕ → (ℕ → ℕ) → Cmd Machine (Unit {0})
unfolding set_samples
reg_test pc_sample sample = do
  modify λ m. record m { cpu = record (m.cpu) { pc = pc_sample } }
  set_samples sample 8 0
  assert_bytes r_eax (sample r_eax)
  assert_bytes r_ebx (sample r_ebx)
  assert_bytes r_ecx (sample r_ecx)
  assert_bytes r_edx (sample r_edx)
  assert_words sample 8 0
  λ m. if m.cpu.pc == pc_sample then some (tt, m) else none

abbrev pub pc_start : ℕ
pc_start = 0x100000

unfoldable pub init_isa : ℕ → (ℕ → ℕ) → Cmd Machine (Unit {0})
unfolding reg_test register_pmem
init_isa pc_sample sample = do
  reg_test pc_sample sample
  modify λ m. record m { bus = register_pmem 0 m.bus }
  modify λ m. record m { cpu = record (m.cpu) { pc = pc_start } }

abbrev pub isa_default_img : List ℕ
isa_default_img =
    0xb8 ∷ 0x34 ∷ 0x12 ∷ 0x00 ∷ 0x00 ∷ 0xb9 ∷ 0x27 ∷ 0x00 ∷ 0x10 ∷ 0x00 ∷ 0x89 ∷ 0x01 ∷ 0x66 ∷ 0xc7
    ∷ 0x41 ∷ 0x04 ∷ 0x01 ∷ 0x00 ∷ 0xbb ∷ 0x02 ∷ 0x00 ∷ 0x00 ∷ 0x00 ∷ 0x66 ∷ 0xc7 ∷ 0x84 ∷ 0x99
    ∷ 0x00 ∷ 0xe0 ∷ 0xff ∷ 0xff ∷ 0x01 ∷ 0x00 ∷ 0xb8 ∷ 0x00 ∷ 0x00 ∷ 0x00 ∷ 0x00 ∷ 0xd6 ∷ []
