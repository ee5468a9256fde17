-- ===== src/X86/Start/Ready.antt =====
-- The state that `init_isa` leaves.
use ics.Base.{ℕ, ◌<◌, ◌≡◌, refl, Ends, ends, ◌==◌, eq→==, true, arith}
use ics.Machine.{Machine}
use ics.X86.Reg.{read_reg}
use ics.X86.Start.{init_isa}

-- The registers hold the samples, the program counter is the start address, and physical memory lies
-- at the addresses from 0 to its size.
pub record IsReady (sample : ℕ → ℕ) (m c : Machine) : Type 0 where
  pub pc : c.cpu.pc ≡ 0x100000
  pub gpr : (i : ℕ) → i < 8 → c.cpu.gpr i ≡ sample i
  pub bus : c.bus ≡ record (m.bus) { pmem_low = 0; pmem_high = 134217727 }

self : (x : ℕ) → (x == x) ≡ true
self x = eq→== x x refl

-- Whatever rand() gives, the test of the registers passes and `init_isa` succeeds.
pub init_isa-IsReady :
    (pc_sample : ℕ) (sample : ℕ → ℕ) (m : Machine)
    → Ends (IsReady sample m) (init_isa pc_sample sample m)
unfolding init_isa read_reg
init_isa-IsReady pc_sample sample m =
    simp self (ends (record { pc = refl; gpr = λ i h. ground arith; bus = refl }))
