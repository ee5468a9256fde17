-- ===== src/Risc/Reachable.antt =====
-- The machines that a program of the two RISC instruction sets gets to: `init_isa` and then
-- `exec_once`, any number of times.
use ics.Base.{ℕ, ◌≡◌, ◌∙◌, refl, some, Option, if◌then◌else◌, Bool, true, false}
use ics.Machine.{Machine}
use ics.Cpu.{exec_once, update_pc}
use ics.Rtl.{Rtl, decinfo_set_jmp}
use ics.Risc.{init_isa, restart}
use ics.Risc.ZeroRegister.{Kept, Keeps, Keeps-then}
use ics.Riscv32.Exec as Riscv32
use ics.Riscv32.ZeroRegister as RiscvZero
use ics.Mips32.Exec as Mips32
use ics.Mips32.ZeroRegister as MipsZero

pub data RiscSet : Type 0 where
  riscv32 mips32 : RiscSet

abbrev pub instructions : RiscSet → Rtl
instructions riscv32 = Riscv32.isa_exec
instructions mips32 = Mips32.isa_exec

pub data Reachable (set : RiscSet) : Machine → Type 0 where
  start : (m : Machine) {m' : Machine} → init_isa m ≡ some (tt, m') → Reachable set m'
  turn :
      {m m' : Machine} {pc : ℕ}
      → Reachable set m
      → exec_once (instructions set) m ≡ some (pc, m')
      → Reachable set m'

instructions-Keeps : (set : RiscSet) → Keeps (instructions set)
instructions-Keeps riscv32 = RiscvZero.isa_exec-Keeps
instructions-Keeps mips32 = MipsZero.isa_exec-Keeps

updated : (m : Machine) → (update_pc m).cpu.gpr 0 ≡ m.cpu.gpr 0
unfolding update_pc decinfo_set_jmp
updated m = go m.decinfo.is_jmp
  where
    go :
        (b : Bool)
        → (if b
              then decinfo_set_jmp false m
              else record m { cpu = record (m.cpu) { pc = m.decinfo.seq_pc } }).cpu.gpr
            0
          ≡ m.cpu.gpr 0
    go true = refl
    go false = refl

exec_once-Keeps : (isa_exec : Rtl) → Keeps isa_exec → Keeps (exec_once isa_exec)
unfolding exec_once Kept
exec_once-Keeps isa_exec h m =
    Keeps-then isa_exec (λ t m'. some ((update_pc m').decinfo.seq_pc, update_pc m')) h
      (λ t m'. updated m') (record m { decinfo = record (m.decinfo) { seq_pc = m.cpu.pc } })

some-Kept :
    {A : Type 0} {g : ℕ} (o : Option (A × Machine)) {v : A} {m' : Machine}
    → Kept g o
    → o ≡ some (v, m')
    → m'.cpu.gpr 0 ≡ g
unfolding Kept
some-Kept o k e = rw e at k

restarted : (m : Machine) → Kept 0 (init_isa m)
unfolding init_isa restart Kept
restarted m = refl

-- In every machine that `init_isa` and any number of instructions lead to, in either set, whether
-- the words in memory are instructions or not, register 0 holds 0.
pub Reachable-zero : {set : RiscSet} {m : Machine} → Reachable set m → m.cpu.gpr 0 ≡ 0
Reachable-zero (start m e) = some-Kept (init_isa m) (restarted m) e
Reachable-zero {set} (turn {m} r e) =
    let kept = exec_once-Keeps (instructions set) (instructions-Keeps set) m in
    some-Kept (exec_once (instructions set) m) kept e ∙ Reachable-zero r
