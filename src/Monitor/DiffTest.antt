-- ===== src/Monitor/DiffTest.antt =====
-- Differential testing: nemu/src/monitor/diff-test/diff-test.c and nemu/src/isa/x86/diff-test.c, in a
-- build with DIFF_TEST. The reference emulator is loaded at run time and is a parameter.
pub mod Agreement
pub mod CatchUp
pub mod Init
pub mod Ref
use ics.Base.{
  ℕ, zero, suc, ◌+◌, ◌-◌, Bool, true, false, Option, none, some, ltb, ◌==◌, if◌then◌else◌,
}
use ics.Machine.{CpuState, Machine, nemu_abort}

-- What `DIFFTEST_REG_SIZE` bytes of a `CPU_state` hold.
pub record Registers : Type 0 where
  pub gpr : ℕ → ℕ
  pub pc : ℕ

-- The reference emulator: `ref_difftest_exec(1)`, `ref_difftest_getregs` and `ref_difftest_setregs`.
pub record Reference (R : Type 0) : Type 0 where
  pub exec : R → R
  pub getregs : R → Registers
  pub setregs : Registers → R → R

-- The statics of diff-test.c, and the state of the reference. `skip_dut_nr_instr` is never negative
-- where `nr_dut` is not.
pub record DiffTest (R : Type 0) : Type 0 where
  pub is_skip_ref : Bool
  pub skip_dut_nr_instr : ℕ
  pub is_detach : Bool
  pub reference : R

abbrev pub registers : CpuState → Registers
registers c = record { gpr = c.gpr; pc = c.pc }

-- The loop over `gpr[index]` from `index` on, for `n` registers.
abbrev pub same_gpr : ℕ → ℕ → (ℕ → ℕ) → (ℕ → ℕ) → Bool
same_gpr zero index g h = true
same_gpr (suc n) index g h =
    let rest = same_gpr n (suc index) g h in if g index == h index then rest else false

unfoldable pub isa_difftest_checkregs : CpuState → Registers → Bool
isa_difftest_checkregs cpu ref_r =
    if cpu.pc == ref_r.pc then same_gpr 8 0 cpu.gpr ref_r.gpr else false

-- `checkregs`, less the display of the registers.
unfoldable pub checkregs : Registers → ℕ → Machine → Machine
unfolding isa_difftest_checkregs
checkregs ref pc m =
    if isa_difftest_checkregs m.cpu ref
    then m
    else record m { nemu_state = record (m.nemu_state) { state = nemu_abort; halt_pc = pc } }

module _ {R : Type 0} (ref : Reference R) where
  abbrev pub difftest_skip_ref : DiffTest R → DiffTest R
  difftest_skip_ref d = record d { is_skip_ref = true; skip_dut_nr_instr = 0 }

  abbrev pub exec_times : ℕ → R → R
  exec_times zero r = r
  exec_times (suc n) r = exec_times n (ref.exec r)

  abbrev pub difftest_skip_dut : ℕ → ℕ → DiffTest R → DiffTest R
  difftest_skip_dut nr_ref nr_dut d = record d {
    skip_dut_nr_instr = d.skip_dut_nr_instr + nr_dut;
    reference = exec_times nr_ref d.reference;
  }

  -- The branch that waits for the program counter of the reference. `panic` is `none`.
  abbrev pub catch_up : ℕ → DiffTest R → Machine → Option (DiffTest R × Machine)
  catch_up next_pc d m =
      let ref_r = ref.getregs d.reference in
      if ref_r.pc == next_pc
      then some (record d { skip_dut_nr_instr = 0 }, checkregs ref_r next_pc m)
      else if d.skip_dut_nr_instr - 1 == 0
      then none
      else some (record d { skip_dut_nr_instr = d.skip_dut_nr_instr - 1 }, m)

  abbrev pub compare_step : ℕ → DiffTest R → Machine → DiffTest R × Machine
  compare_step ori_pc d m =
      if d.is_skip_ref
      then (
        record d { is_skip_ref = false; reference = ref.setregs (registers m.cpu) d.reference },
        m,
      )
      else (
        record d { reference = ref.exec d.reference },
        checkregs (ref.getregs (ref.exec d.reference)) ori_pc m,
      )

  unfoldable pub difftest_step : ℕ → ℕ → DiffTest R → Machine → Option (DiffTest R × Machine)
  unfolding checkregs
  difftest_step ori_pc next_pc d m =
      if d.is_detach
      then some (d, m)
      else if ltb 0 d.skip_dut_nr_instr
      then catch_up next_pc d m
      else some (compare_step ori_pc d m)

abbrev pub difftest_detach : {R : Type 0} → DiffTest R → DiffTest R
difftest_detach d = record d { is_detach = true }

abbrev pub difftest_attach : {R : Type 0} → DiffTest R → DiffTest R
difftest_attach d = record d { is_detach = false; is_skip_ref = false; skip_dut_nr_instr = 0 }
