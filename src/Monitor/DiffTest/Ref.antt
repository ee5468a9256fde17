-- ===== src/Monitor/DiffTest/Ref.antt =====
-- NEMU as a reference: nemu/src/monitor/diff-test/ref.c.
use ics.Base.{
  ℕ, zero, suc, ◌+◌, ◌≡◌, refl, ap, none, some, List, [], ◌∷◌, ◌==◌, leb, le→leb, if◌then◌else◌,
  bind, Cmd, length, arith, ended,
}
use ics.Bus.{pmem_size}
use ics.Machine.{CpuState}
use ics.Monitor.Boot.{copy_bytes}
use ics.Monitor.DiffTest.Init.{cpu_words}
use ics.Monitor.DiffTest.Init.Synced.{Reference}
use ics.Monitor.Run.{Monitor, Setup, cpu_exec}
use ics.QemuDiff.Server.{stored}
use ics.X86.Start.{init_isa}
use ics.X86.Start.Ready.{init_isa-IsReady}

abbrev set_pmem : (ℕ → ℕ) → Monitor → Monitor
set_pmem pmem s = record s {
  machine = record (s.machine) { bus = record (s.machine.bus) { pmem = pmem } };
}

abbrev set_cpu : CpuState → Monitor → Monitor
set_cpu cpu s = record s { machine = record (s.machine) { cpu = cpu } }

-- A copy that ends past the array is undefined.
unfoldable pub difftest_memcpy_from_dut : ℕ → List ℕ → Cmd Monitor (Unit {0})
difftest_memcpy_from_dut dest src s =
    if leb (dest + length src) pmem_size
    then some (tt, set_pmem (copy_bytes src dest s.machine.bus.pmem) s)
    else none

unfoldable pub difftest_getregs : Cmd Monitor (List ℕ)
difftest_getregs s = some (cpu_words s.machine.cpu, s)

-- The words in front of the registers that they replace.
abbrev overlay : List ℕ → (ℕ → ℕ) → ℕ → ℕ
overlay [] gpr i = gpr i
overlay (w ∷ ws) gpr zero = w
overlay (w ∷ ws) gpr (suc i) = overlay ws (λ j. gpr (suc j)) i

-- `memcpy` of `DIFFTEST_REG_SIZE` bytes, which are nine words.
unfoldable pub difftest_setregs : List ℕ → Cmd Monitor (Unit {0})
difftest_setregs (a ∷ (b ∷ (c ∷ (d ∷ (e ∷ (f ∷ (g ∷ (h ∷ (pc ∷ rest))))))))) s =
    let words = a ∷ (b ∷ (c ∷ (d ∷ (e ∷ (f ∷ (g ∷ (h ∷ []))))))) in
    some (tt, set_cpu (record (s.machine.cpu) { gpr = overlay words s.machine.cpu.gpr; pc = pc }) s)
difftest_setregs _ s = none

unfoldable pub difftest_exec : Setup → ℕ → Cmd Monitor (Unit {0})
unfolding cpu_exec
difftest_exec e n s = bind (cpu_exec e n s) (λ s'. some (tt, s'))

unfoldable pub difftest_init : ℕ → (ℕ → ℕ) → Cmd Monitor (Unit {0})
difftest_init pc_sample sample s =
    bind (init_isa pc_sample sample s.machine) (λ (t, m). some (tt, record s { machine = m }))

pub copied-stored :
    (bs : List ℕ) (p a : ℕ) (mem : ℕ → ℕ) → copy_bytes bs p mem a ≡ stored bs p mem a
copied-stored [] p a mem = refl
copied-stored (b ∷ bs) p a mem =
    let same : suc p ≡ p + 1 = omega arith in
    rw same (ap (λ v. if a == p then b else v) (copied-stored bs (p + 1) a mem))

pub setregs_nine :
    (r : List ℕ) (s : Monitor)
    → length r ≡ 9
    → (s' : Monitor) × (difftest_setregs r s ≡ some (tt, s'))
      × (cpu_words s'.machine.cpu ≡ r)
      × ((a : ℕ) → s'.machine.bus.pmem a ≡ s.machine.bus.pmem a)
unfolding difftest_setregs
setregs_nine (a ∷ (b ∷ (c ∷ (d ∷ (e ∷ (f ∷ (g ∷ (h ∷ (pc ∷ []))))))))) s l =
    (_, refl, refl, λ x. refl)
setregs_nine _ s l = absurd (omega (arith, l))

-- NEMU does what a reference is to do, with the memory that it has.
unfoldable pub as_reference :
    (e : Setup) (pc_sample : ℕ) (sample : ℕ → ℕ)
    → Reference {Q = Monitor}
        (λ s. s.machine.bus.pmem)
        (λ s. cpu_words s.machine.cpu)
        (λ s. Unit {0})
unfolding difftest_memcpy_from_dut difftest_setregs difftest_init
as_reference e pc_sample sample = record {
  memcpy_from_dut = difftest_memcpy_from_dut;
  getregs = difftest_getregs;
  setregs = difftest_setregs;
  exec = difftest_exec e;
  init = difftest_init pc_sample sample;
  limit = pmem_size;
  starts = λ s.
      let (x, started, ready) = ended (init_isa-IsReady pc_sample sample s.machine) in
      (record s { machine = x.1 }, rw started refl, tt);
  copies = λ dest src s u l h. (
    set_pmem (copy_bytes src dest s.machine.bus.pmem) s,
    rw (le→leb l) refl,
    tt,
    λ a. copied-stored src dest a s.machine.bus.pmem,
  );
  sets = λ r s u l w. setregs_nine r s l;
}
