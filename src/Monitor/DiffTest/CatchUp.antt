-- ===== src/Monitor/DiffTest/CatchUp.antt =====
-- Waiting for the program counter of the reference.
use ics.Base.{
  ℕ, suc, ◌-◌, ◌≤◌, ◌<◌, ◌≡◌, ◌≢◌, refl, false, Option, none, some, List, [], ◌∷◌, length, ne→==,
  lt→ltb, bind, arith,
}
use ics.Machine.{Machine}
use ics.Monitor.DiffTest.{Reference, DiffTest, difftest_step}

-- The program counters differ from `pc`.
unfoldable pub Apart : ℕ → List ℕ → Type 0
Apart pc [] = Unit {0}
Apart pc (x ∷ xs) = (pc ≢ x) × Apart pc xs

-- Steps after which the machine, whose other state is `m`, goes on at each of the addresses.
unfoldable pub steps :
    {R : Type 0} → Reference R → List ℕ → DiffTest R → Machine → Option (DiffTest R × Machine)
unfolding difftest_step
steps ref [] d m = some (d, m)
steps ref (pc ∷ pcs) d m = bind (difftest_step ref pc pc d m) (λ (d', m'). steps ref pcs d' m')

waiting_step :
    {R : Type 0} (ref : Reference R) (k pc : ℕ) (d : DiffTest R) (m : Machine)
    → d.is_detach ≡ false
    → d.skip_dut_nr_instr ≡ suc (suc k)
    → (ref.getregs d.reference).pc ≢ pc
    → difftest_step ref pc pc d m ≡ some (record d { skip_dut_nr_instr = suc k }, m)
unfolding difftest_step
waiting_step ref k pc d m on count apart =
    let fewer : suc (suc k) - 1 ≡ suc k = omega arith in
    rw
      (
        on,
        count,
        lt→ltb 0 (suc (suc k)) (omega arith),
        ne→== (ref.getregs d.reference).pc pc apart,
        fewer,
        ne→== (suc k) 0 (omega arith),
      )
      refl

last_step :
    {R : Type 0} (ref : Reference R) (pc : ℕ) (d : DiffTest R) (m : Machine)
    → d.is_detach ≡ false
    → d.skip_dut_nr_instr ≡ 1
    → (ref.getregs d.reference).pc ≢ pc
    → difftest_step ref pc pc d m ≡ none
unfolding difftest_step
last_step ref pc d m on count apart =
    rw (on, count, ne→== (ref.getregs d.reference).pc pc apart) refl

-- A machine that does not come to the reference's program counter goes unchecked for as long as the
-- count lasts, which is one less with each step.
pub steps-waiting :
    {R : Type 0} (ref : Reference R) (pcs : List ℕ) (d : DiffTest R) (m : Machine)
    → d.is_detach ≡ false
    → Apart (ref.getregs d.reference).pc pcs
    → length pcs < d.skip_dut_nr_instr
    → steps ref pcs d m
      ≡ some (record d { skip_dut_nr_instr = d.skip_dut_nr_instr - length pcs }, m)
unfolding steps Apart
steps-waiting ref [] d m on apart short =
    let same : d.skip_dut_nr_instr - 0 ≡ d.skip_dut_nr_instr = omega arith in rw same refl
steps-waiting ref (pc ∷ pcs) d m on apart short =
    let k : ℕ = d.skip_dut_nr_instr - 2 in
    let count : d.skip_dut_nr_instr ≡ suc (suc k) = omega arith in
    let rest =
      steps-waiting ref pcs (record d { skip_dut_nr_instr = suc k }) m on apart.1
        (omega (arith, count)) in
    let left : d.skip_dut_nr_instr - suc (length pcs) ≡ suc k - length pcs = omega (arith, count) in
    rw (waiting_step ref k pc d m on count apart.0, left) rest

-- A machine that has not come to the reference's program counter when the count has run down to 0 is
-- a panic.
pub steps-none :
    {R : Type 0} (ref : Reference R) (pcs : List ℕ) (d : DiffTest R) (m : Machine)
    → d.is_detach ≡ false
    → Apart (ref.getregs d.reference).pc pcs
    → 1 ≤ d.skip_dut_nr_instr
    → length pcs ≡ d.skip_dut_nr_instr
    → steps ref pcs d m ≡ none
unfolding steps Apart
steps-none ref [] d m on apart some_left all = absurd (omega arith)
steps-none ref (pc ∷ []) d m on apart some_left all =
    rw (last_step ref pc d m on (omega arith) apart.0) refl
steps-none ref (pc ∷ (x ∷ pcs)) d m on apart some_left all =
    let count : d.skip_dut_nr_instr ≡ suc (suc (length pcs)) = omega arith in
    rw (waiting_step ref (length pcs) pc d m on count apart.0) (
      steps-none ref (x ∷ pcs) (record d { skip_dut_nr_instr = suc (length pcs) }) m on apart.1
        (omega arith) refl)
