-- ===== src/Monitor/DiffTest/Agreement.antt =====
-- What a step of differential testing that is not waiting says of the machine and the reference.
use ics.Base.{
  ℕ, zero, suc, ◌+◌, ◌≤◌, ◌<◌, ◌≡◌, refl, sym, ◌↔◌, ◌⊎◌, ◌∙◌, inl, inr, true, false, some, ◌==◌,
  Bool-cases, eq→==, arith,
}
use mathlib.Core.Bool.{true≢false}
use ics.Machine.{CpuState, Machine, nemu_abort}
use ics.Monitor.DiffTest.{
  Registers, Reference, DiffTest, registers, same_gpr, isa_difftest_checkregs, checkregs,
  difftest_step, compare_step,
}

-- The program counter and the eight general registers are the same.
pub record Agree (c : CpuState) (r : Registers) : Type 0 where
  pub pc : c.pc ≡ r.pc
  pub gpr : (i : ℕ) → i < 8 → c.gpr i ≡ r.gpr i

same_gpr-true :
    (n k : ℕ) (g h : ℕ → ℕ) → same_gpr n k g h ≡ true → (i : ℕ) → k ≤ i → i < k + n → g i ≡ h i
same_gpr-true zero k g h e i lo hi = absurd (omega arith)
same_gpr-true (suc n) k g h e i lo hi = elim (Bool-cases (g k == h k)) [
  | inr f ↦ absurd (true≢false (sym (rw f at e)))
  | inl f ↦ elim (Bool-cases (i == k)) [
    | inl here ↦ (let same : i ≡ k = ground arith in rw same (ground arith))
    | inr later ↦ same_gpr-true n (suc k) g h (rw f at e) i (ground arith) (omega arith)
  ]
]

agreeing :
    (n k : ℕ) (g h : ℕ → ℕ) → ((i : ℕ) → k ≤ i → i < k + n → g i ≡ h i) → same_gpr n k g h ≡ true
agreeing zero k g h e = refl
agreeing (suc n) k g h e =
    let here : g k ≡ h k = e k (omega arith) (omega arith) in
    let rest = agreeing n (suc k) g h (λ i lo hi. e i (omega arith) (omega arith)) in ground arith

-- `isa_difftest_checkregs` is true exactly where the program counters and the eight general registers
-- agree; the flags are not compared.
pub isa_difftest_checkregs-Agree :
    (c : CpuState) (r : Registers) → (isa_difftest_checkregs c r ≡ true) ↔ Agree c r
unfolding isa_difftest_checkregs
isa_difftest_checkregs-Agree c r = (
  λ h. record {
    pc = ground arith;
    gpr = λ i lt. same_gpr-true 8 0 c.gpr r.gpr (ground arith) i (omega arith) (omega arith);
  },
  λ a.
      let all = agreeing 8 0 c.gpr r.gpr (λ i lo hi. a.gpr i (omega arith)) in
      rw (a.pc, all) (rw (eq→== r.pc r.pc refl) refl),
)

-- What the comparison makes of the machine: nothing where it agrees with the registers, and otherwise
-- an abort at the instruction's address.
abbrev pub Verdict : Registers → ℕ → Machine → Machine → Type 0
Verdict x ori_pc m after =
    (Agree m.cpu x × (after ≡ m))
    ⊎ (¬ Agree m.cpu x
        × (after.nemu_state.state ≡ nemu_abort)
        × (after.nemu_state.halt_pc ≡ ori_pc)
        × (after.cpu ≡ m.cpu)
        × (after.bus ≡ m.bus))

-- What a step does: on a request to skip, it gives the reference the machine's registers, and
-- otherwise the reference executes one instruction and is compared.
pub record Compared {R : Type 0} (ref : Reference R) (ori_pc : ℕ) (d : DiffTest R) (m : Machine)
    (r : DiffTest R × Machine) : Type 0 where
  pub skipped :
      d.is_skip_ref ≡ true
      → (r.0.reference ≡ ref.setregs (registers m.cpu) d.reference)
        × Agree m.cpu (ref.getregs r.0.reference)
        × (r.1 ≡ m)
  pub executed :
      d.is_skip_ref ≡ false
      → (r.0.reference ≡ ref.exec d.reference)
        × Verdict (ref.getregs (ref.exec d.reference)) ori_pc m r.1
  pub attached : r.0.is_detach ≡ false
  pub no_wait : r.0.skip_dut_nr_instr ≡ 0
  pub no_skip : r.0.is_skip_ref ≡ false

checkregs-Verdict :
    (x : Registers) (ori_pc : ℕ) (m : Machine) → Verdict x ori_pc m (checkregs x ori_pc m)
unfolding checkregs
checkregs-Verdict x ori_pc m = elim (Bool-cases (isa_difftest_checkregs m.cpu x)) [
  | inl e ↦ inl ((isa_difftest_checkregs-Agree m.cpu x).0 e, rw e refl)
  | inr e ↦ inr (
    λ a. true≢false (sym ((isa_difftest_checkregs-Agree m.cpu x).1 a) ∙ e),
    rw e refl,
    rw e refl,
    rw e refl,
    rw e refl,
  )
]

-- Where the reference hands back the registers that it was given, a step that is attached and waits
-- for nothing returns. On a request to skip, it gives the machine's registers to the reference, which
-- then agrees with the machine, and leaves the machine. Otherwise the reference executes one
-- instruction; the machine is left as it is if it agrees with it then, and aborted at the
-- instruction's address, with processor and bus as they were, if it does not. The request is cleared.
pub difftest_step-Compared :
    {R : Type 0} (ref : Reference R) (ori_pc next_pc : ℕ) (d : DiffTest R) (m : Machine)
    → ((c : CpuState) (r : R) → Agree c (ref.getregs (ref.setregs (registers c) r)))
    → d.is_detach ≡ false
    → d.skip_dut_nr_instr ≡ 0
    → (r : DiffTest R × Machine) × (difftest_step ref ori_pc next_pc d m ≡ some r)
      × Compared ref ori_pc d m r
unfolding difftest_step
difftest_step-Compared ref ori_pc next_pc d m stored on idle = (
  compare_step ref ori_pc d m,
  rw (on, idle) refl,
  elim (Bool-cases d.is_skip_ref) [
    | inl e ↦ rw e (record {
      skipped = λ t. (refl, stored m.cpu d.reference, refl);
      executed = λ f. absurd (true≢false f);
      attached = on;
      no_wait = idle;
      no_skip = refl;
    })
    | inr e ↦ rw e (record {
      skipped = λ t. absurd (true≢false (sym t));
      executed = λ f. (refl, checkregs-Verdict (ref.getregs (ref.exec d.reference)) ori_pc m);
      attached = on;
      no_wait = idle;
      no_skip = refl;
    })
  ],
)
