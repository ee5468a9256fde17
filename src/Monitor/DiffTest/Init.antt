-- ===== src/Monitor/DiffTest/Init.antt =====
-- The start of differential testing: `init_difftest` of nemu/src/monitor/diff-test/diff-test.c, in a
-- build with DIFF_TEST.
pub mod Synced
use ics.Base.{
  ℕ, zero, suc, ◌+◌, ◌-◌, Option, none, some, List, [], ◌∷◌, ◌==◌, if◌then◌else◌, bind, Cmd, ◌>>=◌,
  ◌>>◌, from_option,
}
use ics.Bus.{pmem_size}
use ics.Machine.{CpuState, Machine}
use ics.Monitor.Boot.{image_start}
use ics.X86.Start.{pc_start}

-- The functions that dlsym() finds in a reference, whose state is `Q`; `none` is NULL.
pub record Library (Q : Type 0) : Type 0 where
  pub memcpy_from_dut : Option (ℕ → List ℕ → Cmd Q (Unit {0}))
  pub getregs : Option (Cmd Q (List ℕ))
  pub setregs : Option (List ℕ → Cmd Q (Unit {0}))
  pub exec : Option (ℕ → Cmd Q (Unit {0}))
  pub init : Option (Cmd Q (Unit {0}))

-- `n` bytes of a host array from offset `p` on.
unfoldable pub host_bytes : (ℕ → ℕ) → ℕ → ℕ → List ℕ
host_bytes mem p zero = []
host_bytes mem p (suc n) = mem p ∷ host_bytes mem (p + 1) n

-- `strlen` of the text at offset `p`, which has to end within `fuel` bytes.
unfoldable pub strlen : ℕ → (ℕ → ℕ) → ℕ → Option ℕ
strlen zero mem p = none
strlen (suc fuel) mem p =
    let rest = strlen fuel mem (p + 1) in
    if mem p == 0 then some 0 else bind rest (λ n. some (suc n))

-- The `DIFFTEST_REG_SIZE` bytes at `&cpu`, as words: the registers from `i` on, and `pc`.
abbrev pub gpr_words : ℕ → ℕ → (ℕ → ℕ) → List ℕ → List ℕ
gpr_words zero i gpr rest = rest
gpr_words (suc n) i gpr rest = gpr i ∷ gpr_words n (i + 1) gpr rest

abbrev pub cpu_words : CpuState → List ℕ
cpu_words c = gpr_words 8 0 c.gpr (c.pc ∷ [])

module _ {Q : Type 0} (dlopen : List ℕ → Option (Library Q)) where
  unfoldable pub init_difftest : Option (List ℕ) → ℕ → Machine → Cmd Q (Unit {0})
  init_difftest ref_so_file img_size m = do
    file ← from_option ref_so_file
    handle ← from_option (dlopen file)
    ref_memcpy_from_dut ← from_option handle.memcpy_from_dut
    ref_getregs ← from_option handle.getregs
    ref_setregs ← from_option handle.setregs
    ref_exec ← from_option handle.exec
    ref_init ← from_option handle.init
    ref_init
    ref_memcpy_from_dut pc_start (host_bytes m.bus.pmem image_start img_size)
    n ← from_option (strlen pmem_size m.bus.pmem 0)
    ref_memcpy_from_dut (pc_start - image_start) (host_bytes m.bus.pmem 0 (n + 1))
    ref_setregs (cpu_words m.cpu)
