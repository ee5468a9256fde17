-- ===== src/Monitor/DiffTest/Init/Synced.antt =====
-- A reference that does what its functions are named for starts in step with NEMU.
use ics.Base.{
  ℕ, zero, suc, ◌+◌, ◌^◌, ◌<◌, ◌≤◌, ◌≡◌, refl, ◌∙◌, ap, some, Option, List, ◌==◌, Cmd, length,
  arith, ◌⊎◌, inl, inr, Bool-cases, ne→==, ltb,
}
use ics.Bus.Host.{IsBytes}
use ics.Bus.{pmem_size}
use ics.Machine.{Machine}
use ics.Monitor.Boot.{image_start}
use ics.Monitor.DiffTest.Init.{Library, host_bytes, strlen, cpu_words, init_difftest}
use ics.QemuDiff.Server.{AllBelow, stored}
use ics.X86.Start.{pc_start}

-- What `init_difftest` relies on, of a reference whose memory and registers can be seen: `Ready` is
-- what its start leaves, and `limit` where its memory ends.
pub record Reference {Q : Type 0} (memory : Q → ℕ → ℕ) (regs : Q → List ℕ) (Ready : Q → Type 0)
    : Type 0 where
  pub memcpy_from_dut : ℕ → List ℕ → Cmd Q (Unit {0})
  pub getregs : Cmd Q (List ℕ)
  pub setregs : List ℕ → Cmd Q (Unit {0})
  pub exec : ℕ → Cmd Q (Unit {0})
  pub init : Cmd Q (Unit {0})
  pub limit : ℕ
  pub starts : (q : Q) → (q' : Q) × (init q ≡ some (tt, q')) × Ready q'
  pub copies :
      (dest : ℕ) (src : List ℕ) (q : Q)
      → Ready q
      → dest + length src ≤ limit
      → AllBelow 256 src
      → (q' : Q) × (memcpy_from_dut dest src q ≡ some (tt, q'))
        × Ready q'
        × ((a : ℕ) → memory q' a ≡ stored src dest (memory q) a)
  pub sets :
      (r : List ℕ) (q : Q)
      → Ready q
      → length r ≡ 9
      → AllBelow (2 ^ 32) r
      → (q' : Q) × (setregs r q ≡ some (tt, q'))
        × (regs q' ≡ r)
        × ((a : ℕ) → memory q' a ≡ memory q a)

-- The library of such a reference.
abbrev pub library :
    {Q : Type 0} {memory : Q → ℕ → ℕ} {regs : Q → List ℕ} {Ready : Q → Type 0}
    → Reference memory regs Ready
    → Library Q
library r = record {
  memcpy_from_dut = some r.memcpy_from_dut;
  getregs = some r.getregs;
  setregs = some r.setregs;
  exec = some r.exec;
  init = some r.init;
}

length-host_bytes : (mem : ℕ → ℕ) (p n : ℕ) → length (host_bytes mem p n) ≡ n
unfolding host_bytes
length-host_bytes mem p zero = refl
length-host_bytes mem p (suc n) = ap suc (length-host_bytes mem (p + 1) n)

host_bytes-AllBelow : (mem : ℕ → ℕ) (p n : ℕ) → IsBytes mem → AllBelow 256 (host_bytes mem p n)
unfolding host_bytes AllBelow
host_bytes-AllBelow mem p zero h = tt
host_bytes-AllBelow mem p (suc n) h = (h p, host_bytes-AllBelow mem (p + 1) n h)

-- A stored copy of an array has the array's bytes inside, and changes nothing outside.
stored_inside :
    (mem other : ℕ → ℕ) (p n a : ℕ)
    → p ≤ a
    → a < p + n
    → stored (host_bytes mem p n) p other a ≡ mem a
unfolding host_bytes
stored_inside mem other p zero a l u = absurd (omega arith)
stored_inside mem other p (suc n) a l u = elim (Bool-cases (a == p)) [
  | inl here ↦ let same : p ≡ a = ground arith in rw here (ap mem same)
  | inr apart ↦ rw apart (stored_inside mem other (p + 1) n a (ground arith) (omega arith))
]

stored_outside :
    (mem other : ℕ → ℕ) (p n a : ℕ)
    → (a < p) ⊎ (p + n ≤ a)
    → stored (host_bytes mem p n) p other a ≡ other a
unfolding host_bytes
stored_outside mem other p zero a h = refl
stored_outside mem other p (suc n) a h =
    rw (ne→== a p (ground arith)) (stored_outside mem other (p + 1) n a (ground arith))

-- The reference in step with a machine: its registers, the image, and the text at address 0.
pub record Synced {Q : Type 0} (memory : Q → ℕ → ℕ) (regs : Q → List ℕ) (m : Machine) (size n : ℕ)
    (q : Q) : Type 0 where
  pub words : regs q ≡ cpu_words m.cpu
  pub image : (a : ℕ) → pc_start ≤ a → a < pc_start + size → memory q a ≡ m.bus.pmem a
  pub text : (a : ℕ) → a < n + 1 → memory q a ≡ m.bus.pmem a

module _ {Q : Type 0} {memory : Q → ℕ → ℕ} {regs : Q → List ℕ} {Ready : Q → Type 0}
    (r : Reference memory regs Ready) (m : Machine) (size n : ℕ) where
  abbrev image : List ℕ
  image = host_bytes m.bus.pmem image_start size

  abbrev text : List ℕ
  text = host_bytes m.bus.pmem 0 (n + 1)

  runs :
      (dlopen : List ℕ → Option (Library Q)) (file : List ℕ) (q q1 q2 q3 q4 : Q)
      → dlopen file ≡ some (library r)
      → strlen pmem_size m.bus.pmem 0 ≡ some n
      → r.init q ≡ some (tt, q1)
      → r.memcpy_from_dut pc_start image q1 ≡ some (tt, q2)
      → r.memcpy_from_dut 0 text q2 ≡ some (tt, q3)
      → r.setregs (cpu_words m.cpu) q3 ≡ some (tt, q4)
      → init_difftest dlopen (some file) size m q ≡ some (tt, q4)
  unfolding init_difftest
  runs dlopen file q q1 q2 q3 q4 opens len e1 e2 e3 e4 = rw (opens, e1, e2, len, e3, e4) refl

  in_step :
      (q1 q2 q3 q4 : Q)
      → ((a : ℕ) → memory q2 a ≡ stored image pc_start (memory q1) a)
      → ((a : ℕ) → memory q3 a ≡ stored text 0 (memory q2) a)
      → ((a : ℕ) → memory q4 a ≡ memory q3 a)
      → regs q4 ≡ cpu_words m.cpu
      → Synced memory regs m size n q4
  in_step q1 q2 q3 q4 m2 m3 m4 words = record {
    words = words;
    image = λ a l u. elim (Bool-cases (ltb a (n + 1))) [
      | inl low ↦ in_text a (ground arith)
      | inr high ↦
          m4 a
          ∙ m3 a
          ∙ stored_outside m.bus.pmem (memory q2) 0 (n + 1) a (inr (ground arith))
          ∙ m2 a
          ∙ stored_inside m.bus.pmem (memory q1) pc_start size a l u
    ];
    text = in_text;
  }
    where
      in_text : (a : ℕ) → a < n + 1 → memory q4 a ≡ m.bus.pmem a
      in_text a h =
          m4 a ∙ m3 a ∙ stored_inside m.bus.pmem (memory q2) 0 (n + 1) a (omega arith) (omega arith)

  -- Where dlopen() gives a reference whose functions copy memory and set registers, and the image
  -- and the text at address 0 end below its limit and the text within NEMU's memory, over bytes and
  -- words, `init_difftest` returns, and
  -- leaves the reference with NEMU's registers and program counter, the bytes of the image where NEMU
  -- has them, and the text at address 0.
  pub init_difftest-Synced :
      (dlopen : List ℕ → Option (Library Q)) (file : List ℕ) (q : Q)
      → dlopen file ≡ some (library r)
      → strlen pmem_size m.bus.pmem 0 ≡ some n
      → n + 1 ≤ r.limit
      → pc_start + size ≤ r.limit
      → IsBytes m.bus.pmem
      → AllBelow (2 ^ 32) (cpu_words m.cpu)
      → (q' : Q) × (init_difftest dlopen (some file) size m q ≡ some (tt, q'))
        × Synced memory regs m size n q'
  init_difftest-Synced dlopen file q opens len short fits bytes words =
      let size1 = length-host_bytes m.bus.pmem image_start size in
      let size2 = length-host_bytes m.bus.pmem 0 (n + 1) in
      let (q1, e1, ready1) = r.starts q in
      let (q2, e2, ready2, m2) =
        r.copies pc_start image q1 ready1 (omega arith)
          (host_bytes-AllBelow m.bus.pmem image_start size bytes) in
      let (q3, e3, ready3, m3) =
        r.copies 0 text q2 ready2 (omega arith) (host_bytes-AllBelow m.bus.pmem 0 (n + 1) bytes) in
      let (q4, e4, set, m4) = r.sets (cpu_words m.cpu) q3 ready3 refl words in
      (q4, runs dlopen file q q1 q2 q3 q4 opens len e1 e2 e3 e4, in_step q1 q2 q3 q4 m2 m3 m4 set)
