-- ===== src/QemuDiff/AsReference.antt =====
-- qemu-diff as the reference that NEMU loads.
use ics.Base.{
  ℕ, zero, suc, ◌+◌, ◌-◌, ◌^◌, ◌≤◌, ◌≡◌, refl, ◌∙◌, ap, some, List, [], ◌∷◌, ◌++◌, codes, length,
  arith, true, Bool, ltb, ◌&&◌, pos,
}
use ics.Monitor.DiffTest.Init.Synced.{Reference}
use ics.QemuDiff.{
  Protocol, as_int, take, drop, nr_words, difftest_words, bytes_of, encode_bytes,
  gdb_memcpy_to_qemu, gdb_getregs, gdb_setregs, gdb_si, difftest_memcpy_from_dut, difftest_getregs,
  difftest_setregs, difftest_exec, init_isa, mbr, start_registers,
}
use ics.QemuDiff.Copied.{
  take-whole, length-take, take-AllBelow, drop-AllBelow, gdb_memcpy_to_qemu-stored,
}
use ics.QemuDiff.Registers.{
  KeepsRegisters, DecodesHex, read_register_packet, getregs_lem, set_packet, append-AllBelow,
  take-append,
}
use ics.QemuDiff.Server.{EncodesHex, AllBelow, Stores, stored}

-- A server of x86 behind GDB's protocol: it always has 77 registers of 32 bits, and the packets for
-- registers leave memory alone.
pub record IsServer {Q : Type 0} (p : Protocol Q) (memory : Q → ℕ → ℕ) (regs : Q → List ℕ)
    : Type 0 where
  pub encodes : EncodesHex p
  pub decodes : DecodesHex p
  pub stores : Stores p memory
  pub keeps : KeepsRegisters p regs
  pub number : (q : Q) → length (regs q) ≡ nr_words
  pub words : (q : Q) → AllBelow (2 ^ 32) (regs q)
  pub asking : (q : Q) (a : ℕ) → memory (p.recv (p.send (codes "g") q)).1 a ≡ memory q a
  pub setting :
      (q : Q) (packet r : List ℕ) (a : ℕ)
      → read_register_packet packet ≡ some r
      → memory (p.recv (p.send packet q)).1 a ≡ memory q a

abbrev all_below : ℕ → List ℕ → Bool
all_below k [] = true
all_below k (x ∷ xs) = ltb x k && all_below k xs

all_below-AllBelow : (k : ℕ) (xs : List ℕ) → all_below k xs ≡ true → AllBelow k xs
unfolding AllBelow
all_below-AllBelow k [] h = tt
all_below-AllBelow k (x ∷ xs) h = (ground arith, all_below-AllBelow k xs (ground arith))

mbr-AllBelow : AllBelow 256 mbr
mbr-AllBelow = all_below-AllBelow 256 mbr refl

module _ {Q : Type 0} (p : Protocol Q) (memory : Q → ℕ → ℕ) (regs : Q → List ℕ)
    (s : IsServer p memory regs) where
  copy :
      (dest : ℕ) (src : List ℕ) (q : Q)
      → dest + length src ≤ 2 ^ 31 - 1
      → AllBelow 256 src
      → (q' : Q) × (difftest_memcpy_from_dut p dest src q ≡ some (tt, q'))
        × Unit {0}
        × ((a : ℕ) → memory q' a ≡ stored src dest (memory q) a)
  unfolding difftest_memcpy_from_dut
  copy dest src q l h =
      let (q', e, m) =
        gdb_memcpy_to_qemu-stored p memory s.encodes s.stores dest src (length src) q (omega arith)
          (omega arith) (omega arith) h in
      let int : as_int (length src) ≡ pos (length src) = ground arith in
      let all = take-whole (length src) src refl in (q', rw (int, e) refl, tt, rw all at m)

  -- The registers after the packet that sets them.
  abbrev after_set : List ℕ → Q → Q
  after_set r q = (p.recv (p.send (codes "G" ++ encode_bytes p (bytes_of r)) q)).1

  set_lem :
      (r : List ℕ) (q : Q)
      → AllBelow (2 ^ 32) r
      → (gdb_setregs p r q ≡ some (true, after_set r q))
        × (regs (after_set r q) ≡ r)
        × ((a : ℕ) → memory (after_set r q) a ≡ memory q a)
  unfolding gdb_setregs
  set_lem r q h =
      let packet = codes "G" ++ encode_bytes p (bytes_of r) in
      let reads = set_packet p regs s.encodes s.decodes s.keeps r h in
      (
        rw (s.keeps.ok q packet r reads) refl,
        s.keeps.set q packet r reads,
        λ a. s.setting q packet r a reads,
      )

  get_lem : (q : Q) → gdb_getregs p q ≡ some (regs q, (p.recv (p.send (codes "g") q)).1)
  get_lem q = getregs_lem p regs s.encodes s.decodes s.keeps q (s.number q) (s.words q)

  set :
      (r : List ℕ) (q : Q)
      → length r ≡ difftest_words
      → AllBelow (2 ^ 32) r
      → (q' : Q) × (difftest_setregs p r q ≡ some (tt, q'))
        × (take difftest_words (regs q') ≡ r)
        × ((a : ℕ) → memory q' a ≡ memory q a)
  unfolding difftest_setregs
  set r q l h =
      let asked = (p.recv (p.send (codes "g") q)).1 in
      let all = take difftest_words r ++ drop difftest_words (regs q) in
      let fits =
        append-AllBelow (2 ^ 32) (take difftest_words r) (drop difftest_words (regs q))
          (take-AllBelow (2 ^ 32) difftest_words r h)
          (drop-AllBelow (2 ^ 32) difftest_words (regs q) (s.words q)) in
      let (done, same, m) = set_lem all asked fits in
      let front = length-take difftest_words r (omega arith) in
      (
        after_set all asked,
        rw (get_lem q, done) refl,
        ap (take difftest_words) same
            ∙ take-append difftest_words (take difftest_words r) (drop difftest_words (regs q))
                front
            ∙ take-whole difftest_words r l,
        λ a. m a ∙ s.asking q a,
      )

  steps : (n : ℕ) (q : Q) → (q' : Q) × (difftest_exec p n q ≡ some (tt, q'))
  unfolding difftest_exec gdb_si
  steps zero q = (q, refl)
  steps (suc n) q = steps n (p.recv (p.send (codes "vCont;s:1") q)).1

  start-AllBelow : (r : List ℕ) → AllBelow (2 ^ 32) r → AllBelow (2 ^ 32) (start_registers r)
  unfolding AllBelow
  start-AllBelow r h = append-AllBelow (2 ^ 32) (take 8 r) _ (take-AllBelow (2 ^ 32) 8 r h) (
    omega arith,
    append-AllBelow (2 ^ 32) (take 1 (drop 9 r)) _
        (take-AllBelow (2 ^ 32) 1 (drop 9 r) (drop-AllBelow (2 ^ 32) 9 r h))
        (omega arith, drop-AllBelow (2 ^ 32) 11 r h),
  )

  started :
      (q q1 q3 : Q)
      → gdb_memcpy_to_qemu p 0x7c00 mbr (pos (length mbr)) q ≡ some (true, q1)
      → gdb_setregs p (start_registers (regs q1)) (p.recv (p.send (codes "g") q1)).1
        ≡ some (true, after_set (start_registers (regs q1)) (p.recv (p.send (codes "g") q1)).1)
      → difftest_exec p 20
          (after_set (start_registers (regs q1)) (p.recv (p.send (codes "g") q1)).1)
        ≡ some (tt, q3)
      → init_isa p q ≡ some (tt, q3)
  unfolding init_isa
  started q q1 q3 e done f = rw (e, get_lem q1, done, f) refl

  start : (q : Q) → (q' : Q) × (init_isa p q ≡ some (tt, q')) × Unit {0}
  unfolding init_isa
  start q =
      let (q1, e, m) =
        gdb_memcpy_to_qemu-stored p memory s.encodes s.stores 0x7c00 mbr (length mbr) q
          (omega arith) (omega arith) (omega arith) mbr-AllBelow in
      let asked = (p.recv (p.send (codes "g") q1)).1 in
      let (done, same, m2) =
        set_lem (start_registers (regs q1)) asked (start-AllBelow (regs q1) (s.words q1)) in
      let (q3, f) = steps 20 (after_set (start_registers (regs q1)) asked) in
      (q3, started q q1 q3 e done f, tt)

  -- QEMU behind such a server does what NEMU relies on.
  pub qemu_reference : Reference {Q = Q} memory (λ q. take difftest_words (regs q)) (λ q. Unit {0})
  qemu_reference = record {
    memcpy_from_dut = difftest_memcpy_from_dut p;
    getregs = difftest_getregs p;
    setregs = difftest_setregs p;
    exec = difftest_exec p;
    init = init_isa p;
    limit = 2 ^ 31 - 1;
    starts = start;
    copies = λ dest src q u l h. copy dest src q l h;
    sets = λ r q u l h. set r q l h;
  }
