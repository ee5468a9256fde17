-- ===== src/X86/Decode/Code.antt =====
-- Code bytes behind the program counter, and the displacement among them: `instr_fetch` and the
-- displacement of `load_addr` in nemu/src/isa/x86/decode/modrm.c.
use ics.Base.{
  ℕ, zero, suc, ◌+◌, ◌-◌, ◌%◌, ◌^◌, ◌≤◌, ◌<◌, ◌≡◌, refl, ◌∙◌, sym, ap, ◌⊎◌, false, Option, some,
  ◌==◌, if◌then◌else◌, Ends, ends, Bool-cases, inl, inr, arith, signed, pattern_of,
}
use ics.Bus.Host.{IsBytes}
use ics.Bus.Memory.{isa_vaddr_read}
use ics.Bus.Memory.Access.{InPmem, IsLen, number, paddr_read-number}
use ics.Cpu.{instr_fetch}
use ics.Machine.{Machine, Loc, get, put}
use ics.Rtl.{rtl_steps}
use ics.Rtl.Op.{c_add}
use ics.X86.Decode.{disp_size, add_disp}

-- Fetching code in physical memory.
fetch :
    (m : Machine) (len : ℕ)
    → InPmem m.bus m.decinfo.seq_pc
    → IsLen len
    → IsBytes m.bus.pmem
    → instr_fetch Loc.seq_pc len m
      ≡ some (
        number m.bus.pmem (m.decinfo.seq_pc - m.bus.pmem_low) len,
        put Loc.seq_pc ((m.decinfo.seq_pc + len) % 2 ^ 32) m,
      )
unfolding instr_fetch isa_vaddr_read get put
fetch m len i k h = rw (paddr_read-number m.bus m.decinfo.seq_pc len i k h) refl

-- The state behind `k` bytes of the code of `m`, with `v` in `s0`.
pub record At (m : Machine) (k v : ℕ) (c : Machine) : Type 0 where
  pub cpu : c.cpu ≡ m.cpu
  pub bus : c.bus ≡ m.bus
  pub seq : c.decinfo.seq_pc ≡ m.decinfo.seq_pc + k
  pub s0 : c.s0 ≡ v

-- The code from `decinfo.seq_pc` on lies in physical memory, as far as an address can reach.
pub record HasCode (m : Machine) : Type 0 where
  pub first : InPmem m.bus m.decinfo.seq_pc
  pub second : InPmem m.bus (m.decinfo.seq_pc + 1)
  pub small : m.decinfo.seq_pc + 6 < 2 ^ 32
  pub bytes : IsBytes m.bus.pmem

-- The code as a number of `len` bytes, `k` bytes on.
abbrev pub code_at : Machine → ℕ → ℕ → ℕ
code_at m k len = number m.bus.pmem (m.decinfo.seq_pc + k - m.bus.pmem_low) len

pub fetch_code :
    (m c : Machine) (k len v : ℕ)
    → HasCode m
    → k ≤ 1
    → IsLen len
    → At m k v c
    → instr_fetch Loc.seq_pc len c
      ≡ some (code_at m k len, put Loc.seq_pc (m.decinfo.seq_pc + k + len) c)
fetch_code m c k len v code near is at =
    let place : InPmem c.bus c.decinfo.seq_pc = rw (at.bus, at.seq) (reach k near) in
    let bytes : IsBytes c.bus.pmem = rw (at.bus) code.bytes in
    let next : (c.decinfo.seq_pc + len) % 2 ^ 32 ≡ m.decinfo.seq_pc + k + len =
      omega (arith, at.seq, code.small, is.1) in
    let same : number c.bus.pmem (c.decinfo.seq_pc - c.bus.pmem_low) len ≡ code_at m k len =
      ap (λ b. number b.pmem (c.decinfo.seq_pc - b.pmem_low) len) at.bus
      ∙ ap (λ p. number m.bus.pmem (p - m.bus.pmem_low) len) at.seq in
    fetch c len place is bytes ∙ rw (same, next) refl
  where
    reach : (k : ℕ) → k ≤ 1 → InPmem m.bus (m.decinfo.seq_pc + k)
    reach zero h =
        let here : m.decinfo.seq_pc + 0 ≡ m.decinfo.seq_pc = omega arith in rw here code.first
    reach (suc zero) h = code.second
    reach (suc (suc k)) h = absurd (omega arith)

-- The displacement of a size, `k` bytes on: a byte is extended by its sign.
abbrev pub displacement : Machine → ℕ → ℕ → ℕ
displacement m k size =
    if size == 0
    then 0
    else if size == 1
    then pattern_of 32 (signed 8 (code_at m k 1))
    else code_at m k size

extended :
    (m : Machine) (k size : ℕ)
    → (size == 0) ≡ false
    → (if size == 1 then pattern_of 32 (signed 8 (code_at m k size)) else code_at m k size)
      ≡ displacement m k size
extended m k size e = elim (Bool-cases (size == 1)) [
  | inl f ↦ (let one : size ≡ 1 = ground arith in rw one refl)
  | inr f ↦ rw (e, f) refl
]

pub displaced :
    (m c : Machine) (k size d : ℕ)
    → HasCode m
    → k ≤ 1
    → size ≤ 4
    → displacement m k size ≡ d
    → d < 2 ^ 32
    → At m k 0 c
    → Ends (At m (k + size) d) (add_disp size c)
unfolding add_disp rtl_steps c_add
displaced m c k size d code near fits is word at = elim (Bool-cases (size == 0)) [
  | inl e ↦
      (let none_left : size ≡ 0 = ground arith in
        let stays : k + 0 ≡ k = omega arith in
        let nothing : d ≡ 0 = sym is ∙ rw none_left refl in
        rw (none_left, stays, nothing) (ends at))
  | inr e ↦
      (let value = extended m k size e ∙ is in
        let pos : 1 ≤ size = ground arith in
        let sum : (c.s0 + d) % 2 ^ 32 ≡ d = omega (arith, at.s0, word) in
        rw (e, fetch_code m c k size 0 code near (pos, fits) at)
          (rw value (ends (record { cpu = at.cpu; bus = at.bus; seq = omega arith; s0 = sum }))))
]

pattern-bound : (b : ℕ) → b < 256 → pattern_of 32 (signed 8 b) < 2 ^ 32
unfolding pattern_of
pattern-bound b h = ground arith

number-bound : (m : Machine) (p : ℕ) → IsBytes m.bus.pmem → number m.bus.pmem p 4 < 2 ^ 32
unfolding number
number-bound m p h = omega (arith, h p, h (p + 1), h (p + 1 + 1), h (p + 1 + 1 + 1))

byte-bound : (m : Machine) (p : ℕ) → IsBytes m.bus.pmem → number m.bus.pmem p 1 < 256
unfolding number
byte-bound m p h = omega (arith, h p)

pub displacement-bound :
    (m : Machine) (k md : ℕ) (base : Option ℕ)
    → HasCode m
    → displacement m k (disp_size md base) < 2 ^ 32
displacement-bound m k md base code = by_size (disp_size md base) (sizes md base)
  where
    sizes :
        (md : ℕ) (base : Option ℕ)
        → (disp_size md base ≡ 0) ⊎ ((disp_size md base ≡ 1) ⊎ (disp_size md base ≡ 4))
    sizes md base = ground arith

    by_size : (size : ℕ) → (size ≡ 0) ⊎ ((size ≡ 1) ⊎ (size ≡ 4)) → displacement m k size < 2 ^ 32
    by_size size (inl e) = rw e (omega arith)
    by_size size (inr (inl e)) = rw e (
        pattern-bound (code_at m k 1)
          (byte-bound m (m.decinfo.seq_pc + k - m.bus.pmem_low) code.bytes))
    by_size size (inr (inr e)) =
        rw e (number-bound m (m.decinfo.seq_pc + k - m.bus.pmem_low) code.bytes)
