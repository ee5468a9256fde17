-- ===== src/Bus/Memory/Access.antt =====
-- What a read of physical memory returns after a write.
use ics.Base.{
  ℕ, zero, suc, ◌+◌, ◌-◌, ◌*◌, ◌/◌, ◌%◌, ◌^◌, ◌≤◌, ◌<◌, ◌≡◌, refl, ◌⊎◌, inl, some, arith, le→leb,
  bit_and, ap, ◌∙◌,
}
use ics.Bus.Host.{
  Bytes, set_byte, IsBytes, memcpy, load32, len_mask, memcpy_outside, memcpy-IsBytes,
  load32-len_mask,
}
use native.Mathlib.Nat.{
  add_assoc, pow-suc, mul_comm, div-div-eq-div-mul, mod-eq-sub-div-mul, div-mul-le_self,
}
use ics.Bus.{Bus}
use ics.Bus.Memory.{paddr_read, paddr_write}

-- The little-endian number in `n` bytes.
unfoldable pub number : Bytes → ℕ → ℕ → ℕ
number mem p zero = 0
number mem p (suc n) = mem p + 256 * number mem (p + 1) n

abbrev pub InPmem : Bus → ℕ → Type 0
InPmem b addr = (b.pmem_low ≤ addr) × (addr ≤ b.pmem_high)

-- A length that the guest's accesses have.
abbrev pub IsLen : ℕ → Type 0
IsLen len = (1 ≤ len) × (len ≤ 4)

-- The mask of a length keeps the number of the first `len` bytes of a four-byte load.
pub masked :
    (mem : Bytes) (p len : ℕ)
    → IsBytes mem
    → IsLen len
    → (mask : ℕ) × (len_mask len ≡ some mask) × (bit_and (load32 mem p) mask ≡ number mem p len)
unfolding len_mask load32 number
masked mem p zero h k = absurd (omega arith)
masked mem p (suc zero) h k = (0xff, refl, (load32-len_mask mem p h).0 ∙ omega arith)
masked mem p (suc (suc zero)) h k = (0xffff, refl, (load32-len_mask mem p h).1 ∙ omega arith)
masked mem p (suc (suc (suc zero))) h k =
    (0xff_ffff, refl, (load32-len_mask mem p h).2 ∙ rw (add_assoc p 1 1) (omega arith))
masked mem p (suc (suc (suc (suc zero)))) h k = (
  0xffff_ffff,
  refl,
  (load32-len_mask mem p h).3 ∙ rw (add_assoc p 1 1, add_assoc p 2 1) (omega arith),
)
masked mem p (suc (suc (suc (suc (suc n))))) h k = absurd (omega arith)

-- The number depends on its own bytes alone.
number_local :
    (mem other : Bytes) (p n : ℕ)
    → ((q : ℕ) → p ≤ q → q < p + n → other q ≡ mem q)
    → number other p n ≡ number mem p n
unfolding number
number_local mem other p zero same = refl
number_local mem other p (suc n) same =
    let rest = number_local mem other (p + 1) n (λ q l u. same q (omega arith) (omega arith)) in
    omega (arith, same p (omega arith) (omega arith), rest)

mod-byte_suc : (n x : ℕ) → x % 256 ^ suc n ≡ x % 256 + 256 * (x / 256 % 256 ^ n)
mod-byte_suc n x =
    let w : 256 ^ suc n ≡ 256 ^ n * 256 = pow-suc 256 n in
    let d : x / 256 ^ suc n ≡ x / 256 / 256 ^ n =
      rw (w, mul_comm (256 ^ n) 256, div-div-eq-div-mul x 256 (256 ^ n)) in
    omega (
      arith,
      mod-eq-sub-div-mul x (256 ^ suc n),
      ap (λ (t : ℕ). t * 256 ^ suc n) d,
      ap (λ (t : ℕ). x / 256 / 256 ^ n * t) w,
      mod-eq-sub-div-mul (x / 256) (256 ^ n),
      div-mul-le_self (x / 256) (256 ^ n),
    )

-- A copied value reads back modulo the copied width.
pub number-memcpy :
    (mem : Bytes) (p value n : ℕ) → number (memcpy mem p value n) p n ≡ value % 256 ^ n
unfolding number memcpy
number-memcpy mem p value zero = omega arith
number-memcpy mem p value (suc n) =
    let cell = set_byte mem p (value % 256) in
    let low : memcpy cell (p + 1) (value / 256) n p ≡ value % 256 =
      memcpy_outside cell (p + 1) (value / 256) n p (inl (omega arith)) ∙ ground arith in
    omega (arith, low, number-memcpy cell (p + 1) (value / 256) n, mod-byte_suc n value)

-- A read inside physical memory returns the little-endian number of its bytes.
pub paddr_read-number :
    (b : Bus) (addr len : ℕ)
    → InPmem b addr
    → IsLen len
    → IsBytes b.pmem
    → paddr_read addr len b ≡ some (number b.pmem (addr - b.pmem_low) len, b)
unfolding paddr_read
paddr_read-number b addr len i k h =
    let (mask, is, keeps) = masked b.pmem (addr - b.pmem_low) len h k in
    rw (le→leb i.0, le→leb i.1, is, keeps)

-- A write of 1 to 4 bytes at an address inside physical memory, over cells that hold bytes,
-- succeeds; a read of the same address and length then returns the value modulo `256 ^ len`; and a
-- read, of 1 to 4 bytes, of an address inside physical memory whose bytes are all outside the
-- written ones, returns what it returned before. The cells still hold bytes, and physical memory
-- has no fewer addresses.
pub paddr_read-paddr_write :
    (b : Bus) (addr value len : ℕ)
    → InPmem b addr
    → IsLen len
    → IsBytes b.pmem
    → (c : Bus) × (paddr_write addr value len b ≡ some (tt, c))
      × (paddr_read addr len c ≡ some (value % 256 ^ len, c))
      × ((other width : ℕ)
          → InPmem b other
          → IsLen width
          → (other + width ≤ addr) ⊎ (addr + len ≤ other)
          → (v : ℕ) × (paddr_read other width b ≡ some (v, b))
            × (paddr_read other width c ≡ some (v, c)))
      × IsBytes c.pmem
      × ((other : ℕ) → InPmem b other → InPmem c other)
unfolding paddr_write
paddr_read-paddr_write b addr value len i k h =
    let p = addr - b.pmem_low in
    let c : Bus = record b { pmem = memcpy b.pmem p value len } in
    let bytes : IsBytes c.pmem = memcpy-IsBytes b.pmem p value len h in
    (
      c,
      rw (le→leb i.0, le→leb i.1, le→leb k.1),
      rw (paddr_read-number c addr len i k bytes, number-memcpy b.pmem p value len),
      λ other width j l apart.
          let q = other - b.pmem_low in
          let same =
            number_local b.pmem c.pmem q width
              (λ x lo hi. memcpy_outside b.pmem p value len x (ground arith)) in
          (
            number b.pmem q width,
            paddr_read-number b other width j l h,
            paddr_read-number c other width j l bytes ∙ ap (λ n. some (n, c)) same,
          ),
      bytes,
      λ other inside. inside,
    )
