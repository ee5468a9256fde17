-- ===== src/Bus/Host.antt =====
-- Host memory as bytes at offsets, with the little-endian accesses that NEMU makes through
-- `uint32_t` pointers and `memcpy`.
use ics.Base.{
  ℕ, zero, suc, ◌+◌, ◌-◌, ◌*◌, ◌/◌, ◌%◌, ◌^◌, ◌≤◌, ◌<◌, ◌≡◌, refl, ◌⊎◌, bit_and, arith, ◌==◌, leb,
  if◌then◌else◌, Option, none, some, ◌&&◌, bit_and_mask,
}
use native.Mathlib.Nat.{pow-suc, mul_comm, div-div-eq-div-mul}

abbrev pub Bytes : Type 0
Bytes = ℕ → ℕ

abbrev pub set_byte : Bytes → ℕ → ℕ → Bytes
set_byte mem p v q = if q == p then v else mem q

-- `memcpy(mem + p, &value, n)` of an integer on a little-endian host.
unfoldable pub memcpy : Bytes → ℕ → ℕ → ℕ → Bytes
memcpy mem p value zero = mem
memcpy mem p value (suc n) = memcpy (set_byte mem p (value % 256)) (p + 1) (value / 256) n

-- `*(uint32_t *)(mem + p)`.
unfoldable pub load32 : Bytes → ℕ → ℕ
load32 mem p = mem p + 256 * mem (p + 1) + 65536 * mem (p + 2) + 16777216 * mem (p + 3)

-- `~0u >> ((4 - len) << 3)`; other lengths shift out of range.
unfoldable pub len_mask : ℕ → Option ℕ
len_mask len = if leb 1 len && leb len 4 then some ((2 ^ 32 - 1) / 2 ^ ((4 - len) * 8)) else none

-- Every cell holds a byte.
abbrev pub IsBytes : Bytes → Type 0
IsBytes mem = (q : ℕ) → mem q < 256

-- A copy of `n` bytes leaves what lies outside them.
pub memcpy_outside :
    (mem : Bytes) (p value n q : ℕ) → (q < p) ⊎ (p + n ≤ q) → memcpy mem p value n q ≡ mem q
unfolding memcpy
memcpy_outside mem p value zero q out = refl
memcpy_outside mem p value (suc n) q out =
    ground (arith, memcpy_outside (set_byte mem p (value % 256)) (p + 1) (value / 256) n q)

-- Byte `k` of the copy is byte `k` of the value.
pub memcpy_inside :
    (mem : Bytes) (p value n k : ℕ) → k < n → memcpy mem p value n (p + k) ≡ value / 256 ^ k % 256
unfolding memcpy
memcpy_inside mem p value zero k h = absurd (omega arith)
memcpy_inside mem p value (suc n) zero h =
    let e : p + 0 ≡ p = omega arith in
    rw e (ground (arith, memcpy_outside (set_byte mem p (value % 256)) (p + 1) (value / 256) n p))
memcpy_inside mem p value (suc n) (suc k) h =
    let e : p + suc k ≡ p + 1 + k = omega arith in
    rw (e, memcpy_inside (set_byte mem p (value % 256)) (p + 1) (value / 256) n k (omega arith))
      (rw (pow-suc 256 k, mul_comm (256 ^ k) 256, div-div-eq-div-mul value 256 (256 ^ k)))

pub memcpy-IsBytes : (mem : Bytes) (p value n : ℕ) → IsBytes mem → IsBytes (memcpy mem p value n)
unfolding memcpy
memcpy-IsBytes mem p value zero h = h
memcpy-IsBytes mem p value (suc n) h =
    memcpy-IsBytes (set_byte mem p (value % 256)) (p + 1) (value / 256) n (λ q. ground (arith, h q))

-- Masking a load keeps its low `len` bytes.
pub load32-len_mask :
    (mem : Bytes) (p : ℕ)
    → IsBytes mem
    → (bit_and (load32 mem p) 0xff ≡ mem p)
      × (bit_and (load32 mem p) 0xffff ≡ mem p + 256 * mem (p + 1))
      × (bit_and (load32 mem p) 0xff_ffff ≡ mem p + 256 * mem (p + 1) + 65536 * mem (p + 2))
      × (bit_and (load32 mem p) 0xffff_ffff ≡ load32 mem p)
unfolding load32
load32-len_mask mem p h = (
  omega (arith, bit_and_mask 8 (load32 mem p), h p),
  omega (arith, bit_and_mask 16 (load32 mem p), h p, h (p + 1)),
  omega (arith, bit_and_mask 24 (load32 mem p), h p, h (p + 1), h (p + 2)),
  omega (arith, bit_and_mask 32 (load32 mem p), h p, h (p + 1), h (p + 2), h (p + 3)),
)
