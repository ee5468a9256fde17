-- ===== src/X86/Reg/Layout.antt =====
-- The registers as the bytes of `cpu.gpr`, which `rtl_lr` and `rtl_sr` reach by `rtl_host_lm` and
-- `rtl_host_sm`.
use ics.Base.{
  ℕ, ◌+◌, ◌*◌, ◌/◌, ◌%◌, ◌^◌, ◌<◌, ◌≡◌, inl, inr, some, arith, ◌==◌, if◌then◌else◌, Bool-cases, ◌⊎◌,
  true, false, refl,
}
use ics.Bus.Host.{Bytes, load32, memcpy}
use ics.Machine.{set_gpr}
use ics.Rtl.Host.{rtl_host_lm, rtl_host_sm}
use ics.X86.Reg.{read_reg, write_reg, set_byte_of}
use ics.X86.Reg.Views.{IsWidth, AreWords, word_index, byte_index}

-- Byte `k` of a word.
abbrev pub word_byte : ℕ → ℕ → ℕ
word_byte w k =
    if k == 0
    then w % 256
    else if k == 1
    then w / 256 % 256
    else if k == 2
    then w / 65536 % 256
    else w / 16777216 % 256

-- The bytes of the array, four for each register.
abbrev pub laid : (ℕ → ℕ) → Bytes
laid gpr p = word_byte (gpr (p / 4)) (p % 4)

-- Where `reg_l`, `reg_w` and `reg_b` lie in it.
abbrev pub reg_at : ℕ → ℕ → ℕ
reg_at r width = word_index r width * 4 + byte_index r width

read_reg-rtl_host_lm :
    (gpr : ℕ → ℕ) (r width : ℕ)
    → AreWords gpr
    → r < 8
    → IsWidth width
    → read_reg gpr r width ≡ rtl_host_lm (laid gpr) (reg_at r width) width
unfolding read_reg rtl_host_lm load32
read_reg-rtl_host_lm gpr r width words h (inl e) = ground (arith, words (r % 4))
read_reg-rtl_host_lm gpr r width words h (inr (inl e)) = ground (arith, words r)
read_reg-rtl_host_lm gpr r width words h (inr (inr e)) = ground (arith, words r)

-- The bytes of a word in which one byte was replaced.
word_byte-set_byte_of :
    (w q value k : ℕ)
    → w < 2 ^ 32
    → q < 2
    → k < 4
    → word_byte (set_byte_of w q value) k ≡ (if k == q then value % 256 else word_byte w k)
word_byte-set_byte_of w q value k small h l = ground arith

-- A place among the registers is in a given word, at one of its bytes, or in another word.
place :
    (p i : ℕ)
    → ((p / 4 == i) ≡ true) × (p / 4 ≡ i) × ((q : ℕ) → q < 4 → (p == i * 4 + q) ≡ (p % 4 == q))
      ⊎ ((p / 4 == i) ≡ false) × ((q : ℕ) → q < 4 → (p == i * 4 + q) ≡ false)
place p i = elim (Bool-cases (p / 4 == i)) [
  | inl e ↦ inl (e, ground (arith, e), λ q h. ground (arith, e))
  | inr e ↦ inr (e, λ q h. ground (arith, e))
]

-- What stores of one, two and four bytes leave at a place.
memcpy_one :
    (gpr : ℕ → ℕ) (i q value p : ℕ)
    → gpr i < 2 ^ 32
    → q < 2
    → memcpy (laid gpr) (i * 4 + q) value 1 p ≡ laid (set_gpr gpr i (set_byte_of (gpr i) q value)) p
unfolding memcpy
memcpy_one gpr i q value p small h = elim (place p i) [
  | inl (e, d, t) ↦
      rw (t q (omega arith), e)
        (rw (word_byte-set_byte_of (gpr i) q value (p % 4) small h (omega arith), d) refl)
  | inr (e, t) ↦ rw (t q (omega arith), e) refl
]

memcpy_half :
    (gpr : ℕ → ℕ) (i value p : ℕ)
    → memcpy (laid gpr) (i * 4) value 2 p
      ≡ laid (set_gpr gpr i (gpr i / 65536 * 65536 + value % 65536)) p
unfolding memcpy
memcpy_half gpr i value p = elim (place p i) [
  | inl (e, d, t) ↦ rw (e, d) (ground (arith, t 0 (omega arith), t 1 (omega arith), d))
  | inr (e, t) ↦ rw (e) (ground (arith, t 0 (omega arith), t 1 (omega arith)))
]

memcpy_word :
    (gpr : ℕ → ℕ) (i value p : ℕ)
    → value < 2 ^ 32
    → memcpy (laid gpr) (i * 4) value 4 p ≡ laid (set_gpr gpr i value) p
unfolding memcpy
memcpy_word gpr i value p small = elim (place p i) [
  | inl (e, d, t) ↦ rw (e, d) (ground (arith, d))
  | inr (e, t) ↦ rw e (ground arith)
]

-- Of 32-bit registers, a register of a width reads as `rtl_host_lm` loads that many bytes at its place
-- in `cpu.gpr`. Writing a 32-bit value to it succeeds, and so does `rtl_host_sm` at that place, which
-- leaves the bytes of the registers as they are after the write, those of the others included.
pub write_reg-rtl_host_sm :
    (gpr : ℕ → ℕ) (r width value : ℕ)
    → AreWords gpr
    → r < 8
    → IsWidth width
    → value < 2 ^ 32
    → (read_reg gpr r width ≡ rtl_host_lm (laid gpr) (reg_at r width) width)
      × (g : ℕ → ℕ) × (h : Bytes) × (write_reg gpr r value width ≡ some g)
      × (rtl_host_sm (laid gpr) (reg_at r width) value width ≡ some h)
      × ((p : ℕ) → h p ≡ laid g p)
unfolding write_reg rtl_host_sm
write_reg-rtl_host_sm gpr r width value words l (inl e) small = (
  read_reg-rtl_host_lm gpr r width words l (inl e),
  set_gpr gpr (r % 4) (set_byte_of (gpr (r % 4)) (r / 4) value),
  memcpy (laid gpr) (r % 4 * 4 + r / 4) value 1,
  ground arith,
  ground arith,
  λ p. memcpy_one gpr (r % 4) (r / 4) value p (words (r % 4)) (omega arith),
)
write_reg-rtl_host_sm gpr r width value words l (inr (inl e)) small = (
  read_reg-rtl_host_lm gpr r width words l (inr (inl e)),
  set_gpr gpr r (gpr r / 65536 * 65536 + value % 65536),
  memcpy (laid gpr) (r * 4) value 2,
  ground arith,
  ground arith,
  λ p. memcpy_half gpr r value p,
)
write_reg-rtl_host_sm gpr r width value words l (inr (inr e)) small = (
  read_reg-rtl_host_lm gpr r width words l (inr (inr e)),
  set_gpr gpr r value,
  memcpy (laid gpr) (r * 4) value 4,
  ground arith,
  ground arith,
  λ p. memcpy_word gpr r value p small,
)
