-- ===== src/X86/Reg/Views.antt =====
-- How the 32-, 16- and 8-bit views of the registers overlap.
use ics.Base.{
  ℕ, ◌+◌, ◌*◌, ◌/◌, ◌%◌, ◌^◌, ◌≤◌, ◌<◌, ◌≡◌, ◌≢◌, ◌⊎◌, inl, inr, some, arith, ◌==◌, if◌then◌else◌,
}
use ics.X86.Reg.{read_reg, write_reg, set_byte_of}
use ics.Machine.{set_gpr}

-- A width that an instruction can have.
abbrev pub IsWidth : ℕ → Type 0
IsWidth width = (width ≡ 1) ⊎ (width ≡ 2) ⊎ (width ≡ 4)

-- Every register holds a 32-bit value.
abbrev pub AreWords : (ℕ → ℕ) → Type 0
AreWords gpr = (i : ℕ) → gpr i < 2 ^ 32

-- The word and the byte in it at which a register of a width begins.
abbrev pub word_index : ℕ → ℕ → ℕ
word_index r width = if width == 1 then r % 4 else r

abbrev pub byte_index : ℕ → ℕ → ℕ
byte_index r width = if width == 1 then r / 4 else 0

-- No byte belongs to both registers.
abbrev pub Apart : ℕ → ℕ → ℕ → ℕ → Type 0
Apart r w s v =
    (word_index r w ≢ word_index s v)
    ⊎ (byte_index r w + w ≤ byte_index s v)
    ⊎ (byte_index s v + v ≤ byte_index r w)

-- Writing a register of a width, over 32-bit registers: the write succeeds; the same register then
-- reads back the value modulo that width; a register of any width that shares no byte with it reads
-- what it did before; and all registers keep 32-bit values.
pub read_reg-write_reg :
    (gpr : ℕ → ℕ) (r width value : ℕ)
    → AreWords gpr
    → r < 8
    → IsWidth width
    → value < 2 ^ 32
    → (g : ℕ → ℕ) × (write_reg gpr r value width ≡ some g)
      × (read_reg g r width ≡ some (value % 256 ^ width))
      × ((s v : ℕ) → s < 8 → IsWidth v → Apart r width s v → read_reg g s v ≡ read_reg gpr s v)
      × AreWords g
unfolding read_reg write_reg
read_reg-write_reg gpr r width value words h (inl e) small =
    let g = set_gpr gpr (r % 4) (set_byte_of (gpr (r % 4)) (r / 4) value) in
    (
      g,
      ground arith,
      ground (arith, words (r % 4)),
      λ s v a b c. elim b [
        | inl x ↦ ground (arith, words (r % 4))
        | inr (inl x) ↦ ground (arith, words (r % 4))
        | inr (inr x) ↦ ground (arith, words (r % 4))
      ],
      λ i. ground (arith, words i),
    )
read_reg-write_reg gpr r width value words h (inr (inl e)) small =
    let g = set_gpr gpr r (gpr r / 65536 * 65536 + value % 65536) in
    (
      g,
      ground arith,
      ground (arith, words r),
      λ s v a b c. elim b [
        | inl x ↦ ground (arith, words r)
        | inr (inl x) ↦ ground (arith, words r)
        | inr (inr x) ↦ ground (arith, words r)
      ],
      λ i. ground (arith, words i),
    )
read_reg-write_reg gpr r width value words h (inr (inr e)) small = (
  set_gpr gpr r value,
  ground arith,
  ground arith,
  λ s v a b c. elim b [
    | inl x ↦ ground arith
    | inr (inl x) ↦ ground arith
    | inr (inr x) ↦ ground arith
  ],
  λ i. ground (arith, words i),
)
