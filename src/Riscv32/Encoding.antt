-- ===== src/Riscv32/Encoding.antt =====
-- The words that stand for the four instructions, and the fields that the code finds in them.
use ics.Base.{
  ℕ, ◌+◌, ◌*◌, ◌/◌, ◌%◌, ◌^◌, ◌<◌, ◌≡◌, ◌∙◌, ap, arith, bit_or, zero-bit_or, bit_or-zero,
  bit_or-field,
}
use ics.Risc.{sign_field}
use ics.Risc.Reference.{Instruction, lui, lw, sw, halt}
use ics.Riscv32.Instr
use ics.Riscv32.Decode.{store_offset}

-- U, I and S format.
unfoldable pub encode : Instruction → ℕ
encode (lui rd imm) = imm * 2 ^ 12 + rd * 2 ^ 7 + 0x37
encode (lw rd base offset) = offset * 2 ^ 20 + base * 2 ^ 15 + 2 * 2 ^ 12 + rd * 2 ^ 7 + 0x03
encode (sw src base offset) =
    offset / 2 ^ 5 * 2 ^ 25
    + src * 2 ^ 20
    + base * 2 ^ 15
    + 2 * 2 ^ 12
    + offset % 2 ^ 5 * 2 ^ 7
    + 0x23
encode halt = 0x6b

-- Five bits for a register, twenty or twelve for an immediate.
unfoldable pub InRange : Instruction → Type 0
InRange (lui rd imm) = (rd < 2 ^ 5) × (imm < 2 ^ 20)
InRange (lw rd base offset) = (rd < 2 ^ 5) × (base < 2 ^ 5) × (offset < 2 ^ 12)
InRange (sw src base offset) = (src < 2 ^ 5) × (base < 2 ^ 5) × (offset < 2 ^ 12)
InRange halt = Unit {0}

-- The parts of a word in the three formats.
pub u_fields :
    (op rd imm : ℕ)
    → op < 2 ^ 7
    → rd < 2 ^ 5
    → imm < 2 ^ 20
    → (w : ℕ) → w ≡ imm * 2 ^ 12 + rd * 2 ^ 7 + op
    → (Instr.opcode1_0 w ≡ op % 4)
      × (Instr.opcode6_2 w ≡ op / 4)
      × (Instr.rd w ≡ rd)
      × (Instr.imm31_12 w ≡ imm)
u_fields op rd imm ho hr hi w e = (omega arith, omega arith, omega arith, omega arith)

pub i_fields :
    (op rd funct3 rs1 imm : ℕ)
    → op < 2 ^ 7
    → rd < 2 ^ 5
    → funct3 < 2 ^ 3
    → rs1 < 2 ^ 5
    → imm < 2 ^ 12
    → (w : ℕ) → w ≡ imm * 2 ^ 20 + rs1 * 2 ^ 15 + funct3 * 2 ^ 12 + rd * 2 ^ 7 + op
    → (Instr.opcode1_0 w ≡ op % 4)
      × (Instr.opcode6_2 w ≡ op / 4)
      × (Instr.rd w ≡ rd)
      × (Instr.funct3 w ≡ funct3)
      × (Instr.rs1 w ≡ rs1)
      × (w / 2 ^ 20 % 2 ^ 12 ≡ imm)
i_fields op rd funct3 rs1 imm ho hr hf hs hi w e =
    (omega arith, omega arith, omega arith, omega arith, omega arith, omega arith)

-- The S format is the I format with its immediate in two parts.
store_parts :
    (high low : ℕ)
    → high < 2 ^ 7
    → low < 2 ^ 5
    → bit_or (sign_field 7 high * 2 ^ 5 % 2 ^ 32) low ≡ sign_field 12 (high * 2 ^ 5 + low)
store_parts high low h l =
    let q = sign_field 7 high % 2 ^ 27 in
    let shifted : sign_field 7 high * 2 ^ 5 % 2 ^ 32 ≡ q * 2 ^ 5 + 0 = ground arith in
    let field : low ≡ 0 * 2 ^ 5 + low = omega arith in
    rw shifted (
      ap (bit_or (q * 2 ^ 5 + 0)) field
      ∙ bit_or-field 5 q 0 0 low (omega arith) l
      ∙ rw (bit_or-zero q, zero-bit_or low) (ground arith))

pub s_fields :
    (op funct3 rs1 rs2 imm : ℕ)
    → op < 2 ^ 7
    → funct3 < 2 ^ 3
    → rs1 < 2 ^ 5
    → rs2 < 2 ^ 5
    → imm < 2 ^ 12
    → (w : ℕ)
    → w
      ≡ imm / 2 ^ 5 * 2 ^ 25
        + rs2 * 2 ^ 20
        + rs1 * 2 ^ 15
        + funct3 * 2 ^ 12
        + imm % 2 ^ 5 * 2 ^ 7
        + op
    → (Instr.opcode1_0 w ≡ op % 4)
      × (Instr.opcode6_2 w ≡ op / 4)
      × (Instr.funct3 w ≡ funct3)
      × (Instr.rs1 w ≡ rs1)
      × (Instr.rs2 w ≡ rs2)
      × (store_offset w ≡ sign_field 12 imm)
unfolding store_offset
s_fields op funct3 rs1 rs2 imm ho hf hs ht hi w e =
    let high : w / 2 ^ 25 % 2 ^ 7 ≡ imm / 2 ^ 5 = omega arith in
    let low : w / 2 ^ 7 % 2 ^ 5 ≡ imm % 2 ^ 5 = omega arith in
    let whole : imm / 2 ^ 5 * 2 ^ 5 + imm % 2 ^ 5 ≡ imm = omega arith in
    (
      omega arith,
      omega arith,
      omega arith,
      omega arith,
      omega arith,
      rw (high, low)
          (store_parts (imm / 2 ^ 5) (imm % 2 ^ 5) (omega arith) (omega arith)
            ∙ ap (sign_field 12) whole),
    )
