-- ===== src/Mips32/Encoding.antt =====
-- The words that stand for the four instructions, and the fields that the code finds in them.
use ics.Base.{ℕ, ◌+◌, ◌*◌, ◌^◌, ◌<◌, ◌≡◌, arith}
use ics.Risc.Reference.{Instruction, lui, lw, sw, halt}
use ics.Mips32.Instr

-- An I-format word: `lui` leaves its `rs` zero.
abbrev pub i_format : ℕ → ℕ → ℕ → ℕ → ℕ
i_format opcode rs rt imm = opcode * 2 ^ 26 + rs * 2 ^ 21 + rt * 2 ^ 16 + imm

unfoldable pub encode : Instruction → ℕ
encode (lui rd imm) = i_format 0x0f 0 rd imm
encode (lw rd base offset) = i_format 0x23 base rd offset
encode (sw src base offset) = i_format 0x2b base src offset
encode halt = 0xf0000000

-- Five bits for a register, sixteen for an immediate.
unfoldable pub InRange : Instruction → Type 0
InRange (lui rd imm) = (rd < 2 ^ 5) × (imm < 2 ^ 16)
InRange (lw rd base offset) = (rd < 2 ^ 5) × (base < 2 ^ 5) × (offset < 2 ^ 16)
InRange (sw src base offset) = (src < 2 ^ 5) × (base < 2 ^ 5) × (offset < 2 ^ 16)
InRange halt = Unit {0}

pub i_fields :
    (opcode rs rt imm : ℕ)
    → opcode < 2 ^ 6
    → rs < 2 ^ 5
    → rt < 2 ^ 5
    → imm < 2 ^ 16
    → let w = i_format opcode rs rt imm in
      (Instr.opcode w ≡ opcode) × (Instr.rs w ≡ rs) × (Instr.rt w ≡ rt) × (Instr.imm w ≡ imm)
i_fields opcode rs rt imm ho hs ht hi = (omega arith, omega arith, omega arith, omega arith)
