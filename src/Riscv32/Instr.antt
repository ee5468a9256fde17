-- ===== src/Riscv32/Instr.antt =====
-- The instruction word: nemu/src/isa/riscv32/include/isa/decode.h.
use ics.Base.{ℕ, ◌/◌, ◌%◌, ◌^◌}
use ics.Risc.{sign_field}

-- The bit fields of `Instr`: the code reads these ten.
abbrev pub opcode1_0 : ℕ → ℕ
opcode1_0 val = val % 2 ^ 2

abbrev pub opcode6_2 : ℕ → ℕ
opcode6_2 val = val / 2 ^ 2 % 2 ^ 5

abbrev pub rd : ℕ → ℕ
rd val = val / 2 ^ 7 % 2 ^ 5

abbrev pub funct3 : ℕ → ℕ
funct3 val = val / 2 ^ 12 % 2 ^ 3

abbrev pub rs1 : ℕ → ℕ
rs1 val = val / 2 ^ 15 % 2 ^ 5

abbrev pub rs2 : ℕ → ℕ
rs2 val = val / 2 ^ 20 % 2 ^ 5

abbrev pub simm11_0 : ℕ → ℕ
simm11_0 val = sign_field 12 (val / 2 ^ 20 % 2 ^ 12)

abbrev pub imm4_0 : ℕ → ℕ
imm4_0 val = val / 2 ^ 7 % 2 ^ 5

abbrev pub simm11_5 : ℕ → ℕ
simm11_5 val = sign_field 7 (val / 2 ^ 25 % 2 ^ 7)

abbrev pub imm31_12 : ℕ → ℕ
imm31_12 val = val / 2 ^ 12 % 2 ^ 20
