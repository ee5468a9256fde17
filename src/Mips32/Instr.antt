-- ===== src/Mips32/Instr.antt =====
-- The instruction word: nemu/src/isa/mips32/include/isa/decode.h.
use ics.Base.{ℕ, ◌/◌, ◌%◌, ◌^◌}
use ics.Risc.{sign_field}

-- The bit fields of `Instr`: the code reads these six.
abbrev pub simm : ℕ → ℕ
simm val = sign_field 16 (val % 2 ^ 16)

abbrev pub imm : ℕ → ℕ
imm val = val % 2 ^ 16

abbrev pub opcode : ℕ → ℕ
opcode val = val / 2 ^ 26 % 2 ^ 6

abbrev pub func : ℕ → ℕ
func val = val % 2 ^ 6

abbrev pub rt : ℕ → ℕ
rt val = val / 2 ^ 16 % 2 ^ 5

abbrev pub rs : ℕ → ℕ
rs val = val / 2 ^ 21 % 2 ^ 5
