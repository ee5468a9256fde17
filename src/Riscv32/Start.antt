-- ===== src/Riscv32/Start.antt =====
-- The built-in image of nemu/src/isa/riscv32/init.c: lui, sw, lw and nemu_trap.
use ics.Base.{ℕ, List, [], ◌∷◌}

abbrev pub isa_default_img : List ℕ
isa_default_img = 0x800002b7 ∷ 0x0002a023 ∷ 0x0002a503 ∷ 0x0000006b ∷ []
