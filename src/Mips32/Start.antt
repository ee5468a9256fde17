-- ===== src/Mips32/Start.antt =====
-- The built-in image of nemu/src/isa/mips32/init.c: lui, sw, lw and nemu_trap.
use ics.Base.{ℕ, List, [], ◌∷◌}

abbrev pub isa_default_img : List ℕ
isa_default_img = 0x3c048000 ∷ 0xac800000 ∷ 0x8c820000 ∷ 0xf0000000 ∷ []
