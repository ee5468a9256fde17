-- ===== src/X86/Reg/Names.antt =====
-- Registers by name: `isa_reg_str2val` of nemu/src/isa/x86/reg.c.
use ics.Base.{ℕ, ◌%◌, Option, none, some, List, [], ◌∷◌, if◌then◌else◌, codes, same_text}
use ics.Machine.{Machine}
use ics.X86.Reg.{byte_of}

unfoldable pub regsl : List (List ℕ)
regsl =
    (codes "eax")
    ∷ (codes "ecx")
    ∷ (codes "edx")
    ∷ (codes "ebx")
    ∷ (codes "esp")
    ∷ (codes "ebp")
    ∷ (codes "esi")
    ∷ (codes "edi")
    ∷ []

unfoldable pub regsw : List (List ℕ)
regsw =
    (codes "ax")
    ∷ (codes "cx")
    ∷ (codes "dx")
    ∷ (codes "bx")
    ∷ (codes "sp")
    ∷ (codes "bp")
    ∷ (codes "si")
    ∷ (codes "di")
    ∷ []

unfoldable pub regsb : List (List ℕ)
regsb =
    (codes "al")
    ∷ (codes "cl")
    ∷ (codes "dl")
    ∷ (codes "bl")
    ∷ (codes "ah")
    ∷ (codes "ch")
    ∷ (codes "dh")
    ∷ (codes "bh")
    ∷ []

-- The comparisons in order, each with what it returns.
abbrev pub names : Machine → List (List ℕ × ℕ)
names m =
    (codes "$eax", m.cpu.gpr 0)
    ∷ (codes "$ecx", m.cpu.gpr 1)
    ∷ (codes "$edx", m.cpu.gpr 2)
    ∷ (codes "$ebx", m.cpu.gpr 3)
    ∷ (codes "$esp", m.cpu.gpr 4)
    ∷ (codes "$ebp", m.cpu.gpr 5)
    ∷ (codes "$esi", m.cpu.gpr 6)
    ∷ (codes "$edi", m.cpu.gpr 7)
    ∷ (codes "$ax", m.cpu.gpr 0 % 65536)
    ∷ (codes "$cx", m.cpu.gpr 1 % 65536)
    ∷ (codes "$dx", m.cpu.gpr 2 % 65536)
    ∷ (codes "$bx", m.cpu.gpr 3 % 65536)
    ∷ (codes "$sp", m.cpu.gpr 4 % 65536)
    ∷ (codes "$bp", m.cpu.gpr 5 % 65536)
    ∷ (codes "$si", m.cpu.gpr 6 % 65536)
    ∷ (codes "$di", m.cpu.gpr 7 % 65536)
    ∷ (codes "$al", byte_of (m.cpu.gpr 0) 0)
    ∷ (codes "$cl", byte_of (m.cpu.gpr 1) 0)
    ∷ (codes "$dl", byte_of (m.cpu.gpr 2) 0)
    ∷ (codes "$bl", byte_of (m.cpu.gpr 3) 0)
    ∷ (codes "$ah", byte_of (m.cpu.gpr 0) 1)
    ∷ (codes "$ch", byte_of (m.cpu.gpr 1) 1)
    ∷ (codes "$dh", byte_of (m.cpu.gpr 2) 1)
    ∷ (codes "$bh", byte_of (m.cpu.gpr 3) 1)
    ∷ (codes "$pc", m.cpu.pc)
    ∷ []

abbrev pub find_name : List ℕ → List (List ℕ × ℕ) → Option ℕ
find_name s [] = none
find_name s ((name, v) ∷ rest) = if same_text s name then some v else find_name s rest

-- An unknown name fails an assertion.
unfoldable pub isa_reg_str2val : List ℕ → Machine → Option ℕ
isa_reg_str2val s m = find_name s (names m)
