-- ===== src/Risc/Table.antt =====
-- Tables of opcodes: `OpcodeEntry` and `idex` of nemu/include/cpu/exec.h, for helpers that read the
-- instruction word.
use ics.Base.{ℕ, zero, suc, List, ◌∷◌, get_elem?, skip, ◌>>=◌, ◌>>◌, from_option, modify}
use ics.Rtl.{Rtl}
use ics.Risc.{exec_inv}

-- A NULL decode helper is `skip`.
pub record Entry : Type 0 where
  pub decode : ℕ → Rtl
  pub execute : ℕ → Rtl
  pub width : ℕ

abbrev pub idexw : (ℕ → Rtl) → (ℕ → Rtl) → ℕ → Entry
idexw decode execute width = record { decode = decode; execute = execute; width = width }

abbrev pub exw : (ℕ → Rtl) → ℕ → Entry
exw execute width = idexw (λ instr. skip) execute width

abbrev pub empty : Entry
empty = exw (λ instr. exec_inv) 0

abbrev pub empties : ℕ → List Entry → List Entry
empties zero rest = rest
empties (suc n) rest = empty ∷ empties n rest

unfoldable pub idex : ℕ → Entry → Rtl
idex instr e = do e.decode instr; e.execute instr

unfoldable pub set_entry_width : ℕ → Rtl
set_entry_width width = modify λ m. record m { decinfo = record (m.decinfo) { width = width } }

-- The entry at an index, which a C array of 2^n entries has for every field of n bits.
unfoldable pub entry_of : List Entry → ℕ → (Entry → Rtl) → Rtl
entry_of table i run = do entry ← from_option (get_elem? table i); run entry
