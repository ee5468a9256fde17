-- ===== src/X86/Reg.antt =====
-- The general registers: nemu/src/isa/x86/include/isa/reg.h and `rtl_lr`, `rtl_sr` of its rtl.h.
-- `gpr[i]` is a union: `_16` is its low half and `_8` its two low bytes, on a little-endian host.
pub mod Layout
pub mod Named
pub mod Names
pub mod Views
use ics.Base.{
  ℕ, ◌+◌, ◌-◌, ◌*◌, ◌/◌, ◌%◌, Bool, Option, none, some, ◌==◌, ltb, if◌then◌else◌, bind, Cmd,
}
use ics.Machine.{Machine, Loc, get, put, set_gpr}
use ics.Rtl.{Rtl}

abbrev pub r_eax : ℕ
r_eax = 0

abbrev pub r_ecx : ℕ
r_ecx = 1

abbrev pub r_edx : ℕ
r_edx = 2

abbrev pub r_ebx : ℕ
r_ebx = 3

abbrev pub r_esp : ℕ
r_esp = 4

abbrev pub r_ebp : ℕ
r_ebp = 5

abbrev pub r_ah : ℕ
r_ah = 4

-- `check_reg_index`.
unfoldable pub check_reg_index : ℕ → Option ℕ
check_reg_index index = if ltb index 8 then some index else none

-- Byte 0 or 1 of a word, and the word with that byte replaced. An array index past 1 cannot come
-- from an index below 8.
abbrev pub byte_of : ℕ → ℕ → ℕ
byte_of word k = if k == 0 then word % 256 else word / 256 % 256

abbrev pub set_byte_of : ℕ → ℕ → ℕ → ℕ
set_byte_of word k v =
    if k == 0 then word / 256 * 256 + v % 256 else word / 65536 * 65536 + v % 256 * 256 + word % 256

-- What `rtl_lr` reads: `reg_l`, `reg_w` or `reg_b` by the width.
unfoldable pub read_reg : (ℕ → ℕ) → ℕ → ℕ → Option ℕ
unfolding check_reg_index
read_reg gpr r width = bind (check_reg_index r) (λ i.
    if width == 4
    then some (gpr i)
    else if width == 1
    then some (byte_of (gpr (i % 4)) (i / 4))
    else if width == 2
    then some (gpr i % 65536)
    else none)

-- What `rtl_sr` leaves in the registers.
unfoldable pub write_reg : (ℕ → ℕ) → ℕ → ℕ → ℕ → Option (ℕ → ℕ)
unfolding check_reg_index
write_reg gpr r value width = bind (check_reg_index r) (λ i.
    if width == 4
    then some (set_gpr gpr i value)
    else if width == 1
    then some (set_gpr gpr (i % 4) (set_byte_of (gpr (i % 4)) (i / 4) value))
    else if width == 2
    then some (set_gpr gpr i (gpr i / 65536 * 65536 + value % 65536))
    else none)

unfoldable pub rtl_lr : Loc → ℕ → ℕ → Rtl
rtl_lr dest r width m = bind (read_reg m.cpu.gpr r width) (λ v. some (tt, put dest v m))

unfoldable pub rtl_sr : ℕ → Loc → ℕ → Rtl
rtl_sr r src1 width m =
    bind (write_reg m.cpu.gpr r (get src1 m) width)
      (λ g. some (tt, record m { cpu = record (m.cpu) { gpr = g } }))
