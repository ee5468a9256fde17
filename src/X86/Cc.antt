-- ===== src/X86/Cc.antt =====
-- Condition codes: `rtl_setcc` of nemu/src/isa/x86/exec/cc.c.
pub mod Conditions
use ics.Base.{ℕ, ◌==◌, leb, if◌then◌else◌, ◌>>=◌, ◌>>◌, skip, abort, assert, bit_and, some, Cmd}
use ics.Machine.{Machine, Loc, get}
use ics.Rtl.{Rtl, rtl_or, rtl_xor, rtl_xori, rtl_steps}
use ics.X86.Flags.{rtl_get_cf, rtl_get_of, rtl_get_sf, rtl_get_zf}

-- The even codes of the enumeration: each odd code is the negation of the one before.
abbrev cc_o : ℕ
cc_o = 0

abbrev cc_b : ℕ
cc_b = 2

abbrev cc_e : ℕ
cc_e = 4

abbrev cc_be : ℕ
cc_be = 6

abbrev cc_s : ℕ
cc_s = 8

abbrev cc_l : ℕ
cc_l = 12

abbrev cc_le : ℕ
cc_le = 14

-- The `switch`. CC_P panics, and no other code is left.
unfoldable pub condition : Loc → ℕ → Rtl
unfolding rtl_steps rtl_get_cf rtl_get_of rtl_get_sf rtl_get_zf
condition dest even =
    if even == cc_o
    then rtl_get_of dest
    else if even == cc_b
    then rtl_get_cf dest
    else if even == cc_e
    then rtl_get_zf dest
    else if even == cc_be
    then (do rtl_get_cf Loc.t0; rtl_get_zf Loc.t1; rtl_or dest Loc.t0 Loc.t1)
    else if even == cc_s
    then rtl_get_sf dest
    else if even == cc_l
    then (do rtl_get_sf Loc.t0; rtl_get_of Loc.t1; rtl_xor dest Loc.t0 Loc.t1)
    else if even == cc_le
    then (do
      rtl_get_sf Loc.t0
      rtl_get_of Loc.t1
      rtl_xor Loc.t0 Loc.t0 Loc.t1
      rtl_get_zf Loc.t1
      rtl_or dest Loc.t0 Loc.t1)
    else abort

unfoldable pub rtl_setcc : Loc → ℕ → Rtl
unfolding condition
rtl_setcc dest subcode = do
  condition dest (bit_and subcode 0xe)
  if bit_and subcode 0x1 == 0 then skip else rtl_xori dest dest 0x1
  v ← λ m. some (get dest m, m)
  assert (leb v 1)
