-- ===== src/X86/Arith/ValueAsWidth.antt =====
-- `inc`, `dec` and the shifts, which hand the destination's value to the flag computation as the
-- operand's width: nemu/src/isa/x86/exec/arith.c and logic.c.
use ics.Base.{
  Option, signed, pattern_of, ◌/◌, ◌%◌, ◌>>=◌, ◌>>◌, ℕ, ◌*◌, ◌<◌, ◌≡◌, refl, ◌⊎◌, inl, inr, none,
  some, false, arith, leb, bind, ◌^◌, ltb, if◌then◌else◌,
}
use native.Mathlib.Nat.{div-le_self}
use ics.Machine.{Machine, Loc, id_dest, get, put}
use ics.Rtl.{Rtl, rtl_steps}
use ics.Rtl.Op.{c_add, c_sub, c_shl, c_shr, c_sar, shift_floor}
use ics.X86.Flags.{rtl_update_zfsf}
use ics.X86.Flags.Values.{c_add-lt, c_sub-lt, pattern_of-lt}
use ics.X86.Operands.Write.{Writable, stored, operand_write-holds}
use ics.X86.Operands.{operand_write}
use ics.X86.Logic.{exec_shl, exec_shr, exec_sar}
use ics.X86.Arith.{exec_inc, exec_dec}

-- No width: C's shifts by `32 - v * 8` or `v * 8 - 1` are undefined.
abbrev pub NoWidth : ℕ → Type 0
NoWidth v = (v ≡ 0) ⊎ (4 < v)

leb-false : (a b : ℕ) → b < a → leb a b ≡ false
leb-false a b h = ground arith

pub zfsf-none : (l : Loc) (v : ℕ) (m : Machine) → NoWidth v → rtl_update_zfsf l v m ≡ none
unfolding rtl_update_zfsf c_shl rtl_steps
zfsf-none l v m (inl e) = rw e refl
zfsf-none l v m (inr h) = rw (leb-false v 4 h) refl

-- Whatever a shift gives, what follows it in the instruction is undefined.
abbrev store_by_value : Rtl
store_by_value = do
  operand_write id_dest Loc.s0
  v ← λ m. some (m.decinfo.dest.val, m)
  rtl_update_zfsf Loc.s0 v

-- A shift's result, put in `s0`.
abbrev settled : Option ℕ → Rtl
settled o m = bind o (λ r. some (tt, put Loc.s0 r m))

shift-none :
    (m : Machine) (o : Option ℕ)
    → Writable m
    → NoWidth m.decinfo.dest.val
    → ((r : ℕ) → o ≡ some r → r < 2 ^ 32)
    → bind (settled o m) (λ (t, n). store_by_value n) ≡ none
unfolding get put
shift-none m none can bad small = refl
shift-none m (some r) can bad small =
    let m1 : Machine = record m { s0 = r } in
    let (gpr, bus, wrote, is, still) = operand_write-holds Loc.s0 m1 can (small r refl) in
    rw (wrote, zfsf-none Loc.s0 m.decinfo.dest.val (stored gpr bus m1) bad) refl

guarded-lt :
    (b x : ℕ) {r : ℕ} → x < 2 ^ 32 → (if ltb b 32 then some x else none) ≡ some r → r < 2 ^ 32
guarded-lt b x small e = ground arith

-- On a destination that can be written and whose decoded value is a 32-bit one, but 0 or above 4,
-- none of `shl`, `shr` and `sar` returns: the flag computation shifts by an undefined count.
pub shifts-none :
    (m : Machine)
    → Writable m
    → NoWidth m.decinfo.dest.val
    → m.decinfo.dest.val < 2 ^ 32
    → (exec_shl m ≡ none) × (exec_shr m ≡ none) × (exec_sar m ≡ none)
unfolding exec_shl exec_shr exec_sar rtl_steps c_shl c_shr c_sar
shifts-none m can bad h =
    let d = m.decinfo.dest.val in
    let s = m.decinfo.src.val in
    (
      shift-none m (c_shl d s) can bad (λ r e. guarded-lt s (d * 2 ^ s % 2 ^ 32) (omega arith) e),
      shift-none m (c_shr d s) can bad
          (λ r e. guarded-lt s (d / 2 ^ s) (omega (arith, div-le_self d (2 ^ s))) e),
      shift-none m (c_sar d s) can bad
          (λ r e. guarded-lt s (pattern_of 32 (shift_floor (signed 32 d) s)) (pattern_of-lt _) e),
    )

-- On a destination that can be written and whose decoded value is 0 or above 4, neither `inc` nor
-- `dec` returns: the flag computation shifts by an undefined count.
pub inc-dec-none :
    (m : Machine)
    → Writable m
    → NoWidth m.decinfo.dest.val
    → (exec_inc m ≡ none) × (exec_dec m ≡ none)
unfolding exec_inc exec_dec rtl_steps
inc-dec-none m can bad =
    let d = m.decinfo.dest.val in
    let m1 : Machine = record m { ir = 1; s0 = c_add d 1 } in
    let (gpr, bus, wrote, is, still) = operand_write-holds Loc.s0 m1 can (c_add-lt d 1) in
    let m2 : Machine = record m { ir = 1; s0 = c_sub d 1 } in
    let (gpr2, bus2, wrote2, is2, still2) = operand_write-holds Loc.s0 m2 can (c_sub-lt d 1) in
    (
      rw (wrote, zfsf-none Loc.s0 d (stored gpr bus m1) bad) refl,
      rw (wrote2, zfsf-none Loc.s0 d (stored gpr2 bus2 m2) bad) refl,
    )
