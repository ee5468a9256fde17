-- ===== src/Rtl/Relop.antt =====
-- The relation codes of nemu/include/rtl/relop.h and their interpretation, nemu/src/cpu/relop.c.
use ics.Base.{
  ℕ, ◌+◌, Bool, true, false, not, Option, none, some, ◌==◌, ltb, leb, signed, ltb_ℤ, leb_ℤ,
  if◌then◌else◌, ◌%◌, ◌<◌, ◌≡◌, refl, arith, zero, suc,
}

pub data Relop : Type 0 where
  relop_false relop_true relop_eq relop_ne : Relop
  relop_lt relop_le relop_gt relop_ge : Relop
  relop_ltu relop_leu relop_gtu relop_geu : Relop

-- The number that the enumeration gives each relation.
abbrev pub code : Relop → ℕ
code relop_false = 0
code relop_true = 1
code relop_eq = 2
code relop_ne = 3
code relop_lt = 4
code relop_le = 6
code relop_gt = 7
code relop_ge = 5
code relop_ltu = 8
code relop_leu = 10
code relop_gtu = 11
code relop_geu = 9

-- The `switch`; `none` is its `panic`.
unfoldable pub interpret_relop : ℕ → ℕ → ℕ → Option Bool
interpret_relop relop a b =
    if relop == code relop_false
    then some false
    else if relop == code relop_true
    then some true
    else if relop == code relop_eq
    then some (a == b)
    else if relop == code relop_ne
    then some (not (a == b))
    else if relop == code relop_lt
    then some (ltb_ℤ (signed 32 a) (signed 32 b))
    else if relop == code relop_le
    then some (leb_ℤ (signed 32 a) (signed 32 b))
    else if relop == code relop_gt
    then some (ltb_ℤ (signed 32 b) (signed 32 a))
    else if relop == code relop_ge
    then some (leb_ℤ (signed 32 b) (signed 32 a))
    else if relop == code relop_ltu
    then some (ltb a b)
    else if relop == code relop_leu
    then some (leb a b)
    else if relop == code relop_gtu
    then some (ltb b a)
    else if relop == code relop_geu
    then some (leb b a)
    else none

-- For each of the even relation codes below 12 and any two operands, the next code (the lowest bit
-- set) answers, and its answer is the negation of the even code's.
pub interpret_relop_invert :
    (relop a b : ℕ)
    → relop < 12
    → relop % 2 ≡ 0
    → (r : Bool) × (interpret_relop relop a b ≡ some r)
      × (interpret_relop (relop + 1) a b ≡ some (not r))
unfolding interpret_relop
interpret_relop_invert zero a b h e = (false, refl, refl)
interpret_relop_invert (suc (suc zero)) a b h e = (a == b, refl, refl)
interpret_relop_invert (suc (suc (suc (suc zero)))) a b h e =
    (ltb_ℤ (signed 32 a) (signed 32 b), refl, ground arith)
interpret_relop_invert (suc (suc (suc (suc (suc (suc zero)))))) a b h e =
    (leb_ℤ (signed 32 a) (signed 32 b), refl, ground arith)
interpret_relop_invert (suc (suc (suc (suc (suc (suc (suc (suc zero)))))))) a b h e =
    (ltb a b, refl, ground arith)
interpret_relop_invert (suc (suc (suc (suc (suc (suc (suc (suc (suc (suc zero)))))))))) a b h e =
    (leb a b, refl, ground arith)
interpret_relop_invert _ a b h e = absurd (omega arith)

pub relop_ltu_lem : (a b : ℕ) → interpret_relop (code relop_ltu) a b ≡ some (ltb a b)
unfolding interpret_relop
relop_ltu_lem a b = refl

pub relop_ne_lem : (a b : ℕ) → interpret_relop (code relop_ne) a b ≡ some (not (a == b))
unfolding interpret_relop
relop_ne_lem a b = refl
