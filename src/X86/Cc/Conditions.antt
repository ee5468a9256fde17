-- ===== src/X86/Cc/Conditions.antt =====
-- What a condition code answers: `rtl_setcc` of nemu/src/isa/x86/exec/cc.c.
use ics.Base.{
  ◌≤◌, le→leb, ℕ, ◌+◌, ◌<◌, ◌≡◌, refl, suc, zero, ap, ◌∙◌, arith, ◌==◌, leb, to_bit, Ends, ends,
  Bool, true, false, ◌||◌, assert,
}
use mathlib.Core.Bool.{xor}
use ics.Machine.{Machine, Loc, Eflags}
use ics.Rtl.Op.{c_or, c_xor}
use ics.X86.Cc.{rtl_setcc}

-- Every flag is one bit.
pub record AreBits (f : Eflags) : Type 0 where
  pub cf : f.cf < 2
  pub zf : f.zf < 2
  pub sf : f.sf < 2
  pub of : f.of < 2

-- The i386 manual's conditions; there is none here for parity.
pub data Cond : Type 0 where
  overflow below equal below_or_equal sign less less_or_equal : Cond

abbrev pub cond_code : Cond → ℕ
cond_code overflow = 0
cond_code below = 2
cond_code equal = 4
cond_code below_or_equal = 6
cond_code sign = 8
cond_code less = 12
cond_code less_or_equal = 14

abbrev pub cond_holds : Cond → Eflags → Bool
cond_holds overflow f = f.of == 1
cond_holds below f = f.cf == 1
cond_holds equal f = f.zf == 1
cond_holds below_or_equal f = (f.cf == 1) || (f.zf == 1)
cond_holds sign f = f.sf == 1
cond_holds less f = xor (f.sf == 1) (f.of == 1)
cond_holds less_or_equal f = xor (f.sf == 1) (f.of == 1) || (f.zf == 1)

-- A condition code and its negation, which is the next number.
abbrev pub subcode : Cond → Bool → ℕ
subcode c negated = cond_code c + to_bit negated

bit_lem : (x : ℕ) → x < 2 → x ≡ to_bit (x == 1)
bit_lem zero p = refl
bit_lem (suc zero) p = refl
bit_lem (suc (suc x)) p = omega arith

or_bits : (a b : Bool) → c_or (to_bit a) (to_bit b) ≡ to_bit (a || b)
unfolding c_or
or_bits true true = refl
or_bits true false = refl
or_bits false true = refl
or_bits false false = refl

xor_bits : (a b : Bool) → c_xor (to_bit a) (to_bit b) ≡ to_bit (xor a b)
unfolding c_xor xor
xor_bits true true = refl
xor_bits true false = refl
xor_bits false true = refl
xor_bits false false = refl

or_cond : (a b : Bool) {x y : ℕ} → x ≡ to_bit a → y ≡ to_bit b → c_or x y ≡ to_bit (a || b)
or_cond a b p q = rw (p, q) (or_bits a b)

xor_cond : (a b : Bool) {x y : ℕ} → x ≡ to_bit a → y ≡ to_bit b → c_xor x y ≡ to_bit (xor a b)
xor_cond a b p q = rw (p, q) (xor_bits a b)

-- What the `switch` computes for each condition.
abbrev selected : Cond → Eflags → ℕ
selected overflow f = f.of
selected below f = f.cf
selected equal f = f.zf
selected below_or_equal f = c_or f.cf f.zf
selected sign f = f.sf
selected less f = c_xor f.sf f.of
selected less_or_equal f = c_or (c_xor f.sf f.of) f.zf

selected-cond : (c : Cond) (f : Eflags) → AreBits f → selected c f ≡ to_bit (cond_holds c f)
selected-cond overflow f v = bit_lem f.of v.of
selected-cond below f v = bit_lem f.cf v.cf
selected-cond equal f v = bit_lem f.zf v.zf
selected-cond below_or_equal f v =
    or_cond (f.cf == 1) (f.zf == 1) (bit_lem f.cf v.cf) (bit_lem f.zf v.zf)
selected-cond sign f v = bit_lem f.sf v.sf
selected-cond less f v = xor_cond (f.sf == 1) (f.of == 1) (bit_lem f.sf v.sf) (bit_lem f.of v.of)
selected-cond less_or_equal f v =
    or_cond (xor (f.sf == 1) (f.of == 1)) (f.zf == 1)
      (xor_cond (f.sf == 1) (f.of == 1) (bit_lem f.sf v.sf) (bit_lem f.of v.of)) (bit_lem f.zf v.zf)

-- The lowest bit of the code inverts the answer.
abbrev answered : Cond → Bool → Eflags → ℕ
answered c false f = selected c f
answered c true f = c_xor (selected c f) 1

xor-false : (b : Bool) → b ≡ xor b false
unfolding xor
xor-false true = refl
xor-false false = refl

answered-cond :
    (c : Cond) (negated : Bool) (f : Eflags)
    → AreBits f
    → answered c negated f ≡ to_bit (xor (cond_holds c f) negated)
answered-cond c false f v = selected-cond c f v ∙ ap to_bit (xor-false (cond_holds c f))
answered-cond c true f v = xor_cond (cond_holds c f) true (selected-cond c f v) refl

bit-le : (b : Bool) → to_bit b ≤ 1
bit-le true = omega arith
bit-le false = omega arith

-- The assertion at the end of `rtl_setcc` holds for a bit.
settle :
    {P : Machine → Type 0} (m : Machine) (b : Bool)
    → m.s0 ≡ to_bit b
    → P m
    → Ends P (assert (leb m.s0 1) m)
settle m b e p = let small : m.s0 ≤ 1 = rw e (bit-le b) in rw (le→leb small) (ends p)

-- The value in `s0` and what is left alone.
abbrev pub Answered : Machine → Bool → Machine → Type 0
Answered m b m' =
    (m'.s0 ≡ to_bit b)
    × (m'.cpu ≡ m.cpu)
    × (m'.decinfo ≡ m.decinfo)
    × (m'.nemu_state ≡ m.nemu_state)
    × (m'.bus ≡ m.bus)

-- On one-bit flags, `rtl_setcc` for every condition but parity, and for the negation of one,
-- returns and leaves in `s0` a 1 where the manual's condition (negated, where the code says so)
-- holds of EFLAGS and a 0 elsewhere; registers, flags, the decoded instruction, the run state and
-- the bus stay as they were.
pub setcc-cond :
    (m : Machine) (c : Cond) (negated : Bool)
    → AreBits m.cpu.eflags
    → Ends
        (Answered m (xor (cond_holds c m.cpu.eflags) negated))
        (rtl_setcc Loc.s0 (subcode c negated) m)
unfolding rtl_setcc
setcc-cond m overflow false v =
    let e = answered-cond overflow false m.cpu.eflags v in settle _ _ e (e, refl, refl, refl, refl)
setcc-cond m overflow true v =
    let e = answered-cond overflow true m.cpu.eflags v in settle _ _ e (e, refl, refl, refl, refl)
setcc-cond m below false v =
    let e = answered-cond below false m.cpu.eflags v in settle _ _ e (e, refl, refl, refl, refl)
setcc-cond m below true v =
    let e = answered-cond below true m.cpu.eflags v in settle _ _ e (e, refl, refl, refl, refl)
setcc-cond m equal false v =
    let e = answered-cond equal false m.cpu.eflags v in settle _ _ e (e, refl, refl, refl, refl)
setcc-cond m equal true v =
    let e = answered-cond equal true m.cpu.eflags v in settle _ _ e (e, refl, refl, refl, refl)
setcc-cond m below_or_equal false v =
    let e = answered-cond below_or_equal false m.cpu.eflags v in
    settle _ _ e (e, refl, refl, refl, refl)
setcc-cond m below_or_equal true v =
    let e = answered-cond below_or_equal true m.cpu.eflags v in
    settle _ _ e (e, refl, refl, refl, refl)
setcc-cond m sign false v =
    let e = answered-cond sign false m.cpu.eflags v in settle _ _ e (e, refl, refl, refl, refl)
setcc-cond m sign true v =
    let e = answered-cond sign true m.cpu.eflags v in settle _ _ e (e, refl, refl, refl, refl)
setcc-cond m less false v =
    let e = answered-cond less false m.cpu.eflags v in settle _ _ e (e, refl, refl, refl, refl)
setcc-cond m less true v =
    let e = answered-cond less true m.cpu.eflags v in settle _ _ e (e, refl, refl, refl, refl)
setcc-cond m less_or_equal false v =
    let e = answered-cond less_or_equal false m.cpu.eflags v in
    settle _ _ e (e, refl, refl, refl, refl)
setcc-cond m less_or_equal true v =
    let e = answered-cond less_or_equal true m.cpu.eflags v in
    settle _ _ e (e, refl, refl, refl, refl)
