-- ===== src/X86/Reg/Named.antt =====
-- The names of the general registers and what they read.
use mathlib.Core.Option.{none-ne-some, some-injective}
use ics.Base.{
  ℕ, zero, suc, ◌≡◌, refl, sym, some, List, [], ◌∷◌, get_elem?, ◌==◌, if◌then◌else◌, Bool-cases,
  inl, inr, codes, arith,
}
use ics.Machine.{Machine}
use ics.X86.Reg.{read_reg}
use ics.X86.Reg.Names.{isa_reg_str2val, regsl, regsw, regsb}

-- The names of the registers of a width.
abbrev pub reg_names : ℕ → List (List ℕ)
reg_names width =
    if width == 4 then regsl else if width == 2 then regsw else if width == 1 then regsb else []

by_regsl :
    (i : ℕ) (name : List ℕ) (m : Machine)
    → get_elem? regsl i ≡ some name
    → isa_reg_str2val (b'$' ∷ name) m ≡ read_reg m.cpu.gpr i 4
unfolding regsl isa_reg_str2val read_reg
by_regsl zero name m h = rw (sym (some-injective (codes "eax") name h)) refl
by_regsl (suc zero) name m h = rw (sym (some-injective (codes "ecx") name h)) refl
by_regsl (suc (suc zero)) name m h = rw (sym (some-injective (codes "edx") name h)) refl
by_regsl (suc (suc (suc zero))) name m h = rw (sym (some-injective (codes "ebx") name h)) refl
by_regsl (suc (suc (suc (suc zero)))) name m h = rw (sym (some-injective (codes "esp") name h)) refl
by_regsl (suc (suc (suc (suc (suc zero))))) name m h =
    rw (sym (some-injective (codes "ebp") name h)) refl
by_regsl (suc (suc (suc (suc (suc (suc zero)))))) name m h =
    rw (sym (some-injective (codes "esi") name h)) refl
by_regsl (suc (suc (suc (suc (suc (suc (suc zero))))))) name m h =
    rw (sym (some-injective (codes "edi") name h)) refl
by_regsl (suc (suc (suc (suc (suc (suc (suc (suc i)))))))) name m h = absurd (none-ne-some _ h)

by_regsw :
    (i : ℕ) (name : List ℕ) (m : Machine)
    → get_elem? regsw i ≡ some name
    → isa_reg_str2val (b'$' ∷ name) m ≡ read_reg m.cpu.gpr i 2
unfolding regsw isa_reg_str2val read_reg
by_regsw zero name m h = rw (sym (some-injective (codes "ax") name h)) refl
by_regsw (suc zero) name m h = rw (sym (some-injective (codes "cx") name h)) refl
by_regsw (suc (suc zero)) name m h = rw (sym (some-injective (codes "dx") name h)) refl
by_regsw (suc (suc (suc zero))) name m h = rw (sym (some-injective (codes "bx") name h)) refl
by_regsw (suc (suc (suc (suc zero)))) name m h = rw (sym (some-injective (codes "sp") name h)) refl
by_regsw (suc (suc (suc (suc (suc zero))))) name m h =
    rw (sym (some-injective (codes "bp") name h)) refl
by_regsw (suc (suc (suc (suc (suc (suc zero)))))) name m h =
    rw (sym (some-injective (codes "si") name h)) refl
by_regsw (suc (suc (suc (suc (suc (suc (suc zero))))))) name m h =
    rw (sym (some-injective (codes "di") name h)) refl
by_regsw (suc (suc (suc (suc (suc (suc (suc (suc i)))))))) name m h = absurd (none-ne-some _ h)

by_regsb :
    (i : ℕ) (name : List ℕ) (m : Machine)
    → get_elem? regsb i ≡ some name
    → isa_reg_str2val (b'$' ∷ name) m ≡ read_reg m.cpu.gpr i 1
unfolding regsb isa_reg_str2val read_reg
by_regsb zero name m h = rw (sym (some-injective (codes "al") name h)) refl
by_regsb (suc zero) name m h = rw (sym (some-injective (codes "cl") name h)) refl
by_regsb (suc (suc zero)) name m h = rw (sym (some-injective (codes "dl") name h)) refl
by_regsb (suc (suc (suc zero))) name m h = rw (sym (some-injective (codes "bl") name h)) refl
by_regsb (suc (suc (suc (suc zero)))) name m h = rw (sym (some-injective (codes "ah") name h)) refl
by_regsb (suc (suc (suc (suc (suc zero))))) name m h =
    rw (sym (some-injective (codes "ch") name h)) refl
by_regsb (suc (suc (suc (suc (suc (suc zero)))))) name m h =
    rw (sym (some-injective (codes "dh") name h)) refl
by_regsb (suc (suc (suc (suc (suc (suc (suc zero))))))) name m h =
    rw (sym (some-injective (codes "bh") name h)) refl
by_regsb (suc (suc (suc (suc (suc (suc (suc (suc i)))))))) name m h = absurd (none-ne-some _ h)

-- `$` and the name that the tables give a register in a width read that register in that width.
pub isa_reg_str2val-read_reg :
    (width i : ℕ) (name : List ℕ) (m : Machine)
    → get_elem? (reg_names width) i ≡ some name
    → isa_reg_str2val (b'$' ∷ name) m ≡ read_reg m.cpu.gpr i width
isa_reg_str2val-read_reg width i name m h = elim (Bool-cases (width == 4)) [
  | inl e ↦ (let w : width ≡ 4 = ground arith in rw w (by_regsl i name m (rw e at h)))
  | inr e ↦ elim (Bool-cases (width == 2)) [
    | inl f ↦ (let w : width ≡ 2 = ground arith in rw w (by_regsw i name m (rw (e, f) at h)))
    | inr f ↦ elim (Bool-cases (width == 1)) [
      | inl g ↦ (let w : width ≡ 1 = ground arith in rw w (by_regsb i name m (rw (e, f, g) at h)))
      | inr g ↦ absurd (none-ne-some _ (rw (e, f, g) at h))
    ]
  ]
]
