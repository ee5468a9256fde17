-- ===== src/Risc/ZeroRegister.antt =====
-- Register 0 of the two RISC instruction sets: what the commands that they are built from leave of it.
use ics.Base.{
  ℕ, ◌||◌, zero, suc, ◌≡◌, refl, ◌∙◌, Option, none, some, Bool, true, false, ◌==◌, ltb,
  if◌then◌else◌, List, [], ◌∷◌, Cmd, ◌>>=◌, ◌>>◌, bind, Bool-cases, inl, inr, arith, skip, assert,
  from_option,
}
use ics.Machine.{
  Machine, Loc, Operand, OperandId, id_src, id_src2, id_dest, get, put, operand, set_operand,
  on_bus, interpret_rtl_exit, op_type_reg,
}
use ics.Bus.Memory.{isa_vaddr_read, isa_vaddr_write}
use ics.Bus.{Bus}
use ics.Cpu.{instr_fetch}
use ics.Rtl.{Rtl, rtl_li, rtl_mv, rtl_lm, rtl_sm, rtl_add}
use ics.Risc.{
  rtl_lr, rtl_sr, decode_op_i, decode_op_r, exec_ld, exec_st, exec_inv, assert_width, reg_of, trap,
}
use ics.Risc.Table.{Entry, exw, empties, idex, set_entry_width, entry_of}

-- Wherever a command returns, register 0 is as it was.
unfoldable pub Kept : {A : Type 0} → ℕ → Option (A × Machine) → Type 0
Kept g none = Unit {0}
Kept g (some (v, m)) = m.cpu.gpr 0 ≡ g

abbrev pub Keeps : {A : Type 0} → Cmd Machine A → Type 0
Keeps c = (m : Machine) → Kept (m.cpu.gpr 0) (c m)

Kept-bind :
    {A B : Type 0} (g : ℕ) (o : Option (A × Machine)) (k : A × Machine → Option (B × Machine))
    → Kept g o
    → ((v : A) (m : Machine) → m.cpu.gpr 0 ≡ g → Kept g (k (v, m)))
    → Kept g (bind o k)
unfolding Kept
Kept-bind g none k h f = tt
Kept-bind g (some (v, m)) k h f = f v m h

pub Keeps-then :
    {A B : Type 0} (c : Cmd Machine A) (k : A → Cmd Machine B)
    → Keeps c
    → ((v : A) → Keeps (k v))
    → Keeps (c >>= k)
Keeps-then c k h f m = Kept-bind (m.cpu.gpr 0) (c m) _ (h m) (λ v m' e. rw (← e) (f v m'))

Keeps-bind :
    {A X : Type 0} (o : Option X) (k : X → Cmd Machine A)
    → ((x : X) → Keeps (k x))
    → Keeps (from_option o >>= k)
unfolding Kept
Keeps-bind none k h m = tt
Keeps-bind (some x) k h m = h x m

Keeps-if :
    {A : Type 0} (c d : Cmd Machine A) (b : Bool) → Keeps c → Keeps d → Keeps (if b then c else d)
Keeps-if c d true h k = h
Keeps-if c d false h k = k

on_bus-Keeps : {A : Type 0} (access : Cmd Bus A) → Keeps (on_bus access)
unfolding Kept
on_bus-Keeps {A} access m = go (access m.bus)
  where
    go :
        (o : Option (A × Bus))
        → Kept (m.cpu.gpr 0) (bind o (λ (a, b). some (a, record m { bus = b })))
    go none = tt
    go (some (a, b)) = refl

set_operand-gpr :
    (id : OperandId) (m : Machine) (o : Operand) → (set_operand id o m).cpu.gpr 0 ≡ m.cpu.gpr 0
unfolding set_operand
set_operand-gpr id_src m o = refl
set_operand-gpr id_src2 m o = refl
set_operand-gpr id_dest m o = refl

put_val-gpr :
    (id : OperandId) (v : ℕ) (m : Machine) → (put (Loc.val id) v m).cpu.gpr 0 ≡ m.cpu.gpr 0
unfolding put
put_val-gpr id v m = set_operand-gpr id m _

pub rtl_lr-Keeps : (id : OperandId) (r : ℕ) → Keeps (rtl_lr (Loc.val id) r)
unfolding rtl_lr rtl_li rtl_mv Kept
rtl_lr-Keeps id r m = elim (Bool-cases (r == 0)) [
  | inl z ↦ rw z (put_val-gpr id 0 m)
  | inr z ↦
      rw z (elim (Bool-cases (ltb r 32)) [ inl l ↦ rw l (put_val-gpr id _ m) | inr l ↦ rw l tt ])
]

-- Register 0 is never a destination.
pub rtl_sr-Keeps : (r : ℕ) (src1 : Loc) → Keeps (rtl_sr r src1)
unfolding rtl_sr rtl_mv put Kept
rtl_sr-Keeps r src1 m = elim (Bool-cases (r == 0)) [
  | inl z ↦ rw z refl
  | inr z ↦ rw z (elim (Bool-cases (ltb r 32)) [ inl l ↦ rw l (ground arith) | inr l ↦ rw l tt ])
]

pub decode_op_i-Keeps : (id : OperandId) (imm : ℕ) → Keeps (decode_op_i id imm)
unfolding decode_op_i Kept
decode_op_i-Keeps id imm m = put_val-gpr id imm _ ∙ set_operand-gpr id m _

pub decode_op_r-Keeps :
    (id : OperandId) (reg : ℕ) (load_val : Bool) → Keeps (decode_op_r id reg load_val)
unfolding decode_op_r Kept
decode_op_r-Keeps id reg false m = set_operand-gpr id m _
decode_op_r-Keeps id reg true m =
    let m1 = set_operand id (record (operand id m) { type = op_type_reg; word = reg }) m in
    rw (← set_operand-gpr id m (record (operand id m) { type = op_type_reg; word = reg }))
      (rtl_lr-Keeps id reg m1)

pub instr_fetch-Keeps : (len : ℕ) → Keeps (instr_fetch Loc.seq_pc len)
unfolding instr_fetch
instr_fetch-Keeps len m =
    Kept-bind _ (on_bus (isa_vaddr_read (get Loc.seq_pc m) len) m) _
      (on_bus-Keeps (isa_vaddr_read (get Loc.seq_pc m) len) m) (unfold put Kept in λ v m' e. e)

rtl_lm-Keeps : (place : Loc) (len : ℕ) → Keeps (rtl_lm Loc.s0 place len)
unfolding rtl_lm
rtl_lm-Keeps place len m =
    Kept-bind _ (on_bus (isa_vaddr_read (get place m) len) m) _
      (on_bus-Keeps (isa_vaddr_read (get place m) len) m) (unfold put Kept in λ v m' e. e)

rtl_sm-Keeps : (place src1 : Loc) (len : ℕ) → Keeps (rtl_sm place src1 len)
unfolding rtl_sm
rtl_sm-Keeps place src1 len m = on_bus-Keeps (isa_vaddr_write (get place m) (get src1 m) len) m

pub assert-Keeps : (b : Bool) → Keeps (assert b)
unfolding Kept
assert-Keeps true m = refl
assert-Keeps false m = tt

assert_width-Keeps : Keeps assert_width
assert_width-Keeps m =
    assert-Keeps (m.decinfo.width == 4 || m.decinfo.width == 2 || m.decinfo.width == 1) m

pub rtl_add_addr-Keeps : (src1 src2 : Loc) → Keeps (rtl_add (Loc.addr id_src) src1 src2)
unfolding rtl_add put Kept
rtl_add_addr-Keeps src1 src2 m = refl

pub trap-Keeps : (r : ℕ) → Keeps (trap r)
unfolding trap interpret_rtl_exit Kept
trap-Keeps r m = refl

pub exec_ld-Keeps : Keeps exec_ld
unfolding exec_ld
exec_ld-Keeps m =
    Keeps-then (λ m. rtl_lm Loc.s0 (Loc.addr id_src) m.decinfo.width m) _
      (λ m. rtl_lm-Keeps (Loc.addr id_src) m.decinfo.width m)
      (λ t.
        Keeps-then (reg_of id_dest (λ r. rtl_sr r Loc.s0)) _
          (λ m. rtl_sr-Keeps (operand id_dest m).word Loc.s0 m) (λ t. assert_width-Keeps))
      m

pub exec_st-Keeps : Keeps exec_st
unfolding exec_st
exec_st-Keeps m =
    Keeps-then (λ m. rtl_sm (Loc.addr id_src) (Loc.val id_dest) m.decinfo.width m) _
      (λ m. rtl_sm-Keeps (Loc.addr id_src) (Loc.val id_dest) m.decinfo.width m)
      (λ t. assert_width-Keeps) m

pub exec_inv-Keeps : Keeps exec_inv
unfolding exec_inv Kept
exec_inv-Keeps m =
    Keeps-then (instr_fetch Loc.seq_pc 4) _ (instr_fetch-Keeps 4)
      (λ v. Keeps-then (instr_fetch Loc.seq_pc 4) _ (instr_fetch-Keeps 4) (λ w m'. refl))
      (put Loc.seq_pc m.cpu.pc m)

-- An entry whose helpers keep register 0, and a table of those.
pub record EntryKeeps (e : Entry) : Type 0 where
  pub decode : (instr : ℕ) → Keeps (e.decode instr)
  pub execute : (instr : ℕ) → Keeps (e.execute instr)

pub data AllKeep : List Entry → Type 0 where
  nil : AllKeep []
  cons : {e : Entry} {table : List Entry} → EntryKeeps e → AllKeep table → AllKeep (e ∷ table)

pub skip-Keeps : Keeps skip
unfolding Kept
skip-Keeps m = refl

pub only_executes :
    {execute : ℕ → Rtl} {width : ℕ}
    → ((instr : ℕ) → Keeps (execute instr))
    → EntryKeeps (exw execute width)
only_executes h = record { decode = λ i. skip-Keeps; execute = h }

pub empties-AllKeep : (n : ℕ) {rest : List Entry} → AllKeep rest → AllKeep (empties n rest)
empties-AllKeep zero h = h
empties-AllKeep (suc n) h =
    cons (record { decode = λ i. skip-Keeps; execute = λ i. exec_inv-Keeps }) (empties-AllKeep n h)

pub idex-Keeps : (instr : ℕ) (e : Entry) → EntryKeeps e → Keeps (idex instr e)
unfolding idex
idex-Keeps instr e h = Keeps-then (e.decode instr) _ (h.decode instr) (λ t. h.execute instr)

pub set_idex-Keeps :
    (instr : ℕ) (e : Entry) → EntryKeeps e → Keeps (set_entry_width e.width >> idex instr e)
unfolding set_entry_width
set_idex-Keeps instr e h m = idex-Keeps instr e h _

pub entry_of-Keeps :
    {table : List Entry} (i : ℕ) (run : Entry → Rtl)
    → AllKeep table
    → ((e : Entry) → EntryKeeps e → Keeps (run e))
    → Keeps (entry_of table i run)
unfolding entry_of Kept
entry_of-Keeps i run nil h m = tt
entry_of-Keeps zero run (cons {e} k ks) h m = h e k m
entry_of-Keeps (suc i) run (cons k ks) h m = entry_of-Keeps i run ks h m
