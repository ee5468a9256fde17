-- ===== src/Risc/Registers.antt =====
-- What the register instructions do, for a register number of five bits.
use ics.Base.{
  ℕ, ◌^◌, ◌<◌, ◌≡◌, refl, some, ◌==◌, if◌then◌else◌, Bool-cases, inl, inr, lt→ltb, true, false,
}
use ics.Machine.{Machine, Loc, OperandId, get, put, set_gpr, operand, set_operand, op_type_reg}
use ics.Rtl.{rtl_li, rtl_mv}
use ics.Risc.{rtl_lr, rtl_sr, decode_op_r}
use ics.Risc.Reference.{read, cells}

abbrev pub written : ℕ → ℕ → Machine → Machine
written r v m = record m {
  cpu = record (m.cpu) { gpr = if r == 0 then m.cpu.gpr else set_gpr m.cpu.gpr r v };
}

pub rtl_lr_lem :
    (dest : Loc) (r : ℕ) (m : Machine)
    → r < 2 ^ 5
    → rtl_lr dest r m ≡ some (tt, put dest (read r (cells m)) m)
unfolding rtl_lr rtl_li rtl_mv get
rtl_lr_lem dest r m h = elim (Bool-cases (r == 0)) [
  | inl z ↦ rw z refl
  | inr z ↦ rw (z, lt→ltb r 32 h) refl
]

pub rtl_sr_lem :
    (r : ℕ) (src1 : Loc) (m : Machine)
    → r < 2 ^ 5
    → rtl_sr r src1 m ≡ some (tt, written r (get src1 m) m)
unfolding rtl_sr rtl_mv put
rtl_sr_lem r src1 m h = elim (Bool-cases (r == 0)) [
  | inl z ↦ rw z refl
  | inr z ↦ rw (z, lt→ltb r 32 h) refl
]

-- An operand that is a register, with and without its value.
abbrev pub as_register : OperandId → ℕ → Machine → Machine
as_register id r m = set_operand id (record (operand id m) { type = op_type_reg; word = r }) m

pub decode_op_r-loaded :
    (id : OperandId) (r : ℕ) (m : Machine)
    → r < 2 ^ 5
    → decode_op_r id r true m
      ≡ some (tt, put (Loc.val id) (read r (cells (as_register id r m))) (as_register id r m))
unfolding decode_op_r
decode_op_r-loaded id r m h = rtl_lr_lem (Loc.val id) r (as_register id r m) h

pub decode_op_r-named :
    (id : OperandId) (r : ℕ) (m : Machine)
    → decode_op_r id r false m ≡ some (tt, as_register id r m)
unfolding decode_op_r
decode_op_r-named id r m = refl
