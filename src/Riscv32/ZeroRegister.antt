-- ===== src/Riscv32/ZeroRegister.antt =====
-- No riscv32 instruction writes register 0.
use ics.Base.{ℕ, true, false, ◌==◌, Bool, ◌>>◌, assert}
use ics.Machine.{Loc, id_src, id_src2, id_dest, operand}
use ics.Rtl.{rtl_add}
use ics.Cpu.{instr_fetch}
use ics.Risc.{decode_op_i, decode_op_r}
use ics.Risc.Table.{idex}
use ics.Risc.ZeroRegister.{
  Keeps, Keeps-then, rtl_sr-Keeps, decode_op_i-Keeps, decode_op_r-Keeps, instr_fetch-Keeps,
  exec_ld-Keeps, exec_st-Keeps, AllKeep, nil, cons, only_executes, rtl_add_addr-Keeps, trap-Keeps,
  assert-Keeps, empties-AllKeep, idex-Keeps, set_idex-Keeps, entry_of-Keeps,
}
use ics.Riscv32.Instr
use ics.Riscv32.Decode.{decode_u, decode_ld, decode_st}
use ics.Riscv32.Exec.{
  exec_lui, exec_nemu_trap, exec_load, exec_store, load_table, store_table, opcode_table, isa_exec,
}

decode_u-Keeps : (instr : ℕ) → Keeps (decode_u instr)
unfolding decode_u
decode_u-Keeps instr =
    Keeps-then (decode_op_i id_src _) _ (decode_op_i-Keeps id_src _)
      (λ t. decode_op_r-Keeps id_dest (Instr.rd instr) false)

-- The operands of a load or a store: a register, an immediate and their sum, and one more register.
decode_operands-Keeps :
    (r imm rd : ℕ) (load_val : Bool)
    → Keeps (do
      decode_op_r id_src r true
      decode_op_i id_src2 imm
      rtl_add (Loc.addr id_src) (Loc.val id_src) (Loc.val id_src2)
      decode_op_r id_dest rd load_val)
decode_operands-Keeps r imm rd load_val =
    Keeps-then (decode_op_r id_src r true) _ (decode_op_r-Keeps id_src r true) (λ t.
      Keeps-then (decode_op_i id_src2 imm) _ (decode_op_i-Keeps id_src2 imm) (λ t.
        Keeps-then (rtl_add (Loc.addr id_src) (Loc.val id_src) (Loc.val id_src2)) _
          (rtl_add_addr-Keeps (Loc.val id_src) (Loc.val id_src2))
          (λ t. decode_op_r-Keeps id_dest rd load_val)))

decode_ld-Keeps : (instr : ℕ) → Keeps (decode_ld instr)
unfolding decode_ld
decode_ld-Keeps instr = decode_operands-Keeps (Instr.rs1 instr) _ (Instr.rd instr) false

decode_st-Keeps : (instr : ℕ) → Keeps (decode_st instr)
unfolding decode_st
decode_st-Keeps instr = decode_operands-Keeps (Instr.rs1 instr) _ (Instr.rs2 instr) true

exec_lui-Keeps : Keeps exec_lui
unfolding exec_lui
exec_lui-Keeps m = rtl_sr-Keeps (operand id_dest m).word (Loc.val id_src) m

exec_nemu_trap-Keeps : Keeps exec_nemu_trap
unfolding exec_nemu_trap
exec_nemu_trap-Keeps = trap-Keeps 10

exec_load-Keeps : (instr : ℕ) → Keeps (exec_load instr)
unfolding exec_load
exec_load-Keeps instr =
    entry_of-Keeps (Instr.funct3 instr) _
      (unfold load_table in
        empties-AllKeep 2 (cons (only_executes (λ i. exec_ld-Keeps)) (empties-AllKeep 5 nil)))
      (λ e k. set_idex-Keeps instr e k)

exec_store-Keeps : (instr : ℕ) → Keeps (exec_store instr)
unfolding exec_store
exec_store-Keeps instr =
    entry_of-Keeps (Instr.funct3 instr) _
      (unfold store_table in
        empties-AllKeep 2 (cons (only_executes (λ i. exec_st-Keeps)) (empties-AllKeep 5 nil)))
      (λ e k. set_idex-Keeps instr e k)

opcode_table-AllKeep : AllKeep opcode_table
unfolding opcode_table
opcode_table-AllKeep =
    cons (record { decode = decode_ld-Keeps; execute = exec_load-Keeps })
      (empties-AllKeep 7 (
        cons (record { decode = decode_st-Keeps; execute = exec_store-Keeps })
          (empties-AllKeep 4 (
            cons (record { decode = decode_u-Keeps; execute = λ i. exec_lui-Keeps })
              (empties-AllKeep 12
                (cons (only_executes (λ i. exec_nemu_trap-Keeps)) (empties-AllKeep 5 nil)))))))

pub isa_exec-Keeps : Keeps isa_exec
unfolding isa_exec
isa_exec-Keeps = Keeps-then (instr_fetch Loc.seq_pc 4) _ (instr_fetch-Keeps 4) (λ instr.
    Keeps-then (assert (Instr.opcode1_0 instr == 0x3)) _ (assert-Keeps _) (λ t.
      entry_of-Keeps (Instr.opcode6_2 instr) (idex instr) opcode_table-AllKeep (idex-Keeps instr)))
