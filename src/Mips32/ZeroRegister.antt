-- ===== src/Mips32/ZeroRegister.antt =====
-- No mips32 instruction writes register 0.
use ics.Base.{ℕ, true, false, refl}
use ics.Machine.{Loc, id_src, id_src2, id_dest, operand}
use ics.Cpu.{instr_fetch}
use ics.Rtl.{rtl_shli, rtl_steps}
use ics.Rtl.Op.{c_shl}
use ics.Risc.{decode_op_i, decode_op_r}
use ics.Risc.ZeroRegister.{
  Kept, Keeps, Keeps-then, rtl_sr-Keeps, decode_op_i-Keeps, decode_op_r-Keeps, instr_fetch-Keeps,
  exec_ld-Keeps, exec_st-Keeps, AllKeep, nil, cons, only_executes, rtl_add_addr-Keeps, trap-Keeps,
  empties-AllKeep, idex-Keeps, set_idex-Keeps, entry_of-Keeps,
}
use ics.Mips32.Instr
use ics.Mips32.Decode.{decode_iu, decode_addr, decode_ld, decode_st}
use ics.Mips32.Exec.{exec_lui, exec_nemu_trap, exec_special, special_table, opcode_table, isa_exec}

decode_iu-Keeps : (instr : ℕ) → Keeps (decode_iu instr)
unfolding decode_iu
decode_iu-Keeps instr =
    Keeps-then (decode_op_r id_src _ true) _ (decode_op_r-Keeps id_src _ true) (λ t.
      Keeps-then (decode_op_i id_src2 _) _ (decode_op_i-Keeps id_src2 _)
        (λ t. decode_op_r-Keeps id_dest (Instr.rt instr) false))

decode_addr-Keeps : (instr : ℕ) → Keeps (decode_addr instr)
unfolding decode_addr
decode_addr-Keeps instr =
    Keeps-then (decode_op_r id_src _ true) _ (decode_op_r-Keeps id_src _ true) (λ t.
      Keeps-then (decode_op_i id_src2 _) _ (decode_op_i-Keeps id_src2 _)
        (λ t. rtl_add_addr-Keeps (Loc.val id_src) (Loc.val id_src2)))

decode_ld-Keeps : (instr : ℕ) → Keeps (decode_ld instr)
unfolding decode_ld
decode_ld-Keeps instr =
    Keeps-then (decode_addr instr) _ (decode_addr-Keeps instr)
      (λ t. decode_op_r-Keeps id_dest (Instr.rt instr) false)

decode_st-Keeps : (instr : ℕ) → Keeps (decode_st instr)
unfolding decode_st
decode_st-Keeps instr =
    Keeps-then (decode_addr instr) _ (decode_addr-Keeps instr)
      (λ t. decode_op_r-Keeps id_dest (Instr.rt instr) true)

rtl_shli-Keeps : Keeps (rtl_shli Loc.s0 (Loc.val id_src2) 16)
unfolding rtl_steps c_shl Kept
rtl_shli-Keeps m = refl

exec_lui-Keeps : Keeps exec_lui
unfolding exec_lui
exec_lui-Keeps =
    Keeps-then (rtl_shli Loc.s0 (Loc.val id_src2) 16) _ rtl_shli-Keeps
      (λ t m. rtl_sr-Keeps (operand id_dest m).word Loc.s0 m)

exec_nemu_trap-Keeps : Keeps exec_nemu_trap
unfolding exec_nemu_trap
exec_nemu_trap-Keeps = trap-Keeps 2

exec_special-Keeps : (instr : ℕ) → Keeps (exec_special instr)
unfolding exec_special
exec_special-Keeps instr =
    entry_of-Keeps (Instr.func instr) _ (unfold special_table in empties-AllKeep 64 nil)
      (idex-Keeps instr)

opcode_table-AllKeep : AllKeep opcode_table
unfolding opcode_table
opcode_table-AllKeep = cons (only_executes exec_special-Keeps) (
    empties-AllKeep 14 (
      cons (record { decode = decode_iu-Keeps; execute = λ i. exec_lui-Keeps })
        (empties-AllKeep 19 (
          cons (record { decode = decode_ld-Keeps; execute = λ i. exec_ld-Keeps })
            (empties-AllKeep 7 (
              cons (record { decode = decode_st-Keeps; execute = λ i. exec_st-Keeps })
                (empties-AllKeep 16
                  (cons (only_executes (λ i. exec_nemu_trap-Keeps)) (empties-AllKeep 3 nil)))))))))

pub isa_exec-Keeps : Keeps isa_exec
unfolding isa_exec
isa_exec-Keeps =
    Keeps-then (instr_fetch Loc.seq_pc 4) _ (instr_fetch-Keeps 4)
      (λ instr. entry_of-Keeps (Instr.opcode instr) _ opcode_table-AllKeep (set_idex-Keeps instr))
