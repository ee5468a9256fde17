-- ===== src/Riscv32/Refine.antt =====
-- `exec_once` with the riscv32 instruction set does what the instructions mean.
use ics.Base.{ℕ, ◌*◌, ◌%◌, ◌^◌, ◌≡◌, refl, arith, inl, inr, Bool-cases, lt→ltb, Option, ◌==◌}
use ics.Machine.{id_dest, Machine, put, operand, set_operand, interpret_rtl_exit}
use ics.Bus.Memory.{isa_vaddr_read, isa_vaddr_write, paddr_read, paddr_write}
use ics.Rtl.{rtl_steps, rtl_lm, rtl_sm}
use ics.Cpu.{exec_once, update_pc}
use ics.Risc.{decode_op_i, decode_op_r, rtl_sr, exec_ld, exec_st, trap}
use ics.Risc.Fetch.{IsCode, fetch_word}
use ics.Risc.Reference.{
  Instruction, lui, lw, sw, halt, Cells, cells, observed, read, step, address, c_add-sign_field12,
  Option-cases,
}
use ics.Risc.Registers.{decode_op_r-named, decode_op_r-loaded, rtl_sr_lem}
use ics.Risc.Table.{entry_of, idex, set_entry_width}
use ics.Riscv32.Decode.{decode_u, decode_ld, decode_st}
use ics.Riscv32.Encoding.{encode, InRange, u_fields, i_fields, s_fields}
use ics.Riscv32.Exec.{
  isa_exec, opcode_table, exec_lui, exec_load, load_table, exec_store, store_table, exec_nemu_trap,
}

abbrev pub riscv_step : Instruction → Cells → Option Cells
riscv_step = step 12 12 10

halt_step :
    (m : Machine)
    → IsCode m (encode halt)
    → observed (exec_once isa_exec m) ≡ riscv_step halt (cells m)
unfolding exec_once isa_exec opcode_table entry_of idex exec_nemu_trap trap interpret_rtl_exit
    encode step put update_pc
halt_step m h = rw (fetch_word m 0x6b h, h.is_jmp) refl

lui_step :
    (m : Machine) (rd imm : ℕ)
    → InRange (lui rd imm)
    → IsCode m (encode (lui rd imm))
    → observed (exec_once isa_exec m) ≡ riscv_step (lui rd imm) (cells m)
unfolding exec_once isa_exec opcode_table entry_of idex exec_lui decode_u decode_op_i decode_op_r
    rtl_sr rtl_steps operand set_operand InRange encode step put update_pc
lui_step m rd imm r h =
    let w = encode (lui rd imm) in
    let f = u_fields 0x37 rd imm (omega arith) r.0 r.1 w refl in
    let fits : imm * 2 ^ 12 % 2 ^ 32 ≡ imm * 2 ^ 12 = omega (arith, r.1) in
    elim (Bool-cases (rd == 0)) [
      | inl z ↦ rw (fetch_word m w h, f.0, f.1, f.2, f.3, z, h.is_jmp) refl
      | inr z ↦ rw (fetch_word m w h, f.0, f.1, f.2, f.3, z, lt→ltb rd 32 r.0, fits, h.is_jmp) refl
    ]

lw_step :
    (m : Machine) (rd base offset : ℕ)
    → InRange (lw rd base offset)
    → IsCode m (encode (lw rd base offset))
    → observed (exec_once isa_exec m) ≡ riscv_step (lw rd base offset) (cells m)
unfolding exec_once isa_exec opcode_table entry_of idex set_entry_width exec_load load_table exec_ld
    decode_ld decode_op_i rtl_steps rtl_lm operand set_operand InRange encode step address put
    update_pc isa_vaddr_read
lw_step m rd base offset r h =
    let w = encode (lw rd base offset) in
    let f = i_fields 0x03 rd 2 base offset (omega arith) r.0 (omega arith) r.1 r.2 w refl in
    let c = cells m in
    elim (Option-cases (paddr_read (address 12 base offset c) 4 m.bus)) [
      | inl e ↦
          rw
            (
              fetch_word m w h,
              f.0,
              f.1,
              f.2,
              f.3,
              f.4,
              f.5,
              decode_op_r-loaded _ base _ r.1,
              decode_op_r-named id_dest rd _,
              c_add-sign_field12 (read base c) offset r.2,
              e,
            )
            refl
      | inr (x, e) ↦
          rw
            (
              fetch_word m w h,
              f.0,
              f.1,
              f.2,
              f.3,
              f.4,
              f.5,
              decode_op_r-loaded _ base _ r.1,
              decode_op_r-named id_dest rd _,
              c_add-sign_field12 (read base c) offset r.2,
              e,
              rtl_sr_lem rd _ _ r.0,
              h.is_jmp,
            )
            refl
    ]

sw_step :
    (m : Machine) (src base offset : ℕ)
    → InRange (sw src base offset)
    → IsCode m (encode (sw src base offset))
    → observed (exec_once isa_exec m) ≡ riscv_step (sw src base offset) (cells m)
unfolding exec_once isa_exec opcode_table entry_of idex set_entry_width exec_store store_table
    exec_st decode_st decode_op_i rtl_steps rtl_sm operand set_operand InRange encode step address
    put update_pc isa_vaddr_write
sw_step m src base offset r h =
    let w = encode (sw src base offset) in
    let f = s_fields 0x23 2 base src offset (omega arith) (omega arith) r.1 r.0 r.2 w refl in
    let c = cells m in
    elim (Option-cases (paddr_write (address 12 base offset c) (read src c) 4 m.bus)) [
      | inl e ↦
          rw
            (
              fetch_word m w h,
              f.0,
              f.1,
              f.2,
              f.3,
              f.4,
              f.5,
              decode_op_r-loaded _ base _ r.1,
              decode_op_r-loaded _ src _ r.0,
              c_add-sign_field12 (read base c) offset r.2,
              e,
            )
            refl
      | inr (x, e) ↦
          rw
            (
              fetch_word m w h,
              f.0,
              f.1,
              f.2,
              f.3,
              f.4,
              f.5,
              decode_op_r-loaded _ base _ r.1,
              decode_op_r-loaded _ src _ r.0,
              c_add-sign_field12 (read base c) offset r.2,
              e,
              h.is_jmp,
            )
            refl
    ]

-- Where the program counter points into physical memory at the word of an instruction, with numbers
-- that fit in its fields, and no jump is pending, `exec_once` does to registers, program counter,
-- run state and bus what the instruction means: `lui` writes its immediate shifted by 12, `lw` and `sw`
-- access the word at the base register plus the signed offset modulo 2^32, the trap reports register
-- 10, register 0 reads as 0 and is never written, and the program counter moves on by 4. It aborts
-- just where the memory access does.
pub exec_once-riscv_step :
    (m : Machine) (i : Instruction)
    → InRange i
    → IsCode m (encode i)
    → observed (exec_once isa_exec m) ≡ riscv_step i (cells m)
exec_once-riscv_step m (lui rd imm) r h = lui_step m rd imm r h
exec_once-riscv_step m (lw rd base offset) r h = lw_step m rd base offset r h
exec_once-riscv_step m (sw src base offset) r h = sw_step m src base offset r h
exec_once-riscv_step m halt r h = halt_step m h
