-- ===== src/Mips32/Refine.antt =====
-- `exec_once` with the mips32 instruction set does what the instructions mean.
use ics.Base.{ℕ, ◌*◌, ◌%◌, ◌^◌, ◌≡◌, refl, arith, inl, inr, Option}
use ics.Machine.{id_dest, Machine, put, operand, set_operand, interpret_rtl_exit}
use ics.Bus.Memory.{isa_vaddr_read, isa_vaddr_write, paddr_read, paddr_write}
use ics.Rtl.{rtl_steps, rtl_lm, rtl_sm}
use ics.Rtl.Op.{c_shl}
use ics.Cpu.{exec_once, update_pc}
use ics.Risc.{decode_op_i, exec_ld, exec_st, trap}
use ics.Risc.Fetch.{IsCode, fetch_word}
use ics.Risc.Reference.{
  Instruction, lui, lw, sw, halt, Cells, cells, observed, read, step, address, c_add-sign_field16,
  Option-cases,
}
use ics.Risc.Registers.{decode_op_r-named, decode_op_r-loaded, rtl_sr_lem}
use ics.Risc.Table.{entry_of, idex, set_entry_width}
use ics.Mips32.Decode.{decode_iu, decode_addr, decode_ld, decode_st}
use ics.Mips32.Encoding.{encode, InRange, i_fields}
use ics.Mips32.Exec.{isa_exec, opcode_table, exec_lui, exec_nemu_trap}

abbrev pub mips_step : Instruction → Cells → Option Cells
mips_step = step 16 16 2

halt_step :
    (m : Machine)
    → IsCode m (encode halt)
    → observed (exec_once isa_exec m) ≡ mips_step halt (cells m)
unfolding exec_once isa_exec opcode_table entry_of idex exec_nemu_trap trap interpret_rtl_exit
    encode step put update_pc
halt_step m h = rw (fetch_word m 0xf0000000 h, h.is_jmp) refl

lui_step :
    (m : Machine) (rd imm : ℕ)
    → InRange (lui rd imm)
    → IsCode m (encode (lui rd imm))
    → observed (exec_once isa_exec m) ≡ mips_step (lui rd imm) (cells m)
unfolding exec_once isa_exec opcode_table entry_of idex set_entry_width exec_lui decode_iu
    decode_op_i rtl_steps c_shl operand set_operand InRange encode step put update_pc
lui_step m rd imm r h =
    let w = encode (lui rd imm) in
    let f = i_fields 0x0f 0 rd imm (omega arith) (omega arith) r.0 r.1 in
    let fits : imm * 2 ^ 16 % 2 ^ 32 ≡ imm * 2 ^ 16 = omega (arith, r.1) in
    rw
      (
        fetch_word m w h,
        f.0,
        f.1,
        f.2,
        f.3,
        decode_op_r-loaded _ 0 _ (omega arith),
        decode_op_r-named id_dest rd _,
        rtl_sr_lem rd _ _ r.0,
        fits,
        h.is_jmp,
      )
      refl

lw_step :
    (m : Machine) (rd base offset : ℕ)
    → InRange (lw rd base offset)
    → IsCode m (encode (lw rd base offset))
    → observed (exec_once isa_exec m) ≡ mips_step (lw rd base offset) (cells m)
unfolding exec_once isa_exec opcode_table entry_of idex set_entry_width exec_ld decode_ld
    decode_addr decode_op_i rtl_steps rtl_lm operand set_operand InRange encode step address put
    update_pc isa_vaddr_read
lw_step m rd base offset r h =
    let w = encode (lw rd base offset) in
    let f = i_fields 0x23 base rd offset (omega arith) r.1 r.0 r.2 in
    let c = cells m in
    elim (Option-cases (paddr_read (address 16 base offset c) 4 m.bus)) [
      | inl e ↦
          rw
            (
              fetch_word m w h,
              f.0,
              f.1,
              f.2,
              f.3,
              decode_op_r-loaded _ base _ r.1,
              decode_op_r-named id_dest rd _,
              c_add-sign_field16 (read base c) offset r.2,
              e,
            )
            refl
      | inr (x, e) ↦
          rw
            (
              fetch_word m w h,
              f.0,
              f.1,
              f.2,
              f.3,
              decode_op_r-loaded _ base _ r.1,
              decode_op_r-named id_dest rd _,
              c_add-sign_field16 (read base c) offset r.2,
              e,
              rtl_sr_lem rd _ _ r.0,
              h.is_jmp,
            )
            refl
    ]

sw_step :
    (m : Machine) (src base offset : ℕ)
    → InRange (sw src base offset)
    → IsCode m (encode (sw src base offset))
    → observed (exec_once isa_exec m) ≡ mips_step (sw src base offset) (cells m)
unfolding exec_once isa_exec opcode_table entry_of idex set_entry_width exec_st decode_st
    decode_addr decode_op_i rtl_steps rtl_sm operand set_operand InRange encode step address put
    update_pc isa_vaddr_write
sw_step m src base offset r h =
    let w = encode (sw src base offset) in
    let f = i_fields 0x2b base src offset (omega arith) r.1 r.0 r.2 in
    let c = cells m in
    elim (Option-cases (paddr_write (address 16 base offset c) (read src c) 4 m.bus)) [
      | inl e ↦
          rw
            (
              fetch_word m w h,
              f.0,
              f.1,
              f.2,
              f.3,
              decode_op_r-loaded _ base _ r.1,
              decode_op_r-loaded _ src _ r.0,
              c_add-sign_field16 (read base c) offset r.2,
              e,
            )
            refl
      | inr (x, e) ↦
          rw
            (
              fetch_word m w h,
              f.0,
              f.1,
              f.2,
              f.3,
              decode_op_r-loaded _ base _ r.1,
              decode_op_r-loaded _ src _ r.0,
              c_add-sign_field16 (read base c) offset r.2,
              e,
              h.is_jmp,
            )
            refl
    ]

-- Where the program counter points into physical memory at the word of an instruction, with numbers
-- that fit in its fields, and no jump is pending, `exec_once` does to registers, program counter,
-- run state and bus what the instruction means: `lui` writes its immediate shifted by 16, `lw` and `sw`
-- access the word at the base register plus the signed offset modulo 2^32, the trap reports register
-- 2, register 0 reads as 0 and is never written, and the program counter moves on by 4. It aborts
-- just where the memory access does.
pub exec_once-mips_step :
    (m : Machine) (i : Instruction)
    → InRange i
    → IsCode m (encode i)
    → observed (exec_once isa_exec m) ≡ mips_step i (cells m)
exec_once-mips_step m (lui rd imm) r h = lui_step m rd imm r h
exec_once-mips_step m (lw rd base offset) r h = lw_step m rd base offset r h
exec_once-mips_step m (sw src base offset) r h = sw_step m src base offset r h
exec_once-mips_step m halt r h = halt_step m h
