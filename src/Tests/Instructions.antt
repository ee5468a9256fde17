-- ===== src/Tests/Instructions.antt =====
-- The instructions at concrete machines.
use ics.Base.{◌*◌, ◌≡◌, refl, inr, none, some, true, false, arith, Ends}
use mathlib.Core.Bool.{xor}
use ics.X86.Decode.{load_addr}
use ics.X86.Decode.Address.{Addressed, load_addr-Addressed}
use ics.Machine.{id_src}
use ics.Tests.{
  machine, instruction, register, compared, jump_less, added, writes_register, has_room,
  flags-AreBits,
}
use ics.Machine.{DecodeInfo}
use ics.X86.Cc.Conditions.{less}
use ics.X86.Control.{exec_jcc, exec_call, exec_ret}
use ics.X86.Control.Branch.{Branched}
use ics.X86.Control.Relation.{cmp-jcc, decoded}
use ics.X86.Control.Return.{Returned, call-ret}
use ics.X86.Arith.{exec_cmp, exec_add, exec_inc, exec_dec, exec_mul, exec_div}
use ics.X86.Arith.Sum.{AddFlags, add-AddFlags}
use ics.X86.Arith.ValueAsWidth.{inc-dec-none}
use ics.X86.DataMov.{exec_push, exec_pop}
use ics.X86.DataMov.Stack.{Popped, push-pop}
use ics.X86.Arith.Quotient.{Divided, div-Divided}
use ics.X86.Arith.Product.{Product, mul-Product}
use ics.X86.Reg.{r_eax}
use ics.Cpu.{exec_once}
use ics.Machine.{Machine}
use ics.X86.Exec.{isa_exec}
use ics.X86.Exec.ShortJump.{Jumped, exec_once-short_jump}
use ics.X86.Operands.Write.{holds}

cmp-jcc_example :
    Ends
      (λ m1. Ends (Branched false (decoded jump_less m1)) (exec_jcc (decoded jump_less m1)))
      (exec_cmp (machine compared))
unfolding xor
cmp-jcc_example =
    cmp-jcc (machine compared) jump_less less false (inr (inr refl)) (omega arith) (omega arith)
      refl

add-AddFlags_example :
    Ends
      (λ m'.
        AddFlags 4 0xfffffffd 5 m'.cpu.eflags
        × (holds (register 1 4 0xfffffffd) m' ≡ some 2)
        × (m'.cpu.pc ≡ 0x100000)
        × (m'.decinfo ≡ added)
        × (m'.nemu_state ≡ (machine added).nemu_state))
      (exec_add (machine added))
add-AddFlags_example =
    add-AddFlags (machine added) (writes_register (register 2 4 5) 1 0xfffffffd (omega arith))
      (omega arith) (omega arith)

call-ret_example :
    Ends
      (λ m1.
        (m1.cpu.pc ≡ 0x100020)
        × Ends (Returned (machine compared)) (exec_ret (decoded jump_less m1)))
      (exec_call (machine compared))
call-ret_example = call-ret (machine compared) jump_less (has_room compared) (omega arith)

push-pop_example :
    Ends
      (λ m1. Ends (Popped (machine compared) jump_less) (exec_pop (decoded jump_less m1)))
      (exec_push (machine compared))
push-pop_example =
    push-pop (machine compared) jump_less (has_room compared) (omega arith)
      record { type = refl; width = refl; word = omega arith }

inc-dec-none_example : (exec_inc (machine added) ≡ none) × (exec_dec (machine added) ≡ none)
inc-dec-none_example =
    inc-dec-none (machine added) (writes_register (register 2 4 5) 1 0xfffffffd (omega arith))
      (inr (omega arith))

-- `movsx %dl, %ecx` with 0x80 in the source.
abbrev extended : DecodeInfo
extended = instruction 0 (register 2 1 0x80) (register 1 4 0)

-- The bytes 7c 7d (`jl`) at 0x10007c, with SF set and OF clear.
abbrev at_jump : Machine
at_jump = record (machine compared) { cpu = record ((machine compared).cpu) { pc = 0x10007c } }

exec_once-short_jump_example : Ends (Jumped at_jump true) (exec_once (isa_exec 4) at_jump)
unfolding xor
exec_once-short_jump_example =
    exec_once-short_jump 3 at_jump less false
      record {
        first = omega arith;
        second = omega arith;
        small = omega arith;
        bytes = λ q. omega arith;
        opcode = refl;
      }
      flags-AreBits

mul-Product_example :
    Ends
      (Product (machine added) (0xfffffffd * (machine added).cpu.gpr r_eax))
      (exec_mul (machine added))
mul-Product_example =
    mul-Product (machine added) (writes_register (register 2 4 5) 1 0xfffffffd (omega arith)).words
      refl (omega arith)

div-Divided_example : Ends (Divided (machine added) 0xfffffffd) (exec_div (machine added))
div-Divided_example =
    div-Divided (machine added) (writes_register (register 2 4 5) 1 0xfffffffd (omega arith)).words
      refl (omega arith) (omega arith)

-- A SIB byte 5 and a displacement of 6 behind the program counter: 6(%ebp,%eax).
load_addr-Addressed_example :
    Ends (Addressed (machine added) 1 4 id_src) (load_addr 1 4 id_src (machine added))
load_addr-Addressed_example = load_addr-Addressed (machine added) 1 4 id_src (omega arith) (record {
  first = omega arith;
  second = omega arith;
  small = omega arith;
  bytes = λ q. omega arith;
})
