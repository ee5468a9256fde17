-- ===== src/Lib.antt =====
-- NEMU, the emulator of the ICS programming assignment: its x86 core and the machine around it.
--
-- NEMU executes one guest instruction at a time. `exec_once` (nemu/src/cpu/cpu.c) fetches and decodes
-- through the instruction set's `isa_exec`, runs one execute helper, and moves the program counter.
-- A helper is a sequence of RTL instructions (nemu/include/rtl) over the registers, a few
-- temporaries and the decoded operands; memory is reached by `paddr_read` and `paddr_write`
-- (nemu/src/memory/memory.c), which go to `pmem` or, outside it, to the address maps of the devices
-- (nemu/src/device).
--
-- Files:
--   Base: numbers, bits, C's signed integers, and commands. A C function that reads and writes the
--     state is a `Cmd`: it takes the state and returns a value and a state, or `none`. `none` is a
--     failed assert, a panic, a host trap (a zero divisor) or what C leaves undefined (a shift
--     by 32 or more). `Ends P c` says that `c` returns, and leaves a state with `P`.
--   Rtl (nemu/include/rtl/rtl.h; Host is its accesses to the memory of NEMU itself), Rtl/Op (c_op.h),
--     Rtl/Relop (relop.h and nemu/src/cpu/relop.c).
--     A pointer to an `rtlreg_t` variable is a `Loc`; `get` and `put` follow it.
--   Machine: the state of one instruction. Cpu: instr_fetch, update_pc and exec_once.
--   Bus: Init (the init functions of the devices); Memory (memory.c and nemu/src/isa/x86/mmu.c), Map
--     (nemu/include/device/map.h and nemu/src/device/io), Device and Queue (the callbacks of
--     nemu/src/device, and the key queue of keyboard.c; Keyboard joins them), Host (memcpy and word
--     accesses on byte arrays).
--   X86: the instruction set of nemu/src/isa/x86. Reg and Flags (include/isa/reg.h and rtl.h),
--     Operands (operand_write), Decode (decode/decode.c and modrm.c; Decode/Helpers has the helpers
--     that the table names), Exec (exec/exec.c and prefix.c; Exec/Groups and Exec/Table have the
--     tables), Cc (exec/cc.c), and the execute helpers of Arith, Logic, DataMov, Control and System
--     (the files of those names under exec, special.c in System). The modules below each hold what
--     is proved about it.
--     Reg/Names has the registers by name (reg.c), and Start what happens before the first
--     instruction (reg_test of reg.c, and init.c).
--   Risc: what nemu/src/isa/riscv32 and nemu/src/isa/mips32 share word for word: registers, operand
--     helpers, loads and stores, the invalid instruction, the start. Riscv32 and Mips32 have the rest:
--     Instr (include/isa/decode.h), Decode (decode.c), Exec (exec/exec.c, compute.c and special.c),
--     Start (init.c). Risc/Reference is the meaning of the instructions that Riscv32/Refine and
--     Mips32/Refine compare them with; Encoding has their words, ZeroRegister and Reachable what
--     happens to register 0.
--   Monitor: Watchpoint (the pool of nemu/src/monitor/debug/watchpoint.c; its children hold the
--     chains, what the operations do to them, and what is reachable), Expr (expr.c; Tokens and
--     Lexer are the rest of that file, Syntax and Marks the trees that its texts stand for), Run
--     (nemu/src/monitor/cpu-exec.c, with device_update of nemu/src/device/device.c), Commands (ui.c),
--     DiffTest (diff-test/diff-test.c and nemu/src/isa/x86/diff-test.c; Init is its start and Ref is
--     diff-test/ref.c), Boot and Args (monitor.c, and nemu/src/main.c in Args).
--   GenExpr (nemu/tools/gen-expr/gen-expr.c): Trees and Draws relate its texts to expression trees,
--     Decimal is the printing of numbers, Printed and Session the lines of main, Value the trees' values in C and
--     in the debugger.
--   QemuDiff (nemu/tools/qemu-diff/src: gdb-host.c, diff-test.c and isa/x86/init.c): Hex is "%x",
--     Server what GDB's protocol documents, Copied and Registers what is proved. DiffTest/Init/Synced
--     has the interface of a reference, which DiffTest/Ref and QemuDiff/AsReference fill.
--   Tests: the theorems at concrete machines.
--
-- Registers are functions from a number to a 32-bit value, memory a function from an offset to a
-- byte; theorems ask for values in range where they need it (`AreWords`, `IsBytes`). Arithmetic on
-- `rtlreg_t` is written out modulo 2^32. An offset past the end of `pmem` stands for the host
-- bytes behind it, which a read near the end of memory does fetch. `rol_loop` is the countdown
-- loop of `rol`, by recursion on its counter. `isa_exec` takes fuel for the operand size prefix,
-- which calls it again: one unit for each opcode byte, so 1 is enough where there is no prefix.
-- The walks along a watchpoint list take fuel 32, the number of nodes. `eval` takes fuel for its
-- calls, of which a range of n tokens has at most n inside each other; `expr` gives it the number of
-- tokens, and `make_token` one turn for each byte of the text.
--
-- The decoded operands (`decinfo`) are part of the state: a theorem about an instruction holds for
-- any of them. `cpu_exec` is given the instruction set, and as `Setup` what lies outside the program:
-- the regular expressions, SDL's scancodes, what the host's timer and SDL do at each turn, and whether
-- the build defines DEBUG. `exit(0)` on SDL_QUIT is `none`. rand() and the reference emulator of
-- differential testing are parameters too.
--
-- `decinfo.isa.instr` of the two RISC sets is an argument, since `isa_exec` assigns it before
-- anything reads it. `gen_rand_expr` takes fuel for the calls inside each other and `gen_short` for the
-- turns of its loop, which nothing in the code bounds; `draws` and `calls` say how much a tree takes.
-- The pieces of a copy to QEMU take fuel for one piece per byte, which is never used up.
-- rand(), the compiler and the compiled program are parameters of the generator; protocol.c, which is
-- a copy of another project's GDB client, and QEMU behind it are parameters of qemu-diff.
--
-- Not modelled: getopt, the log and the texts of messages; SDL, dlopen and the other host
-- libraries; forking QEMU and connecting to it, and qemu-diff's start for riscv32; and the kernel
-- skeleton nanos-lite.
mod Base
pub mod Rtl
pub mod Bus
pub mod Machine
pub mod Risc
pub mod Riscv32
pub mod Mips32
pub mod X86
pub mod GenExpr
pub mod QemuDiff
pub mod Cpu
pub mod Monitor
mod Tests
