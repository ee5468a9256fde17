-- ===== src/Riscv32.antt =====
-- The riscv32 instruction set: nemu/src/isa/riscv32. What it shares with mips32 is in Risc.
pub mod Instr
pub mod Decode
pub mod Exec
pub mod Encoding
pub mod Refine
pub mod ZeroRegister
pub mod Start
