-- ===== src/Mips32.antt =====
-- The mips32 instruction set: nemu/src/isa/mips32. What it shares with riscv32 is in Risc.
pub mod Instr
pub mod Decode
pub mod Exec
pub mod Encoding
pub mod Refine
pub mod ZeroRegister
pub mod Start
