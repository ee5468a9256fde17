-- ===== src/X86.antt =====
-- The x86 guest: nemu/src/isa/x86.
pub mod Reg
pub mod Flags
pub mod Operands
pub mod Arith
pub mod Cc
pub mod Control
pub mod Logic
pub mod DataMov
pub mod System
pub mod Decode
pub mod Exec
pub mod Start
