-- ===== src/Monitor.antt =====
-- The monitor: nemu/src/monitor.
pub mod Args
pub mod Boot
pub mod Commands
pub mod DiffTest
pub mod Expr
pub mod Run
pub mod Watchpoint
