-- ===== src/Monitor/Run/Stopping.antt =====
-- That `cpu_exec` returns, and what it leaves.
use ics.Base.{ℕ, ◌+◌, ◌%◌, ◌^◌, ◌≤◌, ◌≡◌, ◌≢◌, ◌⊎◌, some}
use ics.Machine.{nemu_running}
use ics.Monitor.Run.{Monitor, Setup, run_state, set_run_state, run}
use ics.Monitor.Run.Counted.{Counted}

-- What `cpu_exec n` leaves: a machine that is not running, after `executed` instructions. These are
-- `n`, or the loop was left in the state `t` by its last instruction or by a watchpoint.
pub record Settled (e : Setup) (n : ℕ) (s t : Monitor) : Type 0 where
  pub stopped : run_state t ≢ nemu_running
  pub executed : ℕ
  pub limit : executed ≤ n
  pub counter : t.nr_guest_instr ≡ (s.nr_guest_instr + executed) % 2 ^ 64
  pub all : (executed ≡ n) ⊎ (run e n (set_run_state nemu_running s) ≡ some t)
