-- ===== src/Tests/Debugger.antt =====
-- The start, the commands and differential testing at concrete states.
use ics.Base.{ℕ, ◌+◌, ◌*◌, ◌≡◌, ◌⊎◌, refl, false, none, some, [], ◌∷◌, codes, pos}
use ics.Tests.{machine, added}
use ics.Tests.Execution.{fresh_bus, monitor}
use ics.Machine.{Machine}
use ics.Monitor.Boot.{init_monitor}
use ics.Monitor.Boot.Booted.{Booted, init_monitor-Booted}
use ics.Monitor.Commands.{Ui, cmd_d, atoi_int}
use ics.Monitor.Commands.Delete.{Deleted, Missing, cmd_d-Holds}
use ics.Monitor.DiffTest.{Registers, Reference, DiffTest, difftest_step}
use ics.Monitor.DiffTest.Agreement.{Compared, difftest_step-Compared}
use ics.Monitor.Run.{Monitor}
use ics.Monitor.Watchpoint.{init_wp_pool, nr_wp}
use ics.Monitor.Watchpoint.Pool.{TakesFirst, new_wp-TakesFirst}
use ics.Monitor.Watchpoint.Reach.{nodes, init_wp_pool-Holds}

abbrev pub unready : Monitor
unready = record monitor { machine = record (machine added) { bus = fresh_bus } }

init_monitor-Booted_example :
    (t : Monitor) × (init_monitor none [] 5 (λ i. 1000 * i) unready ≡ some t)
    × Booted (λ i. 1000 * i) t
init_monitor-Booted_example =
    init_monitor-Booted [] 5 (λ i. 1000 * i) unready
      (record { mmio = refl; pio = refl; space = refl })

-- The pool with node 0 in use.
first_used : TakesFirst init_wp_pool [] (nodes 0 nr_wp)
first_used = new_wp-TakesFirst init_wp_pool [] (nodes 0 nr_wp) init_wp_pool-Holds

abbrev ui : Ui
ui = record { monitor = record monitor { pool = first_used.0 }; printed = [] }

cmd_d-Holds_example :
    (after : Ui) × (cmd_d (some (codes "0", [])) ui ≡ some (pos 0, after))
    × (((i : ℕ) × (pos 0 ≡ pos i) × Deleted ui (0 ∷ []) (nodes 1 31) i after)
        ⊎ Missing ui (0 ∷ []) (pos 0) after)
unfolding atoi_int
cmd_d-Holds_example = cmd_d-Holds ui (codes "0") [] (pos 0) (0 ∷ []) (nodes 1 31) first_used.2 refl

-- A reference that counts its instructions in its program counter.
abbrev counter : Reference Registers
counter = record { exec = λ r. record r { pc = r.pc + 1 }; getregs = λ r. r; setregs = λ x r. x }

abbrev test_state : DiffTest Registers
test_state = record {
  is_skip_ref = false;
  skip_dut_nr_instr = 0;
  is_detach = false;
  reference = record { gpr = λ i. 0; pc = 0xfffff };
}

difftest_step-Compared_example :
    (r : DiffTest Registers × Machine) × (difftest_step counter 0x100000 0x100002 test_state
        (machine added)
      ≡ some r)
    × Compared counter 0x100000 test_state (machine added) r
difftest_step-Compared_example =
    difftest_step-Compared counter 0x100000 0x100002 test_state (machine added)
      (λ c r. record { pc = refl; gpr = λ i h. refl }) refl refl
