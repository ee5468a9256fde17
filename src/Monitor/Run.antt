-- ===== src/Monitor/Run.antt =====
-- The execution loop: `cpu_exec` of nemu/src/monitor/cpu-exec.c with its check of the watchpoints, and
-- `device_update` of nemu/src/device/device.c. The trace that a DEBUG build logs and the messages are
-- left out.
pub mod Counted
pub mod Stopping
pub mod Watched
use ics.Base.{
  ℕ, zero, suc, ◌+◌, ◌%◌, ◌^◌, Bool, true, false, ◌||◌, not, Option, none, some, List, [], ◌∷◌,
  ◌==◌, if◌then◌else◌, bind, Cmd,
}
use ics.Bus.Queue.{send_key}
use ics.Cpu.{exec_once}
use ics.Machine.{Machine, RunState, nemu_stop, nemu_running, nemu_end, nemu_abort}
use ics.Monitor.Expr.Lexer.{TokenArray, ExprResult, expr}
use ics.Monitor.Watchpoint.{WpPool, nr_wp}
use ics.Rtl.{Rtl}

-- What the monitor keeps: the machine, the arrays of expr.c, the watchpoints with the `expression` and
-- the `value` of each node, and `g_nr_guest_instr`.
pub record Monitor : Type 0 where
  pub machine : Machine
  pub array : TokenArray
  pub pool : WpPool
  pub expression : ℕ → List ℕ
  pub value : ℕ → ℕ
  pub nr_guest_instr : ℕ

abbrev pub run_state : Monitor → RunState
run_state s = s.machine.nemu_state.state

abbrev pub set_state : RunState → Machine → Machine
set_state state m = record m { nemu_state = record (m.nemu_state) { state = state } }

abbrev pub set_run_state : RunState → Monitor → Monitor
set_run_state state s = record s { machine = set_state state s.machine }

abbrev pub is_running : RunState → Bool
is_running RunState.nemu_running = true
is_running _ = false

abbrev pub has_ended : RunState → Bool
has_ended RunState.nemu_end = true
has_ended RunState.nemu_abort = true
has_ended _ = false

-- SDL's events, as far as `device_update` looks at them.
pub data Event : Type 0 where
  quit other : Event
  key : ℕ → Bool → Event

-- The loop over the events that SDL_PollEvent gives. `exit(0)` is `none`.
unfoldable pub poll_events : (ℕ → ℕ) → List Event → Cmd Machine (Unit {0})
unfolding send_key
poll_events keymap [] m = some (tt, m)
poll_events keymap (quit ∷ events) m = none
poll_events keymap (other ∷ events) m = poll_events keymap events m
poll_events keymap (key code is_keydown ∷ events) m =
    bind (send_key keymap (is_running m.nemu_state.state) (code % 256) is_keydown m.bus.dev.keys)
      (λ keys.
        poll_events keymap events
          (record m { bus = record (m.bus) { dev = record (m.bus.dev) { keys = keys } } }))

-- What the host does during one turn: whether the timer has set `device_update_flag`, and the events
-- that wait.
pub record Host : Type 0 where
  pub update_flag : Bool
  pub events : List Event

unfoldable pub device_update : (ℕ → ℕ) → Host → Cmd Machine (Unit {0})
unfolding poll_events
device_update keymap host m =
    if not host.update_flag then some (tt, m) else poll_events keymap host.events m

abbrev pub set_value : (ℕ → ℕ) → ℕ → ℕ → ℕ → ℕ
set_value value i v j = if j == i then v else value j

-- The state after the expression of node `x` was evaluated and stored.
abbrev pub store_value : Monitor → ℕ → ExprResult → Monitor
store_value s x r = record s {
  machine = r.machine;
  array = r.array;
  value = set_value s.value x r.value;
}

-- What `cpu_exec` is given from outside: the instruction set, `regexec`, SDL's scancodes, the host at
-- each turn, and whether the build defines DEBUG.
pub record Setup : Type 0 where
  pub isa_exec : Rtl
  pub regexec : List ℕ → List ℕ → Option (ℕ × ℕ)
  pub keymap : ℕ → ℕ
  pub host : ℕ → Host
  pub debug : Bool

-- The loop over the watchpoints from `temp` on: whether a value changed.
unfoldable pub check_watchpoints : Setup → ℕ → Option ℕ → Bool → Monitor → Option (Bool × Monitor)
check_watchpoints e n none changed s = some (changed, s)
check_watchpoints e zero (some x) changed s = none
check_watchpoints e (suc n) (some x) changed s =
    bind (expr e.regexec (s.expression x) true s.array s.machine) (λ r.
      check_watchpoints e n (s.pool.next x) (changed || not (r.value == s.value x))
        (store_value s x r))

abbrev pub stop_if : Bool → Monitor → Monitor
stop_if changed s = if changed then set_run_state nemu_stop s else s

unfoldable pub watch : Setup → Monitor → Option Monitor
unfolding check_watchpoints
watch e s =
    if e.debug
    then bind (check_watchpoints e nr_wp s.pool.head false s)
        (λ (changed, t). some (stop_if changed t))
    else some s

-- One turn of the loop.
unfoldable pub turn : Setup → Monitor → Option Monitor
unfolding watch device_update
turn e s = bind (exec_once e.isa_exec s.machine) (λ (seq_pc, m).
    bind (watch e (record s { machine = m })) (λ t.
      bind (device_update e.keymap (e.host t.nr_guest_instr) t.machine) (λ (u, m').
        some (record t { machine = m'; nr_guest_instr = (t.nr_guest_instr + 1) % 2 ^ 64 }))))

-- The loop goes on in NEMU_RUNNING only.
abbrev pub continue : Bool → (Monitor → Option Monitor) → Monitor → Option Monitor
continue true rest t = rest t
continue false rest t = some t

unfoldable pub run : Setup → ℕ → Monitor → Option Monitor
unfolding turn
run e zero s = some s
run e (suc n) s = bind (turn e s) (λ t. continue (is_running (run_state t)) (run e n) t)

-- The state that the loop leaves: NEMU_STOP in place of NEMU_RUNNING.
abbrev pub settle : Monitor → Monitor
settle s = if is_running (run_state s) then set_run_state nemu_stop s else s

unfoldable pub cpu_exec : Setup → ℕ → Monitor → Option Monitor
unfolding run
cpu_exec e n s =
    if has_ended (run_state s)
    then some s
    else bind (run e n (set_run_state nemu_running s)) (λ t. some (settle t))
