-- ===== src/Tests/Execution.antt =====
-- The execution loop, the watchpoints' check and the devices at concrete states.
use ics.Base.{
  ℕ, ◌+◌, ◌%◌, ◌^◌, ◌≡◌, ◌≢◌, refl, ◌∙◌, ap, true, false, none, some, [], ◌∷◌, arith, bind, codes,
  Ends,
}
use mathlib.Core.Option.{some-injective}
use ics.Cpu.{exec_once}
use ics.Tests.{machine, added, bus}
use ics.Bus.{Bus}
use ics.Bus.Init.{init_device}
use ics.Bus.Init.Routes.{Routed, init_device-Routed}
use ics.Machine.{Machine, nemu_stop, nemu_running}
use ics.Monitor.Expr.Lexer.{TokenArray, expr, ExprResult}
use ics.Tests.Expressions.{matcher, no_tokens}
use ics.Monitor.Watchpoint.{WpPool}
use ics.Monitor.Watchpoint.Chain.{Chain}
use ics.Monitor.Run.{Monitor, Setup, Host, run_state, run, cpu_exec, watch}
use ics.Monitor.Run.Counted.{cpu_exec-add}
use ics.Monitor.Run.Watched.{WatchedBy, watch-WatchedBy}
use ics.Rtl.{Rtl}

abbrev pub fresh_bus : Bus
fresh_bus = record bus { mmio_maps = []; pio_maps = []; p_space = 0 }

init_device-Routed_example : Ends (Routed fresh_bus) (init_device fresh_bus)
init_device-Routed_example =
    init_device-Routed fresh_bus (record { mmio = refl; pio = refl; space = refl })

-- An instruction set of one-byte instructions that count in `t0`.
abbrev pub counting : Rtl
counting m = some (
  tt,
  record m {
    t0 = m.t0 + 1;
    decinfo = record (m.decinfo) { seq_pc = (m.decinfo.seq_pc + 1) % 2 ^ 32; is_jmp = false };
  },
)

abbrev pub quiet : Host
quiet = record { update_flag = false; events = [] }

abbrev pub setup : Setup
setup = record {
  isa_exec = counting;
  regexec = matcher;
  keymap = λ i. 0;
  host = λ i. quiet;
  debug = false;
}

-- Watchpoint 0 is used, on "1+2", with the value 5.
abbrev pub pool : WpPool
pool = record { next = λ i. none; head = some 0; free = none }

abbrev pub monitor : Monitor
monitor = record {
  machine = machine added;
  array = no_tokens;
  pool = pool;
  expression = λ i. codes "1+2";
  value = λ i. 5;
  nr_guest_instr = 0;
}

stop_apart : nemu_running ≢ nemu_stop
stop_apart e = cc

cpu_exec-add_example : cpu_exec setup 5 monitor ≡ bind (cpu_exec setup 2 monitor) (cpu_exec setup 3)
unfolding run exec_once
cpu_exec-add_example = cpu_exec-add setup 2 3 monitor (λ t r e.
    let still : nemu_running ≡ run_state t = ap run_state (some-injective _ t r) in
    stop_apart (still ∙ e))

abbrev debug_setup : Setup
debug_setup = record setup { debug = true }

sum_value :
    (a : TokenArray) (m : Machine)
    → (v : ExprResult) × (expr matcher (codes "1+2") true a m ≡ some v) × (v.value ≡ 3)
unfolding expr matcher
sum_value a m = (_, refl, refl)

watch-WatchedBy_example :
    (t : Monitor) × (watch debug_setup monitor ≡ some t) × WatchedBy (0 ∷ []) (λ x. 3) monitor t
unfolding Chain
watch-WatchedBy_example =
    watch-WatchedBy debug_setup (λ u. (x : ℕ) → u.expression x ≡ codes "1+2") (λ x. 3) (0 ∷ [])
      monitor refl (refl, refl) (λ i. ground arith) (omega arith)
      (λ u x i k. let (v, e, three) = sum_value u.array u.machine in (v, rw (i x) e, three, i))
      (λ x. refl)
