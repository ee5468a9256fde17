-- ===== src/Monitor/Run/Counted.antt =====
-- How many instructions `cpu_exec` executes, and in what state it leaves the machine.
use ics.Base.{
  ℕ, zero, suc, ◌+◌, ◌%◌, ◌^◌, ◌≤◌, ◌<◌, ◌≡◌, ◌≢◌, ◌⊎◌, inl, inr, refl, ◌∙◌, sym, ap, Bool, true,
  false, Option, none, some, arith, bind, bind-eq-some, Bool-cases,
}
use mathlib.Core.Option.{none-ne-some, some-injective}
use mathlib.Core.Bool.{true≢false}
use ics.Cpu.{exec_once}
use ics.Monitor.Expr.Lexer.{expr}
use ics.Monitor.Watchpoint.{nr_wp}
use ics.Machine.{RunState, nemu_stop, nemu_running}
use ics.Monitor.Run.{
  Monitor, Setup, run_state, set_run_state, is_running, has_ended, turn, run, settle, cpu_exec,
  continue, watch, check_watchpoints, stop_if, store_value, device_update,
}

pub running-is_running : (r : RunState) → is_running r ≡ true → r ≡ nemu_running
running-is_running RunState.nemu_stop h = cc
running-is_running RunState.nemu_running h = refl
running-is_running RunState.nemu_end h = cc
running-is_running RunState.nemu_abort h = cc

-- A loop in two parts.
run-add :
    (e : Setup) (a b : ℕ) (s : Monitor)
    → is_running (run_state s) ≡ true
    → run e (a + b) s ≡ bind (run e a s) (λ t. continue (is_running (run_state t)) (run e b) t)
unfolding run
run-add e zero b s h = let same : 0 + b ≡ b = omega arith in rw (same, h) refl
run-add e (suc a) b s h =
    let same : suc a + b ≡ suc (a + b) = omega arith in
    rw same (after (turn e s) (λ t g. run-add e a b t g))
  where
    after :
        (o : Option Monitor)
        → ((t : Monitor)
            → is_running (run_state t) ≡ true
            → run e (a + b) t
              ≡ bind (run e a t) (λ u. continue (is_running (run_state u)) (run e b) u))
        → bind o (λ t. continue (is_running (run_state t)) (run e (a + b)) t)
          ≡ bind
              (bind o (λ t. continue (is_running (run_state t)) (run e a) t))
              (λ u. continue (is_running (run_state u)) (run e b) u)
    after none rest = refl
    after (some t) rest = elim (Bool-cases (is_running (run_state t))) [
      | inl g ↦ rw g (rest t g)
      | inr g ↦ rw (g, g) refl
    ]

resumed :
    (e : Setup) (b : ℕ) (t : Monitor)
    → run_state t ≢ nemu_stop
    → bind (continue (is_running (run_state t)) (run e b) t) (λ u. some (settle u))
      ≡ cpu_exec e b (settle t)
unfolding cpu_exec
resumed e b t apart = by_state (run_state t) refl
  where
    by_state :
        (r : RunState)
        → run_state t ≡ r
        → bind (continue (is_running (run_state t)) (run e b) t) (λ u. some (settle u))
          ≡ cpu_exec e b (settle t)
    by_state RunState.nemu_stop h = absurd (apart h)
    by_state RunState.nemu_running h = rw h refl
    by_state RunState.nemu_end h = rw h refl
    by_state RunState.nemu_abort h = rw h refl

-- The program has ended: nothing happens.
cpu_exec-ended :
    (e : Setup) (n : ℕ) (s : Monitor) → has_ended (run_state s) ≡ true → cpu_exec e n s ≡ some s
unfolding cpu_exec
cpu_exec-ended e n s h = rw h refl

add_ended :
    (e : Setup) (a b : ℕ) (s : Monitor)
    → has_ended (run_state s) ≡ true
    → cpu_exec e (a + b) s ≡ bind (cpu_exec e a s) (cpu_exec e b)
add_ended e a b s h =
    rw (cpu_exec-ended e (a + b) s h, cpu_exec-ended e a s h) (sym (cpu_exec-ended e b s h))

-- Executing `a` instructions and then `b` is executing `a + b` of them, unless a watchpoint stopped
-- the first part.
pub cpu_exec-add :
    (e : Setup) (a b : ℕ) (s : Monitor)
    → ((t : Monitor) → run e a (set_run_state nemu_running s) ≡ some t → run_state t ≢ nemu_stop)
    → cpu_exec e (a + b) s ≡ bind (cpu_exec e a s) (cpu_exec e b)
unfolding cpu_exec
cpu_exec-add e a b s unstopped = elim (Bool-cases (has_ended (run_state s))) [
  | inl h ↦ add_ended e a b s h
  | inr h ↦
      rw (h, run-add e a b (set_run_state nemu_running s) refl)
        (after (run e a (set_run_state nemu_running s)) (λ t r. unstopped t r))
]
  where
    after :
        (o : Option Monitor)
        → ((t : Monitor) → o ≡ some t → run_state t ≢ nemu_stop)
        → bind
            (bind o (λ t. continue (is_running (run_state t)) (run e b) t))
            (λ u. some (settle u))
          ≡ bind (bind o (λ t. some (settle t))) (cpu_exec e b)
    after none h = refl
    after (some t) h = resumed e b t (h t refl)

-- The counter of executed instructions is the loop's own.
check-counter :
    (e : Setup) (n : ℕ) (p : Option ℕ) (changed : Bool) (s : Monitor) (r : Bool × Monitor)
    → check_watchpoints e n p changed s ≡ some r
    → r.1.nr_guest_instr ≡ s.nr_guest_instr
unfolding check_watchpoints
check-counter e n none changed s r h =
    ap (λ x. x.1.nr_guest_instr) (sym (some-injective (changed, s) r h))
check-counter e zero (some x) changed s r h = absurd (none-ne-some _ h)
check-counter e (suc n) (some x) changed s r h =
    let (v, found, rest) =
      bind-eq-some (expr e.regexec (s.expression x) true s.array s.machine) _ h in
    check-counter e n (s.pool.next x) _ (store_value s x v) r rest

watch-counter :
    (e : Setup) (s t : Monitor) → watch e s ≡ some t → t.nr_guest_instr ≡ s.nr_guest_instr
unfolding watch
watch-counter e s t h = elim (Bool-cases e.debug) [
  | inr d ↦ ap (λ x. x.nr_guest_instr) (sym (some-injective s t (rw d at h)))
  | inl d ↦
      (let ((changed, u), found, rest) =
          bind-eq-some (check_watchpoints e nr_wp s.pool.head false s) _ (rw d at h) in
        ap (λ x. x.nr_guest_instr) (sym (some-injective (stop_if changed u) t rest))
        ∙ stop-counter changed u
        ∙ check-counter e nr_wp s.pool.head false s (changed, u) found)
]
  where
    stop-counter : (b : Bool) (u : Monitor) → (stop_if b u).nr_guest_instr ≡ u.nr_guest_instr
    stop-counter true u = refl
    stop-counter false u = refl

turn-counter :
    (e : Setup) (s t : Monitor)
    → turn e s ≡ some t
    → t.nr_guest_instr ≡ (s.nr_guest_instr + 1) % 2 ^ 64
unfolding turn
turn-counter e s t h =
    let (x, executed, rest) = bind-eq-some (exec_once e.isa_exec s.machine) _ h in
    let (u, watched, rest1) = bind-eq-some (watch e (record s { machine = x.1 })) _ rest in
    let (y, updated, rest2) =
      bind-eq-some (device_update e.keymap (e.host u.nr_guest_instr) u.machine) _ rest1 in
    let same = watch-counter e (record s { machine = x.1 }) u watched in
    let last = ap (λ z. z.nr_guest_instr) (some-injective _ t rest2) in
    sym last ∙ ap (λ k. (k + 1) % 2 ^ 64) same

-- `k` instructions were executed of the `n` asked for: all of them, if none of them stopped the
-- machine.
pub record Counted (n : ℕ) (s t : Monitor) : Type 0 where
  pub executed : ℕ
  pub limit : executed ≤ n
  pub counter : t.nr_guest_instr ≡ (s.nr_guest_instr + executed) % 2 ^ 64
  pub all : (run_state t ≢ nemu_running) ⊎ (executed ≡ n)

pub run-Counted :
    (e : Setup) (n : ℕ) (s t : Monitor)
    → s.nr_guest_instr < 2 ^ 64
    → run e n s ≡ some t
    → Counted n s t
unfolding run
run-Counted e zero s t small h =
    let same = ap (λ x. x.nr_guest_instr) (some-injective s t h) in
    record { executed = 0; limit = omega arith; counter = omega (arith, same); all = inr refl }
run-Counted e (suc n) s t small h =
    let (u, first, rest) = bind-eq-some (turn e s) _ h in
    let one = turn-counter e s u first in
    elim (Bool-cases (is_running (run_state u))) [
      | inl g ↦
          (let later = run-Counted e n u t (omega (arith, one)) (rw g at rest) in
            record {
              executed = suc later.executed;
              limit = omega (arith, later.limit);
              counter = omega (arith, one, later.counter);
              all = elim (later.all) [ inl stopped ↦ inl stopped | inr k ↦ inr (omega (arith, k)) ];
            })
      | inr g ↦
          (let same : u ≡ t = some-injective u t (rw g at rest) in
            rw (sym same) (record {
              executed = 1;
              limit = omega arith;
              counter = one;
              all = inl (λ r. absurd (true≢false (ap is_running (sym r) ∙ g)));
            }))
    ]
