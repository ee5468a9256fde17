-- ===== src/Monitor/Commands.antt =====
-- The debugger's commands: nemu/src/monitor/debug/ui.c, over the lines that readline gives. Reading
-- through a NULL pointer is `none`; of what is printed, the numbers and texts are kept.
pub mod Delete
use ics.Base.{
  ℕ, zero, suc, ◌+◌, ◌-◌, ◌*◌, ◌%◌, ◌^◌, Bool, true, false, ◌&&◌, ◌||◌, Option, none, some, List,
  [], ◌∷◌, ◌++◌, ltb, leb, ◌==◌, if◌then◌else◌, bind, codes, same_text, length, ℤ, pos, negsuc,
  sub_ℕ, pattern_of,
}
use ics.Bus.Memory.{paddr_read}
use ics.Machine.{Machine, on_bus}
use ics.Monitor.Expr.Lexer.{ExprResult, expr}
use ics.Monitor.Expr.Tokens.{number, skip_0x}
use ics.Monitor.Run.{Monitor, Setup, cpu_exec, set_value}
use ics.Monitor.Watchpoint.{nr_wp, new_wp, free_wp}

-- What a command prints.
pub data Line : Type 0 where
  register : ℕ → ℕ → Line
  watchpoint : ℕ → ℕ → List ℕ → Line
  outcome : ℕ → Line
  deleted : ℕ → Line
  help : List ℕ → Line
  unknown : List ℕ → Line
  message : Line

pub record Ui : Type 0 where
  pub monitor : Monitor
  pub printed : List Line

-- The end of the word that a text begins with: the word, and what `strtok` saves behind the space.
abbrev pub split_word : List ℕ → List ℕ × List ℕ
split_word [] = ([], [])
split_word (c ∷ cs) =
    let (word, rest) = split_word cs in if c == b' ' then ([], cs) else (c ∷ word, rest)

-- `strtok(s, " ")`: the next word and the saved text; `none` is NULL.
unfoldable pub strtok : List ℕ → Option (List ℕ × List ℕ)
strtok [] = none
strtok (c ∷ cs) =
    let later = strtok cs in
    let (word, rest) = split_word cs in if c == b' ' then later else some (c ∷ word, rest)

abbrev skip_white : List ℕ → List ℕ
skip_white [] = []
skip_white (c ∷ cs) =
    let later = skip_white cs in if (c == b' ') || (leb 9 c && leb c 13) then later else c ∷ cs

-- An optional sign before what `digits` reads.
abbrev signed_number : (List ℕ → ℕ) → List ℕ → ℤ
signed_number digits [] = pos 0
signed_number digits (c ∷ cs) =
    if c == b'-'
    then sub_ℕ 0 (digits cs)
    else if c == b'+'
    then pos (digits cs)
    else pos (digits (c ∷ cs))

-- An int; a number that does not fit is undefined.
unfoldable pub atoi_int : List ℕ → Option ℤ
atoi_int s = fits (signed_number (number 10 0) (skip_white s))
  where
    fits : ℤ → Option ℤ
    fits (pos n) = if ltb n (2 ^ 31) then some (pos n) else none
    fits (negsuc n) = if ltb n (2 ^ 31) then some (negsuc n) else none

-- `(paddr_t) strtol(s, NULL, 16)`, where a long has 64 bits.
abbrev pub strtol_paddr : List ℕ → ℕ
strtol_paddr s =
    pattern_of 32 (saturated (signed_number (λ d. number 16 0 (skip_0x d)) (skip_white s)))
  where
    saturated : ℤ → ℤ
    saturated (pos n) = if ltb n (2 ^ 63) then pos n else pos (2 ^ 63 - 1)
    saturated (negsuc n) = if ltb n (2 ^ 63) then negsuc n else negsuc (2 ^ 63 - 1)

-- What a handler returns, and what it leaves.
abbrev pub Handler : Type 0
Handler = Ui → Option (ℤ × Ui)

abbrev pub print : List Line → Ui → Option (ℤ × Ui)
print lines u = some (pos 0, record u { printed = u.printed ++ lines })

abbrev pub cmd_q : Handler
cmd_q u = some (negsuc 0, u)

abbrev pub registers_of : ℕ → ℕ → (ℕ → ℕ) → List Line
registers_of zero i gpr = []
registers_of (suc n) i gpr = register i (gpr i) ∷ registers_of n (suc i) gpr

-- The list from `temp` on.
unfoldable pub list_watchpoints : ℕ → Option ℕ → Monitor → Option (List Line)
list_watchpoints n none s = some []
list_watchpoints zero (some x) s = none
list_watchpoints (suc n) (some x) s =
    bind (list_watchpoints n (s.pool.next x) s)
      (λ lines. some (watchpoint x (s.value x) (s.expression x) ∷ lines))

abbrev pub cmd_info : Option (List ℕ × List ℕ) → Handler
cmd_info none u = none
cmd_info (some (arg, rest)) u =
    if same_text arg (codes "r")
    then print (registers_of 8 0 u.monitor.machine.cpu.gpr) u
    else if same_text arg (codes "w")
    then bind (list_watchpoints nr_wp u.monitor.pool.head u.monitor) (λ lines. print lines u)
    else print (unknown arg ∷ []) u

-- The loop of `cmd_x`.
unfoldable pub examine : ℕ → ℕ → Machine → Option (List Line × Machine)
examine zero addr m = some ([], m)
examine (suc n) addr m = bind (on_bus (paddr_read addr 4) m) (λ (v, m1).
    bind (examine n ((addr + 1) % 2 ^ 32) m1) (λ (lines, m2). some (outcome v ∷ lines, m2)))

abbrev times_of : ℤ → ℕ
times_of (pos n) = n
times_of (negsuc n) = 0

abbrev pub cmd_x : Option (List ℕ × List ℕ) → Handler
cmd_x none u = none
cmd_x (some (arg1, rest)) u = bind (strtok rest) (λ (arg2, rest2). bind (atoi_int arg1) (λ op_time.
    bind (examine (times_of op_time) (strtol_paddr arg2) u.monitor.machine)
      (λ (lines, m). print lines (record u { monitor = record (u.monitor) { machine = m } }))))

abbrev pub with_result : Ui → ExprResult → Ui
with_result u r = record u { monitor = record (u.monitor) { machine = r.machine; array = r.array } }

abbrev set_expression : (ℕ → List ℕ) → ℕ → List ℕ → ℕ → List ℕ
set_expression f i v j = if j == i then v else f j

abbrev pub expression_size : ℕ
expression_size = 50

-- The loop of `cmd_d`: the node with the number, from `temp` on. NO is the node's index.
unfoldable pub find_watchpoint : ℕ → (ℕ → Option ℕ) → ℤ → Option ℕ → Option (Option ℕ)
find_watchpoint n next index none = some none
find_watchpoint zero next index (some x) = none
find_watchpoint (suc n) next index (some x) =
    let rest = find_watchpoint n next index (next x) in
    if is_number x index then some (some x) else rest
  where
    is_number : ℕ → ℤ → Bool
    is_number x (pos n) = x == n
    is_number x (negsuc n) = false

abbrev pub delete_watchpoint : Option ℕ → Handler
delete_watchpoint none u = print (message ∷ []) u
delete_watchpoint (some x) u =
    bind (free_wp (some x) u.monitor.pool)
      (λ pool. print (deleted x ∷ []) (record u { monitor = record (u.monitor) { pool = pool } }))

unfoldable pub cmd_d : Option (List ℕ × List ℕ) → Handler
unfolding find_watchpoint atoi_int
cmd_d none u = none
cmd_d (some (arg, rest)) u = bind (atoi_int arg) (λ index.
    bind (find_watchpoint nr_wp u.monitor.pool.next index u.monitor.pool.head)
      (λ product. delete_watchpoint product u))

abbrev command_names : List (List ℕ)
command_names =
    codes "help"
    ∷ codes "c"
    ∷ codes "q"
    ∷ codes "si"
    ∷ codes "info"
    ∷ codes "x"
    ∷ codes "p"
    ∷ codes "w"
    ∷ codes "d"
    ∷ []

abbrev is_command : List ℕ → List (List ℕ) → Bool
is_command arg [] = false
is_command arg (name ∷ names) = same_text arg name || is_command arg names

abbrev help_lines : List (List ℕ) → List Line
help_lines [] = []
help_lines (name ∷ names) = help name ∷ help_lines names

-- All the descriptions, or that of one command.
abbrev pub cmd_help : Option (List ℕ × List ℕ) → Handler
cmd_help none u = print (help_lines command_names) u
cmd_help (some (arg, rest)) u =
    if is_command arg command_names then print (help arg ∷ []) u else print (unknown arg ∷ []) u

abbrev pub run_command :
    List (List ℕ × (Option (List ℕ × List ℕ) → Handler)) → List ℕ → List ℕ → Handler
run_command [] cmd args u = print (unknown cmd ∷ []) u
run_command ((name, handler) ∷ table) cmd args u =
    let later = run_command table cmd args u in
    if same_text cmd name then handler (strtok args) u else later

abbrev pub is_negative : ℤ → Bool
is_negative (pos n) = false
is_negative (negsuc n) = true

module _ (e : Setup) where
  abbrev pub continue_for : ℕ → Handler
  continue_for n u = bind (cpu_exec e n u.monitor) (λ s. some (pos 0, record u { monitor = s }))

  abbrev pub cmd_c : Handler
  cmd_c u = continue_for (2 ^ 64 - 1) u

  -- An int becomes a uint64_t.
  abbrev pub cmd_si : Option (List ℕ × List ℕ) → Handler
  cmd_si none u = continue_for 1 u
  cmd_si (some (arg, rest)) u = bind (atoi_int arg) (λ times. continue_for (pattern_of 64 times) u)

  -- `strcat(pp, arg)` copies between overlapping objects, which is undefined, unless `arg` is empty.
  abbrev pub cmd_p : Option (List ℕ × List ℕ) → Handler
  cmd_p none u = none
  cmd_p (some (pp, [])) u =
      bind (expr e.regexec pp true u.monitor.array u.monitor.machine)
        (λ r. print (outcome r.value ∷ []) (with_result u r))
  cmd_p (some (pp, c ∷ arg)) u = none

  -- `strcpy` of a longer text writes outside of `expression`.
  abbrev pub cmd_w : Option (List ℕ × List ℕ) → Handler
  cmd_w none u = none
  cmd_w (some (arg, rest)) u =
      bind (expr e.regexec arg true u.monitor.array u.monitor.machine) (λ r.
        bind (new_wp u.monitor.pool) (λ (temp, pool).
          if ltb (length arg) expression_size
          then print (message ∷ []) (record u {
            monitor = record (u.monitor) {
              machine = r.machine;
              array = r.array;
              pool = pool;
              expression = set_expression u.monitor.expression temp arg;
              value = set_value u.monitor.value temp r.value;
            };
          })
          else none))

  -- `cmd_table`, and the loop over it; `none` inside is an unknown command.
  abbrev pub cmd_table : List (List ℕ × (Option (List ℕ × List ℕ) → Handler))
  cmd_table =
      (codes "help", cmd_help)
      ∷ (codes "c", λ a. cmd_c)
      ∷ (codes "q", λ a. cmd_q)
      ∷ (codes "si", cmd_si)
      ∷ (codes "info", cmd_info)
      ∷ (codes "x", cmd_x)
      ∷ (codes "p", cmd_p)
      ∷ (codes "w", cmd_w)
      ∷ (codes "d", cmd_d)
      ∷ []

  -- The loop over the lines: it ends with the input, or with a handler's negative result.
  unfoldable pub ui_loop : List (List ℕ) → Ui → Option Ui
  unfolding strtok cmd_d
  ui_loop [] u = some u
  ui_loop (str ∷ lines) u = elim (strtok str) [
    | none ↦ ui_loop lines u
    | some (cmd, args) ↦
        bind (run_command cmd_table cmd args u)
          (λ (code, u'). elim (is_negative code) [ true ↦ some u' | false ↦ ui_loop lines u' ])
  ]

  unfoldable pub ui_mainloop : Bool → List (List ℕ) → Ui → Option Ui
  unfolding ui_loop
  ui_mainloop is_batch_mode lines u =
      if is_batch_mode then bind (cmd_c u) (λ (code, u'). some u') else ui_loop lines u
