-- ===== src/Monitor/Args.antt =====
-- The command line: `parse_args` and the rest of `init_monitor` of nemu/src/monitor/monitor.c, and
-- nemu/src/main.c.
use ics.Base.{
  ℕ, ◌≡◌, refl, ◌∙◌, Bool, ◌||◌, true, false, Option, none, some, List, [], ◌∷◌, ◌==◌,
  if◌then◌else◌, bind,
}
use ics.Monitor.Boot.{init_monitor}
use ics.Monitor.Commands.{Ui, ui_mainloop}
use ics.Monitor.Run.{Monitor, Setup}

-- The statics that the options set.
pub record Options : Type 0 where
  pub mainargs : List ℕ
  pub log_file : Option (List ℕ)
  pub diff_so_file : Option (List ℕ)
  pub img_file : Option (List ℕ)
  pub is_batch_mode : Bool

abbrev pub no_options : Options
no_options = record {
  mainargs = [];
  log_file = none;
  diff_so_file = none;
  img_file = none;
  is_batch_mode = false;
}

abbrev first_image : Option (List ℕ) → List ℕ → Option (List ℕ)
first_image none optarg = some optarg
first_image (some img) optarg = some img

-- One turn of the `switch`, on what getopt() returned and `optarg`. The code 1 is an argument that is
-- no option: the first one is the image, and the others are ignored. Any other code panics.
unfoldable pub parse_option : ℕ → List ℕ → Options → Option Options
parse_option code optarg o =
    if code == b'b'
    then some (record o { is_batch_mode = true })
    else if code == b'a'
    then some (record o { mainargs = optarg })
    else if code == b'l'
    then some (record o { log_file = some optarg })
    else if code == b'd'
    then some (record o { diff_so_file = some optarg })
    else if code == 1
    then some (record o { img_file = first_image o.img_file optarg })
    else none

-- The loop, over what getopt() returns before -1.
unfoldable pub parse_args : List (ℕ × List ℕ) → Options → Option Options
unfolding parse_option
parse_args [] o = some o
parse_args ((code, optarg) ∷ rest) o = bind (parse_option code optarg o) (λ o'. parse_args rest o')

-- What lies outside: the bytes of a file that opens, and the numbers of rand().
module _ (files : List ℕ → Option (List ℕ)) (pc_sample : ℕ) (sample : ℕ → ℕ) where
  -- The image file has to open where one is given.
  abbrev read_image : Option (List ℕ) → Option (Option (List ℕ))
  read_image none = some none
  read_image (some file) = bind (files file) (λ bytes. some (some bytes))

  -- `init_monitor` of the command line: it answers whether commands are read. The log is opened before
  -- the image, and failing to open it aborts.
  unfoldable pub init_monitor_args :
      (List ℕ → Bool) → List (ℕ × List ℕ) → Monitor → Option (Bool × Monitor)
  unfolding parse_args init_monitor
  init_monitor_args opens_log args s = bind (parse_args args no_options) (λ o.
      if log_opens o.log_file
      then bind (read_image o.img_file) (λ img.
        bind (init_monitor img o.mainargs pc_sample sample s) (λ s'. some (o.is_batch_mode, s')))
      else none)
    where
      log_opens : Option (List ℕ) → Bool
      log_opens none = true
      log_opens (some file) = opens_log file

-- `main`, which gives what `init_monitor` answers to `ui_mainloop`, over the lines that readline gives.
unfoldable pub main :
    (List ℕ → Option (List ℕ))
    → (List ℕ → Bool)
    → ℕ
    → (ℕ → ℕ)
    → Setup
    → List (ℕ × List ℕ)
    → List (List ℕ)
    → Monitor
    → Option Ui
unfolding init_monitor_args ui_mainloop
main files opens_log pc_sample sample e args lines s =
    bind (init_monitor_args files pc_sample sample opens_log args s) (λ (is_batch_mode, s').
      ui_mainloop e is_batch_mode lines (record { monitor = s'; printed = [] }))

-- What the options of one letter, or the other arguments, say.
unfoldable pub given : ℕ → List (ℕ × List ℕ) → List (List ℕ)
given code [] = []
given code ((c, optarg) ∷ rest) = if c == code then optarg ∷ given code rest else given code rest

abbrev pub last {ℓ} : {A : Type ℓ} → A → List A → A
last d [] = d
last d (x ∷ xs) = last x xs

abbrev pub last_file : Option (List ℕ) → List (List ℕ) → Option (List ℕ)
last_file o [] = o
last_file o (x ∷ xs) = last_file (some x) xs

abbrev pub first : List (List ℕ) → Option (List ℕ)
first [] = none
first (x ∷ xs) = some x

abbrev pub any : List (List ℕ) → Bool
any [] = false
any (x ∷ xs) = true

abbrev pub either : Option (List ℕ) → Option (List ℕ) → Option (List ℕ)
either none i = i
either (some img) i = some img

either-none : (i : Option (List ℕ)) → either i none ≡ i
either-none none = refl
either-none (some img) = refl

either-first_image :
    (i rest : Option (List ℕ)) (optarg : List ℕ)
    → either (first_image i optarg) rest ≡ either i (some optarg)
either-first_image none rest optarg = refl
either-first_image (some img) rest optarg = refl

or_false : (b : Bool) → (b || false) ≡ b
or_false true = refl
or_false false = refl

or_true : (b : Bool) → (b || true) ≡ true
or_true true = refl
or_true false = refl

-- The codes that the program knows.
pub data IsKnown : ℕ → Type 0 where
  batch : IsKnown b'b'
  main_arguments : IsKnown b'a'
  log : IsKnown b'l'
  reference : IsKnown b'd'
  image : IsKnown 1

pub data AllKnown : List (ℕ × List ℕ) → Type 0 where
  nil : AllKnown []
  cons :
      {code : ℕ} {optarg : List ℕ} {rest : List (ℕ × List ℕ)}
      → IsKnown code
      → AllKnown rest
      → AllKnown ((code, optarg) ∷ rest)

-- What the options say, over what the statics held.
unfoldable pub said : List (ℕ × List ℕ) → Options → Options
unfolding given
said args o = record {
  mainargs = last o.mainargs (given b'a' args);
  log_file = last_file o.log_file (given b'l' args);
  diff_so_file = last_file o.diff_so_file (given b'd' args);
  img_file = either o.img_file (first (given 1 args));
  is_batch_mode = o.is_batch_mode || any (given b'b' args);
}

-- Where every option is known, the last argument of each option counts, the first argument that is no
-- option is the image, and batch mode is on where -b is given.
pub parse_args-said :
    {args : List (ℕ × List ℕ)} (o : Options)
    → AllKnown args
    → parse_args args o ≡ some (said args o)
unfolding parse_args said
parse_args-said o nil = rw (either-none o.img_file, or_false o.is_batch_mode) refl
parse_args-said o (cons batch h) = parse_args-said _ h ∙ rw (or_true o.is_batch_mode) refl
parse_args-said o (cons main_arguments h) = parse_args-said _ h
parse_args-said o (cons log h) = parse_args-said _ h
parse_args-said o (cons reference h) = parse_args-said _ h
parse_args-said o (cons {optarg} {rest} image h) =
    parse_args-said _ h ∙ rw (either-first_image o.img_file (first (given 1 rest)) optarg) refl
