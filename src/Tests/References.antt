-- ===== src/Tests/References.antt =====
-- The command line, and the start of differential testing with NEMU as its own reference.
use ics.Base.{ℕ, ◌∷◌, List, codes, true, ◌≡◌, refl, some, [], arith}
use ics.Monitor.Args.{
  Options, no_options, parse_args, said, parse_args-said, batch, image, main_arguments, cons, nil,
}
use ics.Monitor.DiffTest.Init.{cpu_words, init_difftest, strlen}
use ics.Monitor.DiffTest.Init.Synced.{Reference, library, Synced, init_difftest-Synced}
use ics.Monitor.DiffTest.Ref.{as_reference}
use ics.Monitor.Run.{Monitor}
use ics.QemuDiff.Server.{AllBelow}
use ics.Tests.Execution.{setup}
use ics.Tests.Debugger.{unready}
use ics.Tests.{machine, added}

abbrev nemu :
    Reference {Q = Monitor} (λ s. s.machine.bus.pmem) (λ s. cpu_words s.machine.cpu) (λ s. Unit {0})
nemu = as_reference setup 5 (λ i. i)

-- NEMU as the reference of the machine at hand: an image of two bytes, and an empty text at address 0.
init_difftest-Synced_example :
    (t : Monitor) × (init_difftest (λ file. some (library nemu)) (some []) 2 (machine added) unready
      ≡ some (tt, t))
    × Synced (λ s. s.machine.bus.pmem) (λ s. cpu_words s.machine.cpu) (machine added) 2 0 t
unfolding strlen AllBelow as_reference
init_difftest-Synced_example =
    init_difftest-Synced nemu (machine added) 2 0 (λ file. some (library nemu)) [] unready refl refl
      (omega arith) (omega arith) (λ q. omega arith)
      (
        omega arith,
        (
          omega arith,
          (
            omega arith,
            (
              omega arith,
              (omega arith, (omega arith, (omega arith, (omega arith, (omega arith, tt))))),
            ),
          ),
        ),
      )

-- `-b image -a x ignored`.
abbrev arguments : List (ℕ × List ℕ)
arguments = (b'b', []) ∷ ((1, codes "image") ∷ ((b'a', codes "x") ∷ ((1, codes "ignored") ∷ [])))

abbrev chosen : Options
chosen = record no_options {
  mainargs = codes "x";
  img_file = some (codes "image");
  is_batch_mode = true;
}

parse_args-said_example : parse_args arguments no_options ≡ some chosen
unfolding said
parse_args-said_example =
    parse_args-said no_options (cons batch (cons image (cons main_arguments (cons image nil))))
