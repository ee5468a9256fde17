-- ===== src/Monitor/Boot.antt =====
-- The start of the program: `load_img` and `init_monitor` of nemu/src/monitor/monitor.c, after the
-- arguments are parsed. The log, the regular expressions and the messages keep no state of the
-- model, and without DIFF_TEST `init_difftest` returns at once.
pub mod Booted
use ics.Base.{
  ℕ, zero, suc, ◌+◌, Option, none, some, List, [], ◌∷◌, ◌++◌, ◌==◌, ltb, leb, if◌then◌else◌, bind,
  length,
}
use ics.Bus.{Bus, pmem_size}
use ics.Bus.Init.{init_device}
use ics.Machine.{Machine, on_bus}
use ics.Monitor.Run.{Monitor}
use ics.Monitor.Watchpoint.{init_wp_pool}
use ics.X86.Start.{init_isa, isa_default_img}

abbrev pub image_start : ℕ
image_start = 0x100000

-- The bytes, from offset `p` of a host array on.
abbrev pub copy_bytes : List ℕ → ℕ → (ℕ → ℕ) → ℕ → ℕ
copy_bytes [] p mem q = mem q
copy_bytes (b ∷ bytes) p mem q = if q == p then b else copy_bytes bytes (suc p) mem q

-- `load_img`: the built-in image, or the bytes of the image file, and then the arguments as a text
-- at address 0. An empty file fails an assertion; one that is larger than the memory behind
-- IMAGE_START, and a text larger than the memory, are written outside of `pmem`.
unfoldable pub load_img : Option (List ℕ) → List ℕ → Bus → Option (ℕ × Bus)
load_img none mainargs b =
    some (length isa_default_img, record b { pmem = copy_bytes isa_default_img image_start b.pmem })
load_img (some []) mainargs b = none
load_img (some (c ∷ img)) mainargs b =
    if leb (image_start + length (c ∷ img)) pmem_size
    then if ltb (length mainargs) pmem_size
      then some (
        length (c ∷ img),
        record b {
          pmem = copy_bytes (mainargs ++ (0 ∷ [])) 0 (copy_bytes (c ∷ img) image_start b.pmem);
        },
      )
      else none
    else none

unfoldable pub init_monitor : Option (List ℕ) → List ℕ → ℕ → (ℕ → ℕ) → Monitor → Option Monitor
unfolding load_img init_isa init_wp_pool init_device
init_monitor img mainargs pc_sample sample s =
    bind (load_img img mainargs s.machine.bus) (λ (size, b).
      bind (init_isa pc_sample sample (record (s.machine) { bus = b })) (λ (t, m).
        bind (on_bus init_device m)
          (λ (t1, m1). some (record s { machine = m1; pool = init_wp_pool }))))
