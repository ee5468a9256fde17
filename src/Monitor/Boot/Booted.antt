-- ===== src/Monitor/Boot/Booted.antt =====
-- The state in which NEMU waits for its first command.
use ics.Base.{
  ℕ, zero, suc, ◌+◌, ◌<◌, ◌≡◌, refl, ◌∙◌, ap, ended, none, some, List, [], ◌∷◌, get_elem?, arith,
  ne→==, eq→==,
}
use mathlib.Core.Option.{none-ne-some, some-injective}
use ics.Bus.{Bus}
use ics.Bus.Init.Routes.{IsFresh, mmio_device, port_device, init_device-Routed}
use ics.Bus.Map.{fetch_mmio_map, find_map}
use ics.Machine.{Machine}
use ics.Monitor.Boot.{init_monitor, copy_bytes, image_start}
use ics.Monitor.Run.{Monitor}
use ics.Monitor.Watchpoint.{init_wp_pool, nr_wp}
use ics.Monitor.Watchpoint.Pool.{Holds}
use ics.Monitor.Watchpoint.Reach.{nodes, init_wp_pool-Holds}
use ics.X86.Start.{isa_default_img}
use ics.X86.Start.Ready.{init_isa-IsReady}

-- Byte `i` of a list that was copied to offset `p`.
copied :
    (bytes : List ℕ) (p i v : ℕ) (mem : ℕ → ℕ)
    → get_elem? bytes i ≡ some v
    → copy_bytes bytes p mem (p + i) ≡ v
copied [] p i v mem h = absurd (none-ne-some _ h)
copied (b ∷ bytes) p zero v mem h = rw (eq→== (p + 0) p (omega arith)) (some-injective b v h)
copied (b ∷ bytes) p (suc i) v mem h =
    let here : p + suc i ≡ suc p + i = omega arith in
    rw (ne→== (p + suc i) p (omega arith), here) (copied bytes (suc p) i v mem h)

-- The built-in image lies at the start address, where the processor begins; every address is memory
-- below 128 MB or leads to its device; all watchpoints are free.
pub record Booted (sample : ℕ → ℕ) (t : Monitor) : Type 0 where
  pub image :
      (i v : ℕ)
      → get_elem? isa_default_img i ≡ some v
      → t.machine.bus.pmem (t.machine.cpu.pc + i) ≡ v
  pub gpr : (i : ℕ) → i < 8 → t.machine.cpu.gpr i ≡ sample i
  pub low : t.machine.bus.pmem_low ≡ 0
  pub high : t.machine.bus.pmem_high ≡ 134217727
  pub mmio : (a : ℕ) → fetch_mmio_map a t.machine.bus ≡ mmio_device a
  pub ports : (a : ℕ) → find_map t.machine.bus.pio_maps a ≡ port_device a
  pub watchpoints : Holds t.pool [] (nodes 0 nr_wp)

-- Without an image file, from zeroed maps, `init_monitor` succeeds and leaves NEMU ready.
pub init_monitor-Booted :
    (mainargs : List ℕ) (pc_sample : ℕ) (sample : ℕ → ℕ) (s : Monitor)
    → IsFresh s.machine.bus
    → (t : Monitor) × (init_monitor none mainargs pc_sample sample s ≡ some t) × Booted sample t
unfolding init_monitor
init_monitor-Booted mainargs pc_sample sample s fresh =
    let loaded : Bus = record (s.machine.bus) {
      pmem = copy_bytes isa_default_img image_start s.machine.bus.pmem;
    } in
    let m : Machine = record (s.machine) { bus = loaded } in
    let (x, started, ready) = ended (init_isa-IsReady pc_sample sample m) in
    let still_fresh : IsFresh x.1.bus = record {
      mmio = ap (λ b. b.mmio_maps) ready.bus ∙ fresh.mmio;
      pio = ap (λ b. b.pio_maps) ready.bus ∙ fresh.pio;
      space = ap (λ b. b.p_space) ready.bus ∙ fresh.space;
    } in
    let (y, made, routed) = ended (init_device-Routed x.1.bus still_fresh) in
    let memory : y.1.pmem ≡ loaded.pmem = routed.memory ∙ ap (λ b. b.pmem) ready.bus in
    (
      record s { machine = record (x.1) { bus = y.1 }; pool = init_wp_pool },
      rw (started, made) refl,
      record {
        image = λ i v h.
            rw (memory, ready.pc) (copied isa_default_img image_start i v s.machine.bus.pmem h);
        gpr = ready.gpr;
        low = routed.low ∙ ap (λ b. b.pmem_low) ready.bus;
        high = routed.high ∙ ap (λ b. b.pmem_high) ready.bus;
        mmio = routed.mmio;
        ports = routed.ports;
        watchpoints = init_wp_pool-Holds;
      },
    )
