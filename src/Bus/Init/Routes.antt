-- ===== src/Bus/Init/Routes.antt =====
-- Which addresses and ports `init_device` gives to which device.
use ics.Base.{
  ℕ, ◌+◌, ◌-◌, ◌*◌, ◌<◌, ◌≡◌, refl, Option, none, some, List, [], ◌∷◌, Bool, true, ◌||◌, arith,
  Ends, ends, ltb, leb, ◌&&◌, if◌then◌else◌,
}
use ics.Bus.Map.{fetch_mmio_map, find_map}
use ics.Bus.Host.{load32, memcpy}
use ics.Bus.Init.{init_device}
use ics.Bus.{
  Bus, IoMap, Callback, serial_ch_io_handler, rtc_io_handler, vga_io_handler, i8042_data_io_handler,
}

-- The state in which the program starts: no map, and all of `io_space` free.
pub record IsFresh (b : Bus) : Type 0 where
  pub mmio : b.mmio_maps ≡ []
  pub pio : b.pio_maps ≡ []
  pub space : b.p_space ≡ 0

-- The device of a physical address outside memory, in a table of its own: the first byte of the
-- map, its offset in `io_space`, its length and its callback.
abbrev pub in_range : ℕ → ℕ → ℕ → ℕ → Option Callback → Option IoMap → Option IoMap
in_range a first len space callback other =
    if leb first a && ltb a (first + len)
    then some (record { low = first; high = first + len - 1; space = space; callback = callback })
    else other

abbrev pub mmio_device : ℕ → Option IoMap
mmio_device a = in_range a 0xa0000000 0x80000 16384 none (
    in_range a 0xa1000048 4 4096 (some rtc_io_handler) (
      in_range a 0xa1000060 4 540672 (some i8042_data_io_handler) (
        in_range a 0xa1000100 4 8192 (some vga_io_handler) (
          in_range a 0xa1000104 24 12288 (some vga_io_handler)
            (in_range a 0xa10003f8 1 0 (some serial_ch_io_handler) none)))))

abbrev pub port_device : ℕ → Option IoMap
port_device a = in_range a 0x48 4 4096 (some rtc_io_handler) (
    in_range a 0x60 4 540672 (some i8042_data_io_handler) (
      in_range a 0x100 4 8192 (some vga_io_handler) (
        in_range a 0x104 24 12288 (some vga_io_handler)
          (in_range a 0x3f8 1 0 (some serial_ch_io_handler) none))))

-- No address, and no byte of `io_space`, belongs to both maps.
abbrev pub apart : IoMap → IoMap → Bool
apart m n =
    (ltb m.high n.low || ltb n.high m.low)
    && (ltb (m.space + (m.high - m.low)) n.space || ltb (n.space + (n.high - n.low)) m.space)

abbrev pub apart_from : IoMap → List IoMap → Bool
apart_from m [] = true
apart_from m (n ∷ ns) = apart m n && apart_from m ns

-- Every two maps of the table are apart.
abbrev pub all_apart : List IoMap → Bool
all_apart [] = true
all_apart (m ∷ ms) = apart_from m ms && all_apart ms

pub record Routed (b c : Bus) : Type 0 where
  pub mmio : (a : ℕ) → fetch_mmio_map a c ≡ mmio_device a
  pub ports : (a : ℕ) → find_map c.pio_maps a ≡ port_device a
  pub mmio_apart : all_apart c.mmio_maps ≡ true
  pub ports_apart : all_apart c.pio_maps ≡ true
  pub serial : c.dev.serial_ch_base ≡ 0
  pub rtc : c.dev.rtc_port_base ≡ 4096
  pub screen : load32 c.io_space 8192 ≡ 400 * 65536 + 300
  pub vmem : c.dev.vmem ≡ 16384
  pub keyboard : c.dev.i8042_data_port_base ≡ 540672
  pub memory : c.pmem ≡ b.pmem
  pub low : c.pmem_low ≡ b.pmem_low
  pub high : c.pmem_high ≡ b.pmem_high
  pub room : c.p_space < 1024 * 1024

-- From the start, `init_device` succeeds. After it, every address and every port leads to the map
-- of its device, or to none, and no two maps of the table of addresses overlap in addresses or in
-- their host space, nor do any two of the table of ports.
pub init_device-Routed : (b : Bus) → IsFresh b → Ends (Routed b) (init_device b)
unfolding init_device fetch_mmio_map find_map load32 memcpy
init_device-Routed b fresh =
    rw (fresh.space, fresh.mmio, fresh.pio)
      (ends (record {
        mmio = λ a. ground arith;
        ports = λ a. ground arith;
        mmio_apart = refl;
        ports_apart = refl;
        serial = refl;
        rtc = refl;
        screen = refl;
        vmem = refl;
        keyboard = refl;
        memory = refl;
        low = refl;
        high = refl;
        room = omega arith;
      }))
