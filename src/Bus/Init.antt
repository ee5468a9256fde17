-- ===== src/Bus/Init.antt =====
-- What registers the devices: the init functions of nemu/src/device/serial.c, timer.c, vga.c and
-- keyboard.c, and `init_device` of device.c. The window and the host's timer are not part of the
-- state.
pub mod Output
pub mod Routes
use ics.Base.{ℕ, ◌+◌, ◌*◌, ◌^◌, none, some, Cmd, ◌>>=◌, ◌>>◌, modify}
use ics.Bus.Device.{store32}
use ics.Bus.Map.{new_space, add_pio_map, add_mmio_map}
use ics.Bus.Queue.{key_none}
use ics.Bus.{serial_ch_io_handler, rtc_io_handler, vga_io_handler, i8042_data_io_handler, Bus}

abbrev pub serial_port : ℕ
serial_port = 0x3f8

abbrev pub serial_mmio : ℕ
serial_mmio = 0xa10003f8

abbrev pub rtc_port : ℕ
rtc_port = 0x48

abbrev pub rtc_mmio : ℕ
rtc_mmio = 0xa1000048

abbrev pub screen_port : ℕ
screen_port = 0x100

abbrev pub screen_mmio : ℕ
screen_mmio = 0xa1000100

abbrev pub sync_port : ℕ
sync_port = 0x104

abbrev pub sync_mmio : ℕ
sync_mmio = 0xa1000104

abbrev pub i8042_data_port : ℕ
i8042_data_port = 0x60

abbrev pub i8042_data_mmio : ℕ
i8042_data_mmio = 0xa1000060

abbrev pub vmem_base : ℕ
vmem_base = 0xa0000000

abbrev pub screen_w : ℕ
screen_w = 400

abbrev pub screen_h : ℕ
screen_h = 300

unfoldable pub init_serial : Cmd Bus (Unit {0})
unfolding new_space add_pio_map add_mmio_map
init_serial = do
  base ← new_space 1
  modify λ b. record b { dev = record (b.dev) { serial_ch_base = base } }
  add_pio_map serial_port base 1 (some serial_ch_io_handler)
  add_mmio_map serial_mmio base 1 (some serial_ch_io_handler)

unfoldable pub init_timer : Cmd Bus (Unit {0})
unfolding new_space add_pio_map add_mmio_map
init_timer = do
  base ← new_space 4
  modify λ b. record b { dev = record (b.dev) { rtc_port_base = base } }
  add_pio_map rtc_port base 4 (some rtc_io_handler)
  add_mmio_map rtc_mmio base 4 (some rtc_io_handler)

unfoldable pub init_vga : Cmd Bus (Unit {0})
unfolding new_space add_pio_map add_mmio_map
init_vga = do
  screen ← new_space 4
  modify λ b. record b { dev = record (b.dev) { screensize_port_base = screen } }
  modify λ b. store32 screen (screen_w * 2 ^ 16 + screen_h) b
  sync ← new_space 24
  modify λ b. record b { dev = record (b.dev) { sync_port_base = sync } }
  add_pio_map screen_port screen 4 (some vga_io_handler)
  add_mmio_map screen_mmio screen 4 (some vga_io_handler)
  add_pio_map sync_port sync 24 (some vga_io_handler)
  add_mmio_map sync_mmio sync 24 (some vga_io_handler)
  base ← new_space 0x80000
  modify λ b. record b { dev = record (b.dev) { vmem = base } }
  add_mmio_map vmem_base base 0x80000 none

unfoldable pub init_i8042 : Cmd Bus (Unit {0})
unfolding new_space add_pio_map add_mmio_map
init_i8042 = do
  base ← new_space 4
  modify λ b. record b { dev = record (b.dev) { i8042_data_port_base = base } }
  modify λ b. store32 base key_none b
  add_pio_map i8042_data_port base 4 (some i8042_data_io_handler)
  add_mmio_map i8042_data_mmio base 4 (some i8042_data_io_handler)

unfoldable pub init_device : Cmd Bus (Unit {0})
unfolding init_serial init_timer init_vga init_i8042
init_device = do init_serial; init_timer; init_vga; init_i8042
