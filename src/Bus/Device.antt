-- ===== src/Bus/Device.antt =====
-- The callbacks of the devices (nemu/src/device/serial.c, timer.c, vga.c, keyboard.c) and their
-- initialisation. A callback prepares the device's registers before a read and acts after a write.
use ics.Base.{
  ℕ, ◌+◌, ◌*◌, ◌/◌, ◌%◌, ◌^◌, Bool, not, Option, none, some, List, [], ◌∷◌, ◌++◌, ◌==◌,
  if◌then◌else◌, Cmd, ◌>>=◌, ◌>>◌, skip, assert, modify,
}
use ics.Bus.Host.{memcpy}
use ics.Bus.Queue.{next_key}
use ics.Bus.{
  Callback, serial_ch_io_handler, rtc_io_handler, vga_io_handler, i8042_data_io_handler, Bus,
}

-- `port[0] = value` through a `uint32_t *` into `io_space`.
abbrev pub store32 : ℕ → ℕ → Bus → Bus
store32 port value b = record b { io_space = memcpy b.io_space port value 4 }

pub serial_ch : ℕ → ℕ → Bool → Cmd Bus (Unit {0})
serial_ch offset len is_write = do
  assert (offset == 0)
  assert is_write
  assert (len == 1)
  modify λ b. record b {
    dev = record (b.dev) { out = b.dev.out ++ (b.io_space b.dev.serial_ch_base ∷ []) };
  }

-- `seconds * 1000 + (useconds + 500) / 1000` in uint32_t arithmetic.
pub milliseconds : ℕ → ℕ → ℕ
milliseconds tv_sec tv_usec =
    (tv_sec % 2 ^ 32 * 1000 % 2 ^ 32 + (tv_usec % 2 ^ 32 + 500) % 2 ^ 32 / 1000) % 2 ^ 32

-- `gettimeofday`: the next answer of the host's clock. The list is as long as a run needs.
gettimeofday : Cmd Bus (ℕ × ℕ)
gettimeofday b = go b.dev.clock
  where
    go : List (ℕ × ℕ) → Option ((ℕ × ℕ) × Bus)
    go [] = none
    go (now ∷ later) = some (now, record b { dev = record (b.dev) { clock = later } })

pub rtc_io : ℕ → ℕ → Bool → Cmd Bus (Unit {0})
unfolding gettimeofday
rtc_io offset len is_write = do
  assert (offset == 0)
  if is_write then skip else do
    (tv_sec, tv_usec) ← gettimeofday
    modify λ b. store32 b.dev.rtc_port_base (milliseconds tv_sec tv_usec) b

-- `update_screen` hands `vmem` to SDL.
pub update_screen : Bus → Bus
update_screen b = record b { dev = record (b.dev) { shown = λ i. b.io_space (b.dev.vmem + i) } }

pub vga_io : ℕ → ℕ → Bool → Cmd Bus (Unit {0})
unfolding update_screen
vga_io offset len is_write = if is_write then modify update_screen else skip

unfoldable pub i8042_data_io : ℕ → ℕ → Bool → Cmd Bus (Unit {0})
unfolding next_key
i8042_data_io offset len is_write = do
  assert (not is_write)
  assert (offset == 0)
  modify λ b.
      let (code, keys) = next_key b.dev.keys in
      store32 b.dev.i8042_data_port_base code (record b { dev = record (b.dev) { keys = keys } })

-- `invoke_callback`: nothing at NULL, else the handler.
unfoldable pub invoke_callback : Option Callback → ℕ → ℕ → Bool → Cmd Bus (Unit {0})
unfolding serial_ch rtc_io vga_io i8042_data_io
invoke_callback none offset len is_write = skip
invoke_callback (some serial_ch_io_handler) offset len is_write = serial_ch offset len is_write
invoke_callback (some rtc_io_handler) offset len is_write = rtc_io offset len is_write
invoke_callback (some vga_io_handler) offset len is_write = vga_io offset len is_write
invoke_callback (some i8042_data_io_handler) offset len is_write = i8042_data_io offset len is_write
