-- ===== src/Bus.antt =====
-- What the guest reads and writes outside the processor: physical memory (nemu/src/memory), the
-- address maps (nemu/src/device/io) and the devices behind them (nemu/src/device). The devices are
-- those of a build with HAS_IOE; without it no map is registered.
--
-- `pmem` and `io_space` are the host arrays of those names, by offset. An offset past an array's
-- end stands for the host bytes that follow it.
pub mod Host
pub mod Queue
pub mod Device
pub mod Keyboard
pub mod Map
pub mod Memory
pub mod Init
use ics.Base.{ℕ, Bool, Option, List, ◌*◌, ◌+◌, ◌-◌, ◌≤◌, ◌<◌, ◌^◌}
use Host.{Bytes, IsBytes}
use Queue.{KeyQueue}

-- The `io_callback_t` functions of the devices.
pub data Callback : Type 0 where
  serial_ch_io_handler rtc_io_handler vga_io_handler i8042_data_io_handler : Callback

-- `IOMap`, less its `name`, which only messages show. `space` is an offset into `io_space`.
pub record IoMap : Type 0 where
  pub low : ℕ
  pub high : ℕ
  pub space : ℕ
  pub callback : Option Callback

-- The statics of serial.c, timer.c, keyboard.c and vga.c, and what they exchange with the host:
-- `out` is what went to stdout, `clock` the answers that gettimeofday() will give, and `shown` the
-- video memory that update_screen() last handed to SDL.
pub record Devices : Type 0 where
  pub serial_ch_base : ℕ
  pub rtc_port_base : ℕ
  pub i8042_data_port_base : ℕ
  pub screensize_port_base : ℕ
  pub sync_port_base : ℕ
  pub vmem : ℕ
  pub keys : KeyQueue
  pub out : List ℕ
  pub clock : List (ℕ × ℕ)
  pub shown : ℕ → ℕ

pub record Bus : Type 0 where
  pub pmem : Bytes
  pub pmem_low : ℕ
  pub pmem_high : ℕ
  pub mmio_maps : List IoMap
  pub pio_maps : List IoMap
  pub io_space : Bytes
  pub p_space : ℕ
  pub dev : Devices

abbrev pub pmem_size : ℕ
pmem_size = 128 * 1024 * 1024

abbrev pub io_space_max : ℕ
io_space_max = 1024 * 1024

abbrev pub page_size : ℕ
page_size = 4096
