-- ===== src/Bus/Map.antt =====
-- Address maps: nemu/include/device/map.h and nemu/src/device/io/map.c, mmio.c and port-io.c.
pub mod Lookup
use ics.Base.{
  ℕ, ◌+◌, ◌-◌, ◌*◌, ◌/◌, ◌%◌, ◌^◌, Bool, true, false, ◌&&◌, Option, none, some, List, [], ◌∷◌, ◌++◌,
  ltb, leb, if◌then◌else◌, Cmd, ◌>>=◌, ◌>>◌, pure, assert, abort, modify, from_option, bit_and,
  length,
}
use ics.Bus.Host.{memcpy, load32, len_mask}
use ics.Bus.Device.{invoke_callback}
use ics.Bus.{Callback, IoMap, Bus, io_space_max, page_size}

-- `new_space`: `& ~PAGE_MASK` clears the low 12 bits.
unfoldable pub new_space : ℕ → Cmd Bus ℕ
new_space size = do
  let rounded = (size + (page_size - 1)) / page_size * page_size
  b ← λ s. some (s, s)
  modify λ s. record s { p_space = s.p_space + rounded }
  assert (ltb (b.p_space + rounded) io_space_max)
  pure b.p_space

unfoldable pub map_inside : IoMap → ℕ → Bool
map_inside map addr = leb map.low addr && leb addr map.high

-- The first map that holds the address. `difftest_skip_ref` is empty unless DIFF_TEST is on.
unfoldable pub find_map : List IoMap → ℕ → Option IoMap
unfolding map_inside
find_map [] addr = none
find_map (map ∷ maps) addr = if map_inside map addr then some map else find_map maps addr

unfoldable pub check_bound : IoMap → ℕ → Cmd Bus (Unit {0})
check_bound map addr = assert (leb addr map.high && leb map.low addr)

unfoldable pub map_read : ℕ → ℕ → Option IoMap → Cmd Bus ℕ
unfolding check_bound
map_read addr len none = abort
map_read addr len (some map) = do
  assert (leb 1 len && leb len 4)
  check_bound map addr
  invoke_callback map.callback (addr - map.low) len false
  mask ← from_option (len_mask len)
  λ b. some (bit_and (load32 b.io_space (map.space + (addr - map.low))) mask, b)

unfoldable pub map_write : ℕ → ℕ → ℕ → Option IoMap → Cmd Bus (Unit {0})
unfolding check_bound
map_write addr value len none = abort
map_write addr value len (some map) = do
  assert (leb 1 len && leb len 4)
  check_bound map addr
  modify λ b. record b { io_space = memcpy b.io_space (map.space + (addr - map.low)) value len }
  invoke_callback map.callback (addr - map.low) len true

abbrev pub nr_map : ℕ
nr_map = 8

abbrev pub io_map : ℕ → ℕ → ℕ → Option Callback → IoMap
io_map addr space len callback = record {
  low = addr;
  high = (addr + len + 2 ^ 32 - 1) % 2 ^ 32;
  space = space;
  callback = callback;
}

unfoldable pub add_mmio_map : ℕ → ℕ → ℕ → Option Callback → Cmd Bus (Unit {0})
add_mmio_map addr space len callback b =
    if ltb (length b.mmio_maps) nr_map
    then some (tt, record b { mmio_maps = b.mmio_maps ++ (io_map addr space len callback ∷ []) })
    else none

unfoldable pub fetch_mmio_map : ℕ → Bus → Option IoMap
fetch_mmio_map addr b = find_map b.mmio_maps addr

abbrev port_io_space_max : ℕ
port_io_space_max = 65535

unfoldable pub add_pio_map : ℕ → ℕ → ℕ → Option Callback → Cmd Bus (Unit {0})
add_pio_map addr space len callback b =
    if ltb (length b.pio_maps) nr_map && leb (addr + len) port_io_space_max
    then some (tt, record b { pio_maps = b.pio_maps ++ (io_map addr space len callback ∷ []) })
    else none

-- A missing map fails the assertion `mapid != -1`, as `map_read` does on NULL.
unfoldable pub pio_read_common : ℕ → ℕ → Cmd Bus ℕ
pio_read_common addr len b =
    if ltb (addr + len - 1) port_io_space_max
    then map_read addr len (find_map b.pio_maps addr) b
    else none

unfoldable pub pio_write_common : ℕ → ℕ → ℕ → Cmd Bus (Unit {0})
pio_write_common addr value len b =
    if ltb (addr + len - 1) port_io_space_max
    then map_write addr value len (find_map b.pio_maps addr) b
    else none
