-- ===== src/Bus/Memory/Mapped.antt =====
-- Accesses outside physical memory, which go to the address maps: nemu/src/memory/memory.c with
-- nemu/src/device/io/mmio.c and map.c.
use ics.Base.{
  List, [], ◌∷◌, ℕ, ◌+◌, ◌-◌, ◌%◌, ◌^◌, ◌≤◌, ◌<◌, ◌≡◌, refl, ◌⊎◌, none, some, false, true, arith,
  leb, le→leb, ◌&&◌,
}
use ics.Bus.{Bus, IoMap}
use ics.Bus.Host.{IsBytes, memcpy, memcpy-IsBytes}
use ics.Bus.Device.{invoke_callback}
use ics.Bus.Map.{map_inside, find_map, fetch_mmio_map, map_read, map_write, check_bound}
use ics.Bus.Memory.{paddr_read, paddr_write}
use ics.Bus.Memory.Access.{IsLen, masked, number-memcpy}

abbrev pub OutsidePmem : Bus → ℕ → Type 0
OutsidePmem b addr = (addr < b.pmem_low) ⊎ (b.pmem_high < addr)

outside :
    (b : Bus) (addr : ℕ)
    → OutsidePmem b addr
    → (leb b.pmem_low addr && leb addr b.pmem_high) ≡ false
outside b addr h = ground arith

-- The map that a search finds holds the address.
found :
    (maps : List IoMap) (addr : ℕ) {map : IoMap}
    → find_map maps addr ≡ some map
    → map_inside map addr ≡ true
unfolding find_map
found [] addr e = cc
found (m ∷ maps) addr {map} e = grind (arith, found maps addr {map = map})

inside :
    (map : IoMap) (addr : ℕ) → map_inside map addr ≡ true → (map.low ≤ addr) × (addr ≤ map.high)
unfolding map_inside
inside map addr e = ground arith

-- An access of an address outside physical memory that no MMIO map holds aborts, whether it reads
-- or writes.
pub unmapped-none :
    (b : Bus) (addr value len : ℕ)
    → OutsidePmem b addr
    → find_map b.mmio_maps addr ≡ none
    → (paddr_read addr len b ≡ none) × (paddr_write addr value len b ≡ none)
unfolding paddr_read paddr_write fetch_mmio_map map_read map_write
unmapped-none b addr value len h e = (rw (outside b addr h, e) refl, rw (outside b addr h, e) refl)

-- A write of 1 to 4 bytes at an address outside physical memory, which an MMIO map without a callback holds,
-- over an I/O space of bytes, succeeds and leaves physical memory and the devices as they were; a
-- read of the same address and length then returns the value modulo `256 ^ len`.
pub mapped-paddr :
    (b : Bus) (addr value len : ℕ) (map : IoMap)
    → OutsidePmem b addr
    → find_map b.mmio_maps addr ≡ some map
    → map.callback ≡ none
    → IsLen len
    → IsBytes b.io_space
    → (c : Bus) × (paddr_write addr value len b ≡ some (tt, c))
      × (paddr_read addr len c ≡ some (value % 256 ^ len, c))
      × (c.pmem ≡ b.pmem)
      × (c.dev ≡ b.dev)
unfolding paddr_read paddr_write fetch_mmio_map map_read map_write check_bound invoke_callback
mapped-paddr b addr value len map h e quiet k bytes =
    let at = map.space + (addr - map.low) in
    let c : Bus = record b { io_space = memcpy b.io_space at value len } in
    let (mask, is, keeps) =
      masked c.io_space at len (memcpy-IsBytes b.io_space at value len bytes) k in
    let (low, high) = inside map addr (found b.mmio_maps addr e) in
    (
      c,
      rw (outside b addr h, e, le→leb k.0, le→leb k.1, le→leb low, le→leb high, quiet) refl,
      rw
          (
            outside b addr h,
            e,
            le→leb k.0,
            le→leb k.1,
            le→leb low,
            le→leb high,
            quiet,
            is,
            keeps,
            number-memcpy b.io_space at value len,
          )
          refl,
      refl,
      refl,
    )
