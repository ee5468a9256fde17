-- ===== src/Bus/Memory.antt =====
-- Physical memory: nemu/src/memory/memory.c. On x86 a virtual address is a physical one
-- (nemu/src/isa/x86/mmu.c).
pub mod Access
pub mod Mapped
use ics.Base.{
  ℕ, ◌+◌, ◌-◌, ◌%◌, ◌^◌, Option, none, some, leb, if◌then◌else◌, ◌&&◌, Cmd, ◌>>=◌, bind, bit_and,
}
use ics.Bus.Host.{memcpy, load32, len_mask}
use ics.Bus.Map.{fetch_mmio_map, map_read, map_write}
use ics.Bus.{Bus, pmem_size}

unfoldable pub register_pmem : ℕ → Bus → Bus
register_pmem base b = record b {
  pmem_low = base;
  pmem_high = (base + pmem_size + 2 ^ 32 - 1) % 2 ^ 32;
}

-- A read takes four bytes of the host and masks them, whatever the length.
unfoldable pub paddr_read : ℕ → ℕ → Cmd Bus ℕ
paddr_read addr len b =
    if leb b.pmem_low addr && leb addr b.pmem_high
    then bind (len_mask len) (λ mask. some (bit_and (load32 b.pmem (addr - b.pmem_low)) mask, b))
    else map_read addr len (fetch_mmio_map addr b) b

-- `memcpy(pmem + offset, &data, len)` reads past `data` unless `len` is at most 4.
unfoldable pub paddr_write : ℕ → ℕ → ℕ → Cmd Bus (Unit {0})
paddr_write addr value len b =
    if leb b.pmem_low addr && leb addr b.pmem_high
    then if leb len 4
      then some (tt, record b { pmem = memcpy b.pmem (addr - b.pmem_low) value len })
      else none
    else map_write addr value len (fetch_mmio_map addr b) b

unfoldable pub isa_vaddr_read : ℕ → ℕ → Cmd Bus ℕ
isa_vaddr_read = paddr_read

unfoldable pub isa_vaddr_write : ℕ → ℕ → ℕ → Cmd Bus (Unit {0})
isa_vaddr_write = paddr_write
