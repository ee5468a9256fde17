-- ===== src/Rtl/Host.antt =====
-- `rtl_host_lm` and `rtl_host_sm` of nemu/include/rtl/rtl.h: accesses to NEMU's own memory, which are
-- those of a little-endian host.
use ics.Base.{ℕ, ◌+◌, ◌*◌, Option, some, none, ◌==◌, if◌then◌else◌}
use ics.Bus.Host.{Bytes, load32, memcpy}

-- What the load puts in its destination.
unfoldable pub rtl_host_lm : Bytes → ℕ → ℕ → Option ℕ
rtl_host_lm mem addr len =
    if len == 4
    then some (load32 mem addr)
    else if len == 1
    then some (mem addr)
    else if len == 2
    then some (mem addr + 256 * mem (addr + 1))
    else none

unfoldable pub rtl_host_sm : Bytes → ℕ → ℕ → ℕ → Option Bytes
rtl_host_sm mem addr value len =
    if len == 4
    then some (memcpy mem addr value 4)
    else if len == 1
    then some (memcpy mem addr value 1)
    else if len == 2
    then some (memcpy mem addr value 2)
    else none
