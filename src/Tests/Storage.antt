-- ===== src/Tests/Storage.antt =====
-- Registers, memory, address maps and the key queue at concrete states.
use ics.Base.{◌⊎◌, ℕ, ◌+◌, ◌%◌, ◌<◌, ◌≤◌, ◌≡◌, refl, inl, some, none, true, false, Ends, ◌≢◌, arith}
use mathlib.Core.Option
use ics.Tests.{bus, no_keys}
use ics.Bus.Host.{Bytes}
use ics.Rtl.Host.{rtl_host_lm, rtl_host_sm}
use ics.X86.Reg.{read_reg, write_reg}
use ics.X86.Reg.Layout.{laid, write_reg-rtl_host_sm}
use ics.X86.Reg.Views.{IsWidth, Apart, AreWords, read_reg-write_reg}
use ics.Bus.{Bus}
use ics.Bus.Device.{i8042_data_io}
use ics.Bus.Keyboard.{Delivered, i8042_data_io-Delivered}
use ics.Bus.Host.{IsBytes}
use ics.Bus.Memory.{paddr_read, paddr_write}
use ics.Bus.Memory.Access.{InPmem, IsLen, paddr_read-paddr_write}
use ics.Bus.Queue.{KeyQueue, IsRing, pending, send_key, enqueue, event_code, send_key_refines}

paddr_read-paddr_write_example :
    (c : Bus) × (paddr_write 0x100000 0x12345678 4 bus ≡ some (tt, c))
    × (paddr_read 0x100000 4 c ≡ some (0x12345678, c))
    × ((other width : ℕ)
        → InPmem bus other
        → IsLen width
        → (other + width ≤ 0x100000) ⊎ (0x100000 + 4 ≤ other)
        → (v : ℕ) × (paddr_read other width bus ≡ some (v, bus))
          × (paddr_read other width c ≡ some (v, c)))
    × IsBytes c.pmem
    × ((other : ℕ) → InPmem bus other → InPmem c other)
paddr_read-paddr_write_example =
    paddr_read-paddr_write bus 0x100000 0x12345678 4 (omega arith) (omega arith) (λ q. omega arith)

-- %ch is byte 1 of %ecx.
read_reg-write_reg_example :
    (g : ℕ → ℕ) × (write_reg (λ i. i % 256) 5 0xab 1 ≡ some g)
    × (read_reg g 5 1 ≡ some 0xab)
    × ((s v : ℕ) → s < 8 → IsWidth v → Apart 5 1 s v → read_reg g s v ≡ read_reg (λ i. i % 256) s v)
    × AreWords g
read_reg-write_reg_example =
    read_reg-write_reg (λ i. i % 256) 5 1 0xab (λ i. omega arith) (omega arith) (inl refl)
      (omega arith)

write_reg-rtl_host_sm_example :
    (read_reg (λ i. i % 256) 5 1 ≡ rtl_host_lm (laid (λ i. i % 256)) 5 1)
    × (g : ℕ → ℕ) × (h : Bytes) × (write_reg (λ i. i % 256) 5 0xab 1 ≡ some g)
    × (rtl_host_sm (laid (λ i. i % 256)) 5 0xab 1 ≡ some h)
    × ((p : ℕ) → h p ≡ laid g p)
write_reg-rtl_host_sm_example =
    write_reg-rtl_host_sm (λ i. i % 256) 5 1 0xab (λ i. omega arith) (omega arith) (inl refl)
      (omega arith)

send_key_refines_example :
    (Option.map pending (send_key (λ s. s) true 30 true no_keys)
      ≡ enqueue (event_code (λ s. s) true 30 true) (pending no_keys))
    × ((p : KeyQueue) → send_key (λ s. s) true 30 true no_keys ≡ some p → IsRing p)
send_key_refines_example = send_key_refines (λ s. s) true 30 true no_keys (omega arith)

i8042_data_io-Delivered_example :
    ((◌≡◌ {A = ℕ} 0 0) × (false ≡ false) × Ends (Delivered bus) (i8042_data_io 0 4 false bus))
    ⊎ (((◌≢◌ {A = ℕ} 0 0) ⊎ (false ≡ true)) × (i8042_data_io 0 4 false bus ≡ none))
i8042_data_io-Delivered_example =
    i8042_data_io-Delivered 0 4 false bus (omega arith) (λ i. omega arith)
