-- ===== src/Bus/Keyboard.antt =====
-- Reading the keyboard's data port: `i8042_data_io_handler` of nemu/src/device/keyboard.c over the ring.
use ics.Base.{
  ℕ, ◌+◌, ◌^◌, ◌≤◌, ◌<◌, ◌≡◌, ◌≢◌, ◌⊎◌, refl, Bool, true, false, none, arith, ap, Ends, ends, inl,
  inr, ◌∙◌, Bool-cases, ◌==◌,
}
use ics.Bus.Device.{i8042_data_io, store32}
use ics.Bus.Host.{Bytes, load32, memcpy, memcpy_outside}
use ics.Bus.Queue.{KeyQueue, IsRing, pending, next_key, next_key_lem, dequeue}
use ics.Bus.{Bus}

load32-memcpy :
    (mem : Bytes) (p value : ℕ) → value < 2 ^ 32 → load32 (memcpy mem p value 4) p ≡ value
unfolding load32 memcpy
load32-memcpy mem p value h = ground arith

-- The bus after a read of the port.
pub record Delivered (b c : Bus) : Type 0 where
  pub code :
      (load32 c.io_space b.dev.i8042_data_port_base, pending c.dev.keys)
      ≡ dequeue (pending b.dev.keys)
  pub ring : IsRing c.dev.keys
  pub outside :
      (q : ℕ)
      → (q < b.dev.i8042_data_port_base) ⊎ (b.dev.i8042_data_port_base + 4 ≤ q)
      → c.io_space q ≡ b.io_space q
  pub rest : record c { io_space = b.io_space; dev = record (c.dev) { keys = b.dev.keys } } ≡ b

next_key_small : (q : KeyQueue) → ((i : ℕ) → q.key_queue i < 2 ^ 32) → (next_key q).0 < 2 ^ 32
unfolding next_key
next_key_small q h = ground (arith, h q.key_f)

delivered :
    (b : Bus)
    → IsRing b.dev.keys
    → ((i : ℕ) → b.dev.keys.key_queue i < 2 ^ 32)
    → Delivered b (
        store32 b.dev.i8042_data_port_base
          (next_key b.dev.keys).0
          (record b { dev = record (b.dev) { keys = (next_key b.dev.keys).1 } }))
delivered b v small =
    let (taken, ring) = next_key_lem b.dev.keys v in
    record {
      code =
          ap (λ k. (k, pending (next_key b.dev.keys).1))
            (load32-memcpy b.io_space b.dev.i8042_data_port_base (next_key b.dev.keys).0
              (next_key_small b.dev.keys small))
          ∙ taken;
      ring = ring;
      outside = λ q out.
          memcpy_outside b.io_space b.dev.i8042_data_port_base (next_key b.dev.keys).0 4 q out;
      rest = refl;
    }

-- On a valid ring of 32-bit codes, a read of the data port at offset 0 puts the oldest pending code
-- into the port's word, or _KEY_NONE from an empty queue, takes it from the queue, keeps the ring
-- valid and leaves the rest of the bus. A write, and a read at another offset, aborts.
pub i8042_data_io-Delivered :
    (offset len : ℕ) (is_write : Bool) (b : Bus)
    → IsRing b.dev.keys
    → ((i : ℕ) → b.dev.keys.key_queue i < 2 ^ 32)
    → ((offset ≡ 0) × (is_write ≡ false) × Ends (Delivered b) (i8042_data_io offset len is_write b))
      ⊎ (((offset ≢ 0) ⊎ (is_write ≡ true)) × (i8042_data_io offset len is_write b ≡ none))
unfolding i8042_data_io
i8042_data_io-Delivered offset len true b v small = inr (inr refl, refl)
i8042_data_io-Delivered offset len false b v small = elim (Bool-cases (offset == 0)) [
  | inl e ↦ inl (ground (arith, e), refl, rw e (ends (delivered b v small)))
  | inr e ↦ inr (inl (λ o. ground (arith, e, o)), rw e refl)
]
