-- ===== src/Bus/Init/Output.antt =====
-- The serial port of the initialised devices.
use ics.Base.{ℕ, ◌%◌, ◌≡◌, refl, [], ◌∷◌, ◌++◌, Ends, ends, ◌>>◌}
use ics.Bus.Device.{invoke_callback}
use ics.Bus.Host.{memcpy}
use ics.Bus.Map.{pio_write_common, map_write, find_map}
use ics.Bus.Init.{init_device}
use ics.Bus.Init.Routes.{IsFresh}
use ics.Bus.{Bus}

-- After `init_device`, a byte written to port 0x3f8 is printed, and nothing else is.
pub serial_output :
    (b : Bus) (v : ℕ)
    → IsFresh b
    → Ends
        (λ c. c.dev.out ≡ b.dev.out ++ (v % 256 ∷ []))
        ((init_device >> pio_write_common 0x3f8 v 1) b)
unfolding init_device pio_write_common map_write find_map memcpy invoke_callback
serial_output b v fresh = rw (fresh.space, fresh.mmio, fresh.pio) (ends refl)
