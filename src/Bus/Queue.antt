-- ===== src/Bus/Queue.antt =====
-- The key queue of nemu/src/device/keyboard.c: a ring of 1024 cells between `key_f` and `key_r`.
use ics.Base.{
  ℕ, zero, suc, ◌+◌, ◌-◌, ◌%◌, ◌<◌, ◌≡◌, refl, ap, ◌≢◌, Bool, not, ◌&&◌, Option, none, some, List,
  [], ◌∷◌, ◌++◌, arith, ◌==◌, if◌then◌else◌, bit_or, bit_or-zero, length,
}
use mathlib.Core.Option
use ics.Bus.Host.{set_byte}

pub record KeyQueue : Type 0 where
  pub key_queue : ℕ → ℕ
  pub key_f : ℕ
  pub key_r : ℕ

abbrev pub key_queue_len : ℕ
key_queue_len = 1024

abbrev pub keydown_mask : ℕ
keydown_mask = 0x8000

abbrev pub key_none : ℕ
key_none = 0

-- `send_key`. `running` says that `nemu_state.state` is NEMU_RUNNING; the table `keymap` is indexed
-- by SDL's scancodes, which are not this program's, and is an argument.
unfoldable pub send_key : (ℕ → ℕ) → Bool → ℕ → Bool → KeyQueue → Option KeyQueue
send_key keymap running scancode is_keydown q =
    if running && not (keymap scancode == key_none)
    then (let am_scancode = bit_or (keymap scancode) (if is_keydown then keydown_mask else 0) in
        let key_r = (q.key_r + 1) % key_queue_len in
        let cells = set_byte q.key_queue q.key_r am_scancode in
        if key_r == q.key_f then none else some (record q { key_queue = cells; key_r = key_r }))
    else some q

-- The part of `i8042_data_io_handler` that takes the next code, or _KEY_NONE.
unfoldable pub next_key : KeyQueue → ℕ × KeyQueue
next_key q =
    if not (q.key_f == q.key_r)
    then (q.key_queue q.key_f, record q { key_f = (q.key_f + 1) % key_queue_len })
    else (key_none, q)

-- The `n` codes from cell `f` on, round the ring.
abbrev pub window : (ℕ → ℕ) → ℕ → ℕ → List ℕ
window cells f zero = []
window cells f (suc n) = cells f ∷ window cells ((f + 1) % key_queue_len) n

-- How many codes wait, and which, oldest first.
abbrev pub waiting : KeyQueue → ℕ
waiting q = (q.key_r + key_queue_len - q.key_f) % key_queue_len

abbrev pub pending : KeyQueue → List ℕ
pending q = window q.key_queue q.key_f (waiting q)

-- Both indices lie in the ring.
pub record IsRing (q : KeyQueue) : Type 0 where
  pub front : q.key_f < key_queue_len
  pub rear : q.key_r < key_queue_len

window-set :
    (cells : ℕ → ℕ) (v f n r : ℕ)
    → f < key_queue_len
    → n < key_queue_len
    → r ≡ (f + n) % key_queue_len
    → window (set_byte cells r v) f (suc n) ≡ window cells f n ++ (v ∷ [])
window-set cells v f zero r hf hn e = ground arith
window-set cells v f (suc n) r hf hn e = ground (
  arith,
  window-set cells v ((f + 1) % key_queue_len) n r (omega arith) (omega arith) (omega arith),
)

length-window : (cells : ℕ → ℕ) (f n : ℕ) → length (window cells f n) ≡ n
length-window cells f zero = refl
length-window cells f (suc n) = ap suc (length-window cells ((f + 1) % key_queue_len) n)

window_nonempty :
    (cells : ℕ → ℕ) (f n : ℕ)
    → n ≢ 0
    → window cells f n ≡ cells f ∷ window cells ((f + 1) % key_queue_len) (n - 1)
window_nonempty cells f zero h = absurd (h refl)
window_nonempty cells f (suc n) h = ap (λ k. window cells f (suc k)) (omega arith)

-- The abstract queue of at most 1023 codes: an event is a code, or nothing where the emulator is
-- not running or the key has no code. A 1024th code aborts.
unfoldable pub enqueue : Option ℕ → List ℕ → Option (List ℕ)
enqueue none codes = some codes
enqueue (some code) codes = if length codes == 1023 then none else some (codes ++ (code ∷ []))

unfoldable pub dequeue : List ℕ → ℕ × List ℕ
dequeue [] = (key_none, [])
dequeue (code ∷ codes) = (code, codes)

-- The code of a key event: the key's number, with bit 15 set when the key goes down.
unfoldable pub event_code : (ℕ → ℕ) → Bool → ℕ → Bool → Option ℕ
event_code keymap running scancode is_keydown =
    if running && not (keymap scancode == key_none)
    then some (if is_keydown then bit_or (keymap scancode) keydown_mask else keymap scancode)
    else none

module _ (q : KeyQueue) (v : IsRing q) (code : ℕ) where
  next_rear : ℕ
  next_rear = (q.key_r + 1) % key_queue_len

  full_iff : (next_rear == q.key_f) ≡ (waiting q == 1023)
  unfolding next_rear
  full_iff = ground arith

  waiting_more :
      next_rear ≢ q.key_f → (next_rear + key_queue_len - q.key_f) % key_queue_len ≡ suc (waiting q)
  unfolding next_rear
  waiting_more h = omega arith

  appended :
      next_rear ≢ q.key_f
      → pending (record q { key_queue = set_byte q.key_queue q.key_r code; key_r = next_rear })
        ≡ pending q ++ (code ∷ [])
  appended h = rw (waiting_more h) (
      window-set q.key_queue code q.key_f (waiting q) q.key_r (omega arith) (omega arith)
        (omega arith))

-- `send_key` on a valid ring does to the pending codes what the abstract queue does, the abort
-- included, and the new ring is valid.
pub send_key_refines :
    (keymap : ℕ → ℕ) (running : Bool) (scancode : ℕ) (is_keydown : Bool) (q : KeyQueue)
    → IsRing q
    → (Option.map pending (send_key keymap running scancode is_keydown q)
        ≡ enqueue (event_code keymap running scancode is_keydown) (pending q))
      × ((p : KeyQueue) → send_key keymap running scancode is_keydown q ≡ some p → IsRing p)
unfolding send_key enqueue event_code next_rear
send_key_refines keymap running scancode is_keydown q v = (
  ground (
    arith,
    full_iff q v 0,
    length-window q.key_queue q.key_f (waiting q),
    bit_or-zero (keymap scancode),
    appended q v (bit_or (keymap scancode) keydown_mask),
    appended q v (keymap scancode),
  ),
  λ p e. ground arith,
)

-- Taking the next code gives the oldest pending one, or _KEY_NONE from an empty queue, and keeps
-- the ring valid.
pub next_key_lem :
    (q : KeyQueue)
    → IsRing q
    → (((next_key q).0, pending (next_key q).1) ≡ dequeue (pending q)) × IsRing (next_key q).1
unfolding next_key dequeue
next_key_lem q v = (ground (arith, window_nonempty q.key_queue q.key_f (waiting q)), ground arith)
