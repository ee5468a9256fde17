-- ===== src/QemuDiff/Server.antt =====
-- What GDB's remote protocol documents of the packets that the code sends.
use ics.Base.{
  ℕ, suc, ◌+◌, ◌*◌, ◌/◌, ◌%◌, ◌^◌, ◌<◌, ◌≡◌, refl, ◌∙◌, sym, Option, none, some, List, [], ◌∷◌,
  ◌++◌, ◌==◌, if◌then◌else◌, bind, codes, length, arith, eq→==, Bool-cases, inl, inr,
}
use ics.Monitor.Expr.Tokens.{digit}
use ics.QemuDiff.Hex.{hex_char, digit-hex_char, print_x, read_hex, read_hex-print_x}
use ics.QemuDiff.{Protocol, encode_bytes, memcpy_packet}

-- Pairs of digits, up to the end of the text.
unfoldable pub read_bytes : List ℕ → Option (List ℕ)
read_bytes [] = some []
read_bytes (c ∷ []) = none
read_bytes (c ∷ (d ∷ cs)) =
    bind (digit 16 c)
      (λ h. bind (digit 16 d) (λ l. bind (read_bytes cs) (λ bs. some ((h * 16 + l) ∷ bs))))

-- A number in hexadecimal, with the prefix 0x or without, up to a separator.
abbrev until : ℕ → ℕ × List ℕ → Option (ℕ × List ℕ)
until c (n, []) = none
until c (n, d ∷ cs) = if d == c then some (n, cs) else none

unfoldable pub skip_prefix : List ℕ → List ℕ
skip_prefix (a ∷ (b ∷ cs)) = if b == b'x' then cs else a ∷ (b ∷ cs)
skip_prefix cs = cs

-- `M addr,length:XX…`: the address and the bytes, as many as the length says.
unfoldable pub read_memory_packet : List ℕ → Option (ℕ × List ℕ)
read_memory_packet [] = none
read_memory_packet (c ∷ cs) =
    if c == b'M'
    then bind (until b',' (read_hex 0 (skip_prefix cs))) (λ (addr, t).
      bind (until b':' (read_hex 0 t)) (λ (len, u).
        bind (read_bytes u) (λ bytes. if length bytes == len then some (addr, bytes) else none)))
    else none

-- `hex_encode` gives the digits of a nibble in lower case.
unfoldable pub EncodesHex : {Q : Type 0} → Protocol Q → Type 0
EncodesHex p = (d : ℕ) → d < 16 → p.hex_encode d ≡ hex_char d

-- Numbers below a bound: 256 for bytes, and 2 ^ 32 for words.
unfoldable pub AllBelow : ℕ → List ℕ → Type 0
AllBelow bound [] = Unit {0}
AllBelow bound (b ∷ bs) = (b < bound) × AllBelow bound bs

module _ {Q : Type 0} (p : Protocol Q) (encodes : EncodesHex p) where
  pub read_bytes-encode_bytes :
      (bs : List ℕ) → AllBelow 256 bs → read_bytes (encode_bytes p bs) ≡ some bs
  unfolding read_bytes encode_bytes AllBelow EncodesHex
  read_bytes-encode_bytes [] h = refl
  read_bytes-encode_bytes (b ∷ bs) (h, hs) =
      let whole : b / 16 * 16 + b % 16 ≡ b = omega arith in
      rw
        (
          encodes (b / 16) (omega arith),
          encodes (b % 16) (omega arith),
          digit-hex_char (b / 16) (omega arith),
          digit-hex_char (b % 16) (omega arith),
          read_bytes-encode_bytes bs hs,
          whole,
        )
        refl

  -- The packet of a copy reads back as its address and its bytes.
  pub read-memcpy_packet :
      (dest : ℕ) (src : List ℕ)
      → dest < 2 ^ 32
      → length src < 2 ^ 32
      → AllBelow 256 src
      → read_memory_packet (memcpy_packet p dest src) ≡ some (dest, src)
  unfolding read_memory_packet memcpy_packet skip_prefix
  read-memcpy_packet dest src d l h =
      let behind = codes ":" ++ encode_bytes p src in
      let address : read_hex 0 (print_x dest (codes "," ++ print_x (length src) behind))
          ≡ (dest, codes "," ++ print_x (length src) behind) =
        read_hex-print_x dest _ d ∙ (unfold read_hex in refl) in
      let size : read_hex 0 (print_x (length src) behind) ≡ (length src, behind) =
        read_hex-print_x (length src) behind l ∙ (unfold read_hex in refl) in
      rw (address, size, read_bytes-encode_bytes src h, eq→== (length src) (length src) refl) refl

-- Memory with bytes stored from an address on.
abbrev pub stored : List ℕ → ℕ → (ℕ → ℕ) → ℕ → ℕ
stored [] addr mem a = mem a
stored (b ∷ bs) addr mem a = if a == addr then b else stored bs (addr + 1) mem a

-- The server stores the bytes of a packet of this kind in `memory`, and answers OK.
unfoldable pub Stores : {Q : Type 0} → Protocol Q → (Q → ℕ → ℕ) → Type 0
Stores {Q} p memory =
    (q : Q) (packet : List ℕ) (addr : ℕ) (bytes : List ℕ)
    → read_memory_packet packet ≡ some (addr, bytes)
    → ((p.recv (p.send packet q)).0 ≡ codes "OK")
      × ((a : ℕ) → memory (p.recv (p.send packet q)).1 a ≡ stored bytes addr (memory q) a)

pub stored_same :
    (bs : List ℕ) (addr a : ℕ) (mem other : ℕ → ℕ)
    → mem a ≡ other a
    → stored bs addr mem a ≡ stored bs addr other a
stored_same [] addr a mem other e = e
stored_same (b ∷ bs) addr a mem other e = ground (arith, stored_same bs (addr + 1) a mem other e)

stored_below : (bs : List ℕ) (addr a : ℕ) (mem : ℕ → ℕ) → a < addr → stored bs addr mem a ≡ mem a
stored_below [] addr a mem h = refl
stored_below (b ∷ bs) addr a mem h = ground (arith, stored_below bs (addr + 1) a mem (omega arith))

pub stored-append :
    (xs ys : List ℕ) (addr a : ℕ) (mem : ℕ → ℕ)
    → stored (xs ++ ys) addr mem a ≡ stored ys (addr + length xs) (stored xs addr mem) a
stored-append [] ys addr a mem = let same : addr + 0 ≡ addr = omega arith in rw same refl
stored-append (x ∷ xs) ys addr a mem =
    let later : addr + suc (length xs) ≡ addr + 1 + length xs = omega arith in
    elim (Bool-cases (a == addr)) [
      | inl here ↦
          let first : stored (x ∷ xs) addr mem a ≡ x = rw here refl in
          rw here (
            sym (
              stored_below ys (addr + suc (length xs)) a (stored (x ∷ xs) addr mem) (ground arith)
              ∙ first))
      | inr apart ↦
          let rest : stored xs (addr + 1) mem a ≡ stored (x ∷ xs) addr mem a = rw apart refl in
          rw (apart, later)
            (stored-append xs ys (addr + 1) a mem
              ∙ stored_same ys (addr + 1 + length xs) a (stored xs (addr + 1) mem)
                  (stored (x ∷ xs) addr mem) rest)
    ]
