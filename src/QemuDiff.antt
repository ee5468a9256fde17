-- ===== src/QemuDiff.antt =====
-- The reference emulator of differential testing: nemu/tools/qemu-diff/src/gdb-host.c, diff-test.c and
-- isa/x86/init.c, which drive QEMU over GDB's remote protocol. protocol.c is a copy of another
-- project's code, and a parameter like QEMU itself. Forking QEMU and connecting to it are left out.
pub mod Hex
pub mod Server
pub mod Copied
pub mod Registers
pub mod AsReference
use ics.Base.{
  ℕ, zero, suc, ◌+◌, ◌-◌, ◌*◌, ◌/◌, ◌%◌, ◌^◌, Bool, true, false, ◌&&◌, Option, none, some, List, [],
  ◌∷◌, ◌++◌, ltb, leb, ◌==◌, if◌then◌else◌, bind, codes, same_text, length, Cmd, ◌>>=◌, ◌>>◌,
  assert, abort, ℤ, pos, negsuc, pure, skip, from_option,
}
use Hex.{print_x}

-- The functions of protocol.c on the state `Q` of the connection and of QEMU: `gdb_send`, `gdb_recv`,
-- `hex_encode`, and `gdb_decode_hex_str` of the text up to a NUL.
pub record Protocol (Q : Type 0) : Type 0 where
  pub send : List ℕ → Q → Q
  pub recv : Q → List ℕ × Q
  pub hex_encode : ℕ → ℕ
  pub decode_hex_str : List ℕ → ℕ

abbrev pub mtu : ℕ
mtu = 1500

abbrev pub take : ℕ → List ℕ → List ℕ
take zero xs = []
take (suc n) [] = []
take (suc n) (x ∷ xs) = x ∷ take n xs

abbrev pub drop : ℕ → List ℕ → List ℕ
drop zero xs = xs
drop (suc n) [] = []
drop (suc n) (x ∷ xs) = drop n xs

-- `isa_gdb_regs` of x86 is an array of 77 words, whose first nine are `DIFFTEST_REG_SIZE` bytes.
abbrev pub nr_words : ℕ
nr_words = 77

abbrev pub difftest_words : ℕ
difftest_words = 9

-- The bytes of words in memory.
abbrev pub word_bytes : ℕ → List ℕ → List ℕ
word_bytes w rest =
    w % 2 ^ 8 ∷ (w / 2 ^ 8 % 2 ^ 8 ∷ (w / 2 ^ 16 % 2 ^ 8 ∷ (w / 2 ^ 24 % 2 ^ 8 ∷ rest)))

unfoldable pub bytes_of : List ℕ → List ℕ
bytes_of [] = []
bytes_of (w ∷ ws) = word_bytes w (bytes_of ws)

-- The code that enters protected mode.
abbrev pub mbr : List ℕ
mbr =
    0xfa ∷ 0x31 ∷ 0xc0 ∷ 0x8e ∷ 0xd8 ∷ 0x8e ∷ 0xc0 ∷ 0x8e ∷ 0xd0 ∷ 0x0f ∷ 0x01 ∷ 0x16 ∷ 0x44 ∷ 0x7c
    ∷ 0x0f ∷ 0x20 ∷ 0xc0 ∷ 0x66 ∷ 0x83 ∷ 0xc8 ∷ 0x01 ∷ 0x0f ∷ 0x22 ∷ 0xc0 ∷ 0xea ∷ 0x1d ∷ 0x7c
    ∷ 0x08 ∷ 0x00 ∷ 0x66 ∷ 0xb8 ∷ 0x10 ∷ 0x00 ∷ 0x8e ∷ 0xd8 ∷ 0x8e ∷ 0xc0 ∷ 0x8e ∷ 0xd0 ∷ 0xeb
    ∷ 0xfe ∷ 0x8d ∷ 0x76 ∷ 0x00 ∷ 0x00 ∷ 0x00 ∷ 0x00 ∷ 0x00 ∷ 0x00 ∷ 0x00 ∷ 0x00 ∷ 0x00 ∷ 0xff
    ∷ 0xff ∷ 0x00 ∷ 0x00 ∷ 0x00 ∷ 0x9a ∷ 0xcf ∷ 0x00 ∷ 0xff ∷ 0xff ∷ 0x00 ∷ 0x00 ∷ 0x00 ∷ 0x92
    ∷ 0xcf ∷ 0x00 ∷ 0x17 ∷ 0x00 ∷ 0x2c ∷ 0x7c ∷ 0x00 ∷ 0x00 ∷ []

-- `r.eip` is word 8 and `r.cs` word 10.
abbrev pub start_registers : List ℕ → List ℕ
start_registers r = take 8 r ++ (0x7c00 ∷ (take 1 (drop 9 r) ++ (0x0000 ∷ drop 11 r)))

-- A size_t that is passed as an int keeps its low 32 bits.
abbrev pub as_int : ℕ → ℤ
as_int n = let w = n % 2 ^ 32 in if ltb w (2 ^ 31) then pos w else negsuc (2 ^ 32 - 1 - w)

module _ {Q : Type 0} (p : Protocol Q) where
  -- The loops that print two digits for each byte.
  unfoldable pub encode_bytes : List ℕ → List ℕ
  encode_bytes [] = []
  encode_bytes (b ∷ bs) = p.hex_encode (b / 2 ^ 4) ∷ (p.hex_encode (b % 2 ^ 4) ∷ encode_bytes bs)

  -- A packet is sent, and the reply received.
  abbrev pub exchange : List ℕ → Cmd Q (List ℕ)
  exchange packet q = some (p.recv (p.send packet q))

  -- `src` are the bytes at the pointer: `len` of them.
  unfoldable pub memcpy_packet : ℕ → List ℕ → List ℕ
  memcpy_packet dest src =
      codes "M0x"
      ++ print_x dest (codes "," ++ print_x (length src) (codes ":" ++ encode_bytes src))

  unfoldable pub gdb_memcpy_to_qemu_small : ℕ → List ℕ → Cmd Q Bool
  unfolding memcpy_packet
  gdb_memcpy_to_qemu_small dest src = do
    reply ← exchange (memcpy_packet dest src)
    pure (same_text reply (codes "OK"))

  -- The `while` loop and the last piece, on fuel for its turns.
  unfoldable pub memcpy_pieces : ℕ → ℕ → List ℕ → Bool → Cmd Q Bool
  memcpy_pieces zero dest src ok q = none
  memcpy_pieces (suc turns) dest src ok q =
      let rest = memcpy_pieces turns ((dest + mtu) % 2 ^ 32) (drop mtu src) in
      if ltb mtu (length src)
      then bind (gdb_memcpy_to_qemu_small dest (take mtu src) q)
          (λ (sent, q1). rest (ok && sent) q1)
      else bind (gdb_memcpy_to_qemu_small dest src q) (λ (sent, q1). some (ok && sent, q1))

  -- A negative `len` is less than `mtu`, and its packet has no bytes. `malloc(len * 2 + 128)` must give
  -- room for the text and its NUL, or it fails or is overrun.
  unfoldable pub gdb_memcpy_negative : ℕ → ℕ → Cmd Q Bool
  gdb_memcpy_negative dest len =
      let packet = codes "M0x" ++ print_x dest (codes "," ++ print_x (2 ^ 32 - len) (codes ":")) in
      if leb (length packet + 1 + 2 * len) 128
      then (do reply ← exchange packet; pure (same_text reply (codes "OK")))
      else abort

  -- `len` is an int, and `src` the bytes at the pointer. Each turn takes bytes, so their number is fuel
  -- enough.
  unfoldable pub gdb_memcpy_to_qemu : ℕ → List ℕ → ℤ → Cmd Q Bool
  unfolding memcpy_pieces gdb_memcpy_negative
  gdb_memcpy_to_qemu dest src (pos len) =
      if leb len (length src) then memcpy_pieces (suc len) dest (take len src) true else abort
  gdb_memcpy_to_qemu dest src (negsuc n) = gdb_memcpy_negative dest (n + 1)

  -- The loop of `gdb_getregs`, for `n` words; a reply that is too short is read past its end.
  unfoldable pub decode_words : ℕ → List ℕ → Option (List ℕ)
  decode_words zero reply = some []
  decode_words (suc n) reply =
      if ltb (length reply) 8
      then none
      else bind (decode_words n (drop 8 reply))
          (λ ws. some (p.decode_hex_str (take 8 reply) % 2 ^ 32 ∷ ws))

  unfoldable pub gdb_getregs : Cmd Q (List ℕ)
  gdb_getregs = do reply ← exchange (codes "g"); from_option (decode_words nr_words reply)

  unfoldable pub gdb_setregs : List ℕ → Cmd Q Bool
  gdb_setregs r = do
    reply ← exchange (codes "G" ++ encode_bytes (bytes_of r))
    pure (same_text reply (codes "OK"))

  unfoldable pub gdb_si : Cmd Q (Unit {0})
  gdb_si = do exchange (codes "vCont;s:1"); skip

  unfoldable pub difftest_memcpy_from_dut : ℕ → List ℕ → Cmd Q (Unit {0})
  difftest_memcpy_from_dut dest src = do
    ok ← gdb_memcpy_to_qemu dest src (as_int (length src))
    assert ok

  unfoldable pub difftest_getregs : Cmd Q (List ℕ)
  difftest_getregs = do qemu_r ← gdb_getregs; pure (take difftest_words qemu_r)

  -- What `gdb_setregs` returns is not looked at.
  unfoldable pub difftest_setregs : List ℕ → Cmd Q (Unit {0})
  difftest_setregs r = do
    qemu_r ← gdb_getregs
    gdb_setregs (take difftest_words r ++ drop difftest_words qemu_r)
    skip

  unfoldable pub difftest_exec : ℕ → Cmd Q (Unit {0})
  unfolding gdb_si
  difftest_exec zero q = some (tt, q)
  difftest_exec (suc n) q = bind (gdb_si q) (λ (t, q1). difftest_exec n q1)

  unfoldable pub init_isa : Cmd Q (Unit {0})
  init_isa = do
    ok ← gdb_memcpy_to_qemu 0x7c00 mbr (pos (length mbr))
    assert ok
    r ← gdb_getregs
    set ← gdb_setregs (start_registers r)
    assert set
    difftest_exec 20
