-- ===== src/QemuDiff/Registers.antt =====
-- Reading and setting QEMU's registers.
use ics.Base.{
  ℕ, zero, suc, ◌+◌, ◌*◌, ◌/◌, ◌%◌, ◌^◌, ◌<◌, ◌≤◌, ◌≡◌, refl, ◌∙◌, ap, sym, some, none, Option,
  List, [], ◌∷◌, ◌++◌, ltb, ◌==◌, if◌then◌else◌, bind, codes, length, arith, true, false,
  length-append,
}
use ics.QemuDiff.Hex.{hex_char}
use ics.QemuDiff.{
  Protocol, take, drop, nr_words, difftest_words, bytes_of, encode_bytes, decode_words, gdb_getregs,
  gdb_setregs, difftest_getregs, difftest_setregs,
}
use ics.QemuDiff.Copied.{length-take, length-drop, take-AllBelow, drop-AllBelow}
use ics.QemuDiff.Server.{EncodesHex, AllBelow, read_bytes, read_bytes-encode_bytes}

-- Two digits for each byte of each word, the lowest byte first.
abbrev pub byte_text : ℕ → List ℕ → List ℕ
byte_text b rest = hex_char (b / 16) ∷ (hex_char (b % 16) ∷ rest)

abbrev pub word_text : ℕ → List ℕ → List ℕ
word_text w rest = byte_text (w % 2 ^ 8) (
    byte_text (w / 2 ^ 8 % 2 ^ 8)
      (byte_text (w / 2 ^ 16 % 2 ^ 8) (byte_text (w / 2 ^ 24 % 2 ^ 8) rest)))

unfoldable pub register_text : List ℕ → List ℕ
register_text [] = []
register_text (w ∷ ws) = word_text w (register_text ws)

-- The words that bytes make.
unfoldable pub words_of : List ℕ → Option (List ℕ)
words_of [] = some []
words_of (a ∷ (b ∷ (c ∷ (d ∷ bs)))) =
    bind (words_of bs) (λ ws. some ((a + 2 ^ 8 * b + 2 ^ 16 * c + 2 ^ 24 * d) ∷ ws))
words_of _ = none

-- `G XX…`: the words of all registers.
unfoldable pub read_register_packet : List ℕ → Option (List ℕ)
read_register_packet [] = none
read_register_packet (c ∷ cs) = if c == b'G' then bind (read_bytes cs) words_of else none

-- `gdb_decode_hex_str` reads the digits of a word, the lowest byte first.
unfoldable pub DecodesHex : {Q : Type 0} → Protocol Q → Type 0
DecodesHex p = (w : ℕ) → w < 2 ^ 32 → p.decode_hex_str (word_text w []) ≡ w

-- The server keeps the registers `regs`: `g` is answered by their text and changes none, and a packet
-- that sets them is answered by OK.
pub record KeepsRegisters {Q : Type 0} (p : Protocol Q) (regs : Q → List ℕ) : Type 0 where
  pub text : (q : Q) → (p.recv (p.send (codes "g") q)).0 ≡ register_text (regs q)
  pub same : (q : Q) → regs (p.recv (p.send (codes "g") q)).1 ≡ regs q
  pub ok :
      (q : Q) (packet r : List ℕ)
      → read_register_packet packet ≡ some r
      → (p.recv (p.send packet q)).0 ≡ codes "OK"
  pub set :
      (q : Q) (packet r : List ℕ)
      → read_register_packet packet ≡ some r
      → regs (p.recv (p.send packet q)).1 ≡ r

pub bytes_of-AllBelow : (ws : List ℕ) → AllBelow 256 (bytes_of ws)
unfolding AllBelow bytes_of
bytes_of-AllBelow [] = tt
bytes_of-AllBelow (w ∷ ws) =
    (omega arith, (omega arith, (omega arith, (omega arith, bytes_of-AllBelow ws))))

pub words_of-bytes_of : (ws : List ℕ) → AllBelow (2 ^ 32) ws → words_of (bytes_of ws) ≡ some ws
unfolding words_of bytes_of AllBelow
words_of-bytes_of [] h = refl
words_of-bytes_of (w ∷ ws) (h, hs) =
    let whole : w % 2 ^ 8
          + 2 ^ 8 * (w / 2 ^ 8 % 2 ^ 8)
          + 2 ^ 16 * (w / 2 ^ 16 % 2 ^ 8)
          + 2 ^ 24 * (w / 2 ^ 24 % 2 ^ 8)
        ≡ w =
      omega arith in
    rw (words_of-bytes_of ws hs, whole) refl

module _ {Q : Type 0} (p : Protocol Q) (decodes : DecodesHex p) where
  decode_words-register_text :
      (ws : List ℕ) → AllBelow (2 ^ 32) ws → decode_words p (length ws) (register_text ws) ≡ some ws
  unfolding decode_words register_text AllBelow DecodesHex
  decode_words-register_text [] h = refl
  decode_words-register_text (w ∷ ws) (h, hs) =
      let enough : ltb (length (word_text w (register_text ws))) 8 ≡ false = ground arith in
      let small : w % 2 ^ 32 ≡ w = omega arith in
      rw (enough, decodes w h, decode_words-register_text ws hs, small) refl

pub append-AllBelow :
    (k : ℕ) (xs ys : List ℕ) → AllBelow k xs → AllBelow k ys → AllBelow k (xs ++ ys)
unfolding AllBelow
append-AllBelow k [] ys h g = g
append-AllBelow k (x ∷ xs) ys (h, hs) g = (h, append-AllBelow k xs ys hs g)

pub take-append : (n : ℕ) (xs ys : List ℕ) → length xs ≡ n → take n (xs ++ ys) ≡ xs
take-append zero [] ys h = refl
take-append zero (x ∷ xs) ys h = absurd (omega arith)
take-append (suc n) [] ys h = absurd (omega arith)
take-append (suc n) (x ∷ xs) ys h = ap (λ zs. x ∷ zs) (take-append n xs ys (omega arith))

module _ {Q : Type 0} (p : Protocol Q) (regs : Q → List ℕ) (encodes : EncodesHex p)
    (decodes : DecodesHex p) (keeps : KeepsRegisters p regs) where
  -- QEMU after the question for its registers.
  abbrev pub asked : Q → Q
  asked q = (p.recv (p.send (codes "g") q)).1

  pub getregs_lem :
      (q : Q)
      → length (regs q) ≡ nr_words
      → AllBelow (2 ^ 32) (regs q)
      → gdb_getregs p q ≡ some (regs q, asked q)
  unfolding gdb_getregs
  getregs_lem q l h =
      let whole : decode_words p nr_words (register_text (regs q)) ≡ some (regs q) =
        ap (λ n. decode_words p n (register_text (regs q))) (sym l)
        ∙ decode_words-register_text p decodes (regs q) h in
      rw (keeps.text q, whole) refl

  pub set_packet :
      (r : List ℕ)
      → AllBelow (2 ^ 32) r
      → read_register_packet (codes "G" ++ encode_bytes p (bytes_of r)) ≡ some r
  unfolding read_register_packet
  set_packet r h =
      rw (read_bytes-encode_bytes p encodes (bytes_of r) (bytes_of-AllBelow r))
        (words_of-bytes_of r h)

  pub setregs_lem :
      (r : List ℕ) (q : Q)
      → AllBelow (2 ^ 32) r
      → (q1 : Q) × (gdb_setregs p r q ≡ some (true, q1)) × (regs q1 ≡ r)
  unfolding gdb_setregs
  setregs_lem r q h =
      let packet = codes "G" ++ encode_bytes p (bytes_of r) in
      (
        (p.recv (p.send packet q)).1,
        rw (keeps.ok q packet r (set_packet r h)) refl,
        keeps.set q packet r (set_packet r h),
      )

  -- The registers that `difftest_setregs` leaves.
  abbrev pub merged : List ℕ → List ℕ → List ℕ
  merged r old = take difftest_words r ++ drop difftest_words old

  -- What `difftest_setregs` and then `difftest_getregs` do to a machine with registers `old`.
  abbrev pub SetAndRead : List ℕ → Q → Q → Type 0
  SetAndRead r q q1 =
      (difftest_setregs p r q ≡ some (tt, q1))
      × (regs q1 ≡ merged r (regs q))
      × ((q2 : Q) × (difftest_getregs p q1 ≡ some (take difftest_words r, q2))
          × (regs q2 ≡ regs q1))

  read_back :
      (r : List ℕ) (q q1 : Q)
      → length (regs q) ≡ nr_words
      → AllBelow (2 ^ 32) (regs q)
      → difftest_words ≤ length r
      → AllBelow (2 ^ 32) (merged r (regs q))
      → gdb_setregs p (merged r (regs q)) (asked q) ≡ some (true, q1)
      → regs q1 ≡ merged r (regs q)
      → SetAndRead r q q1
  unfolding difftest_setregs difftest_getregs
  read_back r q q1 l h size k set same =
      let front = length-take difftest_words r size in
      let back = length-drop difftest_words (regs q) in
      let joined = length-append (take difftest_words r) (drop difftest_words (regs q)) in
      let total : length (regs q1) ≡ nr_words = ap length same ∙ omega arith in
      let words : AllBelow (2 ^ 32) (regs q1) = rw same k in
      let first : take difftest_words (regs q1) ≡ take difftest_words r =
        ap (take difftest_words) same
        ∙ take-append difftest_words (take difftest_words r) (drop difftest_words (regs q)) front in
      (
        rw (getregs_lem q l h, set) refl,
        same,
        (asked q1, rw (getregs_lem q1 total words, first) refl, keeps.same q1),
      )

  -- Where the server answers `g` with the text of its 77 registers, the lowest byte of each first, and
  -- `G` with OK and the registers that the packet holds, `difftest_setregs` of at least nine words
  -- leaves the first nine of them in front of the 68 registers that QEMU had behind, and
  -- `difftest_getregs` then gives the nine words back and changes no register.
  pub difftest_getregs-difftest_setregs :
      (r : List ℕ) (q : Q)
      → length (regs q) ≡ nr_words
      → AllBelow (2 ^ 32) (regs q)
      → difftest_words ≤ length r
      → AllBelow (2 ^ 32) r
      → (q1 : Q) × SetAndRead r q q1
  difftest_getregs-difftest_setregs r q l h size k =
      let fits =
        append-AllBelow (2 ^ 32) (take difftest_words r) (drop difftest_words (regs q))
          (take-AllBelow (2 ^ 32) difftest_words r k)
          (drop-AllBelow (2 ^ 32) difftest_words (regs q) h) in
      let (q1, set, same) = setregs_lem (merged r (regs q)) (asked q) fits in
      (q1, read_back r q q1 l h size fits set same)
