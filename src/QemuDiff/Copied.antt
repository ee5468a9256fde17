-- ===== src/QemuDiff/Copied.antt =====
-- Copying memory to QEMU, in pieces.
use ics.Base.{
  ℕ, zero, suc, ◌+◌, ◌-◌, ◌%◌, ◌^◌, ◌<◌, ◌≤◌, ◌≡◌, refl, ◌∙◌, ap, sym, Bool, true, false, some,
  Option, List, [], ◌∷◌, ◌++◌, ltb, leb, length, arith, pos, Bool-cases, inl, inr,
}
use ics.QemuDiff.{
  Protocol, mtu, take, drop, gdb_memcpy_to_qemu_small, memcpy_pieces, gdb_memcpy_to_qemu,
  memcpy_packet,
}
use ics.QemuDiff.Server.{
  EncodesHex, AllBelow, read-memcpy_packet, Stores, stored, stored_same, stored-append,
}

take-drop : (n : ℕ) (xs : List ℕ) → take n xs ++ drop n xs ≡ xs
take-drop zero xs = refl
take-drop (suc n) [] = refl
take-drop (suc n) (x ∷ xs) = ap (λ ys. x ∷ ys) (take-drop n xs)

pub take-whole : (n : ℕ) (xs : List ℕ) → length xs ≡ n → take n xs ≡ xs
take-whole zero [] h = refl
take-whole zero (x ∷ xs) h = absurd (omega arith)
take-whole (suc n) [] h = absurd (omega arith)
take-whole (suc n) (x ∷ xs) h = ap (λ ys. x ∷ ys) (take-whole n xs (omega arith))

pub length-take : (n : ℕ) (xs : List ℕ) → n ≤ length xs → length (take n xs) ≡ n
length-take zero xs h = refl
length-take (suc n) [] h = absurd (omega arith)
length-take (suc n) (x ∷ xs) h = ap suc (length-take n xs (omega arith))

pub length-drop : (n : ℕ) (xs : List ℕ) → length (drop n xs) ≡ length xs - n
length-drop zero xs = omega arith
length-drop (suc n) [] = omega arith
length-drop (suc n) (x ∷ xs) = omega (arith, length-drop n xs)

pub take-AllBelow : (k n : ℕ) (xs : List ℕ) → AllBelow k xs → AllBelow k (take n xs)
unfolding AllBelow
take-AllBelow k zero xs h = tt
take-AllBelow k (suc n) [] h = tt
take-AllBelow k (suc n) (x ∷ xs) (h, hs) = (h, take-AllBelow k n xs hs)

pub drop-AllBelow : (k n : ℕ) (xs : List ℕ) → AllBelow k xs → AllBelow k (drop n xs)
unfolding AllBelow
drop-AllBelow k zero xs h = h
drop-AllBelow k (suc n) [] h = tt
drop-AllBelow k (suc n) (x ∷ xs) (h, hs) = drop-AllBelow k n xs hs

module _ {Q : Type 0} (p : Protocol Q) (memory : Q → ℕ → ℕ) (encodes : EncodesHex p)
    (stores : Stores p memory) where
  -- A copy that is told to have been made, and was.
  abbrev Copied : Option (Bool × Q) → ℕ → List ℕ → Q → Type 0
  Copied o dest src q =
      (q' : Q) × (o ≡ some (true, q')) × ((a : ℕ) → memory q' a ≡ stored src dest (memory q) a)

  small_copy :
      (dest : ℕ) (src : List ℕ) (q : Q)
      → dest < 2 ^ 32
      → length src < 2 ^ 32
      → AllBelow 256 src
      → Copied (gdb_memcpy_to_qemu_small p dest src q) dest src q
  unfolding gdb_memcpy_to_qemu_small Stores
  small_copy dest src q d l h =
      let packet = memcpy_packet p dest src in
      let (ok, done) = stores q packet dest src (read-memcpy_packet p encodes dest src d l h) in
      ((p.recv (p.send packet q)).1, rw ok refl, done)

  one_piece :
      (turns dest : ℕ) (src : List ℕ) (q q1 q2 : Q)
      → ltb mtu (length src) ≡ true
      → gdb_memcpy_to_qemu_small p dest (take mtu src) q ≡ some (true, q1)
      → memcpy_pieces p turns ((dest + mtu) % 2 ^ 32) (drop mtu src) true q1 ≡ some (true, q2)
      → memcpy_pieces p (suc turns) dest src true q ≡ some (true, q2)
  unfolding memcpy_pieces
  one_piece turns dest src q q1 q2 long e f = rw (long, e, f) refl

  -- The bytes of the first piece, and then those of the others.
  two_pieces :
      (dest : ℕ) (src : List ℕ) (q q1 q2 : Q)
      → mtu ≤ length src
      → ((a : ℕ) → memory q1 a ≡ stored (take mtu src) dest (memory q) a)
      → ((a : ℕ) → memory q2 a ≡ stored (drop mtu src) (dest + mtu) (memory q1) a)
      → (a : ℕ) → memory q2 a ≡ stored src dest (memory q) a
  two_pieces dest src q q1 q2 enough m n a =
      let size : length (take mtu src) ≡ mtu = length-take mtu src enough in
      n a
      ∙ stored_same (drop mtu src) (dest + mtu) a (memory q1)
          (stored (take mtu src) dest (memory q)) (m a)
      ∙ ap (λ k. stored (drop mtu src) (dest + k) (stored (take mtu src) dest (memory q)) a)
          (sym size)
      ∙ sym (stored-append (take mtu src) (drop mtu src) dest a (memory q))
      ∙ ap (λ bs. stored bs dest (memory q) a) (take-drop mtu src)

  first_piece :
      (turns dest : ℕ) (src : List ℕ) (q : Q)
      → ltb mtu (length src) ≡ true
      → dest + length src < 2 ^ 32
      → Copied (gdb_memcpy_to_qemu_small p dest (take mtu src) q) dest (take mtu src) q
      → ((q1 : Q)
          → Copied
              (memcpy_pieces p turns (dest + mtu) (drop mtu src) true q1)
              (dest + mtu)
              (drop mtu src)
              q1)
      → Copied (memcpy_pieces p (suc turns) dest src true q) dest src q
  first_piece turns dest src q long d (q1, e, m) later = others (later q1)
    where
      others :
          Copied
            (memcpy_pieces p turns (dest + mtu) (drop mtu src) true q1)
            (dest + mtu)
            (drop mtu src)
            q1
          → Copied (memcpy_pieces p (suc turns) dest src true q) dest src q
      others (q2, f, n) =
          let enough : mtu ≤ length src = ground arith in
          let on : (dest + mtu) % 2 ^ 32 ≡ dest + mtu = omega arith in
          (
            q2,
            one_piece turns dest src q q1 q2 long e (rw on f),
            two_pieces dest src q q1 q2 enough m n,
          )

  last_piece :
      (turns dest : ℕ) (src : List ℕ) (q : Q)
      → ltb mtu (length src) ≡ false
      → Copied (gdb_memcpy_to_qemu_small p dest src q) dest src q
      → Copied (memcpy_pieces p (suc turns) dest src true q) dest src q
  unfolding memcpy_pieces
  last_piece turns dest src q last (q1, e, m) = (q1, rw (last, e) refl, m)

  pieces_copy :
      (turns dest : ℕ) (src : List ℕ) (q : Q)
      → length src < turns
      → dest + length src < 2 ^ 32
      → AllBelow 256 src
      → Copied (memcpy_pieces p turns dest src true q) dest src q
  pieces_copy zero dest src q t d h = absurd (omega arith)
  pieces_copy (suc turns) dest src q t d h = elim (Bool-cases (ltb mtu (length src))) [
    | inr last ↦
        last_piece turns dest src q last (small_copy dest src q (omega arith) (omega arith) h)
    | inl long ↦
        let enough : mtu ≤ length src = ground arith in
        let size = length-take mtu src enough in
        let left = length-drop mtu src in
        first_piece turns dest src q long d
          (small_copy dest (take mtu src) q (omega arith) (omega arith)
            (take-AllBelow 256 mtu src h))
          (λ q1.
            pieces_copy turns (dest + mtu) (drop mtu src) q1 (omega arith) (omega arith)
              (drop-AllBelow 256 mtu src h))
  ]

  -- Where the server stores the bytes of a memory packet and answers OK, and `hex_encode` gives hex
  -- digits, `gdb_memcpy_to_qemu` of a number of bytes that is an int and not negative, and that end
  -- below 2^32, returns true, and leaves them in QEMU's memory from the destination on, with every
  -- other byte as it was.
  pub gdb_memcpy_to_qemu-stored :
      (dest : ℕ) (src : List ℕ) (len : ℕ) (q : Q)
      → len < 2 ^ 31
      → len ≤ length src
      → dest + len < 2 ^ 32
      → AllBelow 256 src
      → (q' : Q) × (gdb_memcpy_to_qemu p dest src (pos len) q ≡ some (true, q'))
        × ((a : ℕ) → memory q' a ≡ stored (take len src) dest (memory q) a)
  unfolding gdb_memcpy_to_qemu
  gdb_memcpy_to_qemu-stored dest src len q fits l d h =
      let size = length-take len src l in
      let (q', ran, done) =
        pieces_copy (suc len) dest (take len src) q (omega arith) (omega arith)
          (take-AllBelow 256 len src h) in
      let enough : leb len (length src) ≡ true = ground arith in (q', rw (enough) ran, done)
