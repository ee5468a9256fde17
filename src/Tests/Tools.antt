-- ===== src/Tests/Tools.antt =====
-- The tools at concrete hosts: a random stream for gen-expr, and two servers for qemu-diff.
use ics.Base.{
  ℕ, zero, suc, ◌^◌, ◌<◌, ◌≡◌, refl, ap, true, false, Option, none, some, List, [], ◌∷◌, bind,
  codes, length, arith, pos, get_elem?,
}
use ics.Monitor.Expr.Tokens.{atoi}
use ics.GenExpr.{Gen, Host, gen_rand_expr, main_loop}
use ics.GenExpr.Decimal.{print_u, print_digits, atoi-print_u}
use ics.GenExpr.Trees.{plus, num, paren, bin, Tree, spell, Small}
use ics.GenExpr.Draws.{draws, calls, Gives, wrote, gen_rand_expr-draws}
use ics.GenExpr.Session.{kept, answered, done, main_loop-Session}
use ics.QemuDiff.{Protocol, gdb_memcpy_to_qemu, bytes_of, encode_bytes}
use ics.QemuDiff.Hex.{hex_char}
use ics.QemuDiff.Server.{
  EncodesHex, Stores, stored, AllBelow, read_memory_packet, read_bytes, read_bytes-encode_bytes,
}
use ics.QemuDiff.Copied.{gdb_memcpy_to_qemu-stored}
use ics.QemuDiff.Registers.{
  KeepsRegisters, DecodesHex, read_register_packet, register_text, words_of, words_of-bytes_of,
  bytes_of-AllBelow, SetAndRead, difftest_getregs-difftest_setregs,
}

-- (7)+2: case 2; case 1, case 0, 7; the operator +; case 0, 2.
abbrev pub tree : Tree
tree = bin plus (paren (num 7)) (num 2)

abbrev nth : List ℕ → ℕ → ℕ
nth xs i = elim (get_elem? xs i) [ none ↦ 0 | some x ↦ x ]

abbrev host : Host
host = record {
  rand = nth (2 ∷ (1 ∷ (0 ∷ (7 ∷ (0 ∷ (0 ∷ (2 ∷ [])))))));
  compile_and_run = λ text. some (some 9);
  scan_d = λ output. pos output;
}

abbrev empty_gen : Gen
empty_gen = record { buf = []; drawn = 0 }

gen_rand_expr-draws_example :
    gen_rand_expr host 3 false empty_gen
    ≡ some (tt, wrote (spell tree) (length (draws tree)) empty_gen)
unfolding Gives draws Small calls spell print_u
gen_rand_expr-draws_example =
    gen_rand_expr-draws host tree 3 empty_gen (omega arith, omega arith) (omega arith)
      (refl, (refl, (refl, (refl, (refl, (refl, (refl, tt))))))) (omega arith)

main_loop-Session_example :
    (g : Gen) × (main_loop host 3 1 1 empty_gen ≡ some ((9, codes "(7)+2") ∷ [], g)) × (g.drawn ≡ 7)
unfolding Gives draws Small calls spell print_u print_digits
main_loop-Session_example =
    main_loop-Session host [] (λ output h. refl)
      (answered
        (kept {t = tree} (omega arith, omega arith) (omega arith) (omega arith)
          (refl, (refl, (refl, (refl, (refl, (refl, (refl, tt))))))))
        (omega arith) refl (omega arith) done)

reads_back : atoi (print_u 9998) ≡ some 9998
reads_back = atoi-print_u 9998 (omega arith)

-- A server that has only memory.
abbrev store_packet : Option (ℕ × List ℕ) → (ℕ → ℕ) → ℕ → ℕ
store_packet none mem = mem
store_packet (some (addr, bytes)) mem = stored bytes addr mem

abbrev memory_server : Protocol (ℕ → ℕ)
memory_server = record {
  send = λ packet mem. store_packet (read_memory_packet packet) mem;
  recv = λ mem. (codes "OK", mem);
  hex_encode = hex_char;
  decode_hex_str = λ text. 0;
}

memory_server-Stores : Stores memory_server (λ mem. mem)
unfolding Stores
memory_server-Stores q packet addr bytes e = (refl, λ a. ap (λ o. store_packet o q a) e)

hex_char-EncodesHex : EncodesHex memory_server
unfolding EncodesHex
hex_char-EncodesHex d h = refl

gdb_memcpy_to_qemu-stored_example :
    (q : ℕ → ℕ) × (gdb_memcpy_to_qemu memory_server 0x7c00 (0xfa ∷ (0x31 ∷ [])) (pos 2) (λ a. 0)
      ≡ some (true, q))
    × ((a : ℕ) → q a ≡ stored (0xfa ∷ (0x31 ∷ [])) 0x7c00 (λ a. 0) a)
unfolding AllBelow
gdb_memcpy_to_qemu-stored_example =
    gdb_memcpy_to_qemu-stored memory_server (λ mem. mem) hex_char-EncodesHex memory_server-Stores
      0x7c00 (0xfa ∷ (0x31 ∷ [])) 2 (λ a. 0) (omega arith) (omega arith) (omega arith)
      (omega arith, (omega arith, tt))

-- A server that has only registers: what it will answer, and the words.
abbrev one_word : Option (List ℕ) → ℕ
one_word (some (w ∷ [])) = w
one_word _ = 0

abbrev set_words : Option (List ℕ) → List ℕ × List ℕ → List ℕ × List ℕ
set_words none (reply, words) = (register_text words, words)
set_words (some r) (reply, words) = (codes "OK", r)

abbrev register_server : Protocol (List ℕ × List ℕ)
register_server = record {
  send = λ packet q. set_words (read_register_packet packet) q;
  recv = λ (reply, words). (reply, (reply, words));
  hex_encode = hex_char;
  decode_hex_str = λ text. one_word (bind (read_bytes text) words_of);
}

register_server-KeepsRegisters : KeepsRegisters register_server (λ (reply, words). words)
unfolding read_register_packet
register_server-KeepsRegisters = record {
  text = λ q. refl;
  same = λ q. refl;
  ok = λ q packet r e. ap (λ o. (set_words o q).0) e;
  set = λ q packet r e. ap (λ o. (set_words o q).1) e;
}

register_server-EncodesHex : EncodesHex register_server
unfolding EncodesHex
register_server-EncodesHex d h = refl

register_server-DecodesHex : DecodesHex register_server
unfolding DecodesHex encode_bytes bytes_of AllBelow
register_server-DecodesHex w h =
    let read =
      read_bytes-encode_bytes register_server register_server-EncodesHex (bytes_of (w ∷ []))
        (bytes_of-AllBelow (w ∷ [])) in
    rw (read, words_of-bytes_of (w ∷ []) (h, tt)) refl

abbrev words : ℕ → List ℕ
words zero = []
words (suc n) = n ∷ words n

words-AllBelow : (n k : ℕ) → n < 2 ^ 32 → AllBelow (2 ^ 32) (words n)
unfolding AllBelow
words-AllBelow zero k h = tt
words-AllBelow (suc n) k h = (omega arith, words-AllBelow n k (omega arith))

difftest_getregs-difftest_setregs_example :
    (q1 : List ℕ × List ℕ) × SetAndRead register_server
      (λ (reply, words). words)
      register_server-EncodesHex
      register_server-DecodesHex
      register_server-KeepsRegisters
      (words 9)
      ([], words 77)
      q1
difftest_getregs-difftest_setregs_example =
    difftest_getregs-difftest_setregs register_server (λ (reply, words). words)
      register_server-EncodesHex register_server-DecodesHex register_server-KeepsRegisters (words 9)
      ([], words 77) refl (words-AllBelow 77 0 (omega arith)) (omega arith)
      (words-AllBelow 9 0 (omega arith))
