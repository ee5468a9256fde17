-- ===== src/GenExpr/Session.antt =====
-- What a run of the generator prints, from the numbers that rand() gives.
use ics.Base.{
  ℕ, zero, suc, ◌+◌, ◌<◌, ◌≤◌, ◌^◌, ◌%◌, ◌≡◌, refl, false, true, none, some, List, [], ◌∷◌, ltb,
  length, arith, pos, pattern_of, lt→ltb,
}
use ics.GenExpr.{Gen, Host, buf_size, gen_rand_expr, gen_short, printed, report, main_loop}
use ics.GenExpr.Draws.{draws, calls, Gives, gen_rand_expr-draws}
use ics.GenExpr.Trees.{Tree, spell, Small}

-- From the `i`-th number on, rand() gives the draws of the trees that one turn of main writes, all but
-- the last too long to be kept: `k` trees, of which `t` is the last, up to the `j`-th number.
pub data Round (host : Host) (depth : ℕ) : ℕ → ℕ → Tree → ℕ → Type 0 where
  kept :
      {i : ℕ} {t : Tree}
      → Small t
      → calls t ≤ depth
      → length (spell t) ≤ 64536
      → Gives host.rand i (draws t)
      → Round host depth i 1 t (i + length (draws t))
  again :
      {i k j : ℕ} {t : Tree} (long : Tree)
      → Small long
      → calls long ≤ depth
      → 64536 < length (spell long)
      → length (spell long) < buf_size
      → Gives host.rand i (draws long)
      → Round host depth (i + length (draws long)) k t j
      → Round host depth i (suc k) t j

-- Rounds one after another, with the lines of those whose text compiles; each program prints a number
-- that is an int.
pub data Session (host : Host) (depth turns : ℕ) : ℕ → ℕ → List (ℕ × List ℕ) → ℕ → Type 0 where
  done : {i : ℕ} → Session host depth turns i 0 [] i
  rejected :
      {i k j n l : ℕ} {t : Tree} {lines : List (ℕ × List ℕ)}
      → Round host depth i k t j
      → k ≤ turns
      → host.compile_and_run (spell t) ≡ none
      → Session host depth turns j n lines l
      → Session host depth turns i (suc n) lines l
  answered :
      {i k j n l output : ℕ} {t : Tree} {lines : List (ℕ × List ℕ)}
      → Round host depth i k t j
      → k ≤ turns
      → host.compile_and_run (spell t) ≡ some (some output)
      → output < 2 ^ 31
      → Session host depth turns j n lines l
      → Session host depth turns i (suc n) ((output, spell t) ∷ lines) l

module _ (host : Host) where
  from_empty :
      (depth : ℕ) (g : Gen)
      → gen_rand_expr host depth true g ≡ gen_rand_expr host depth false (record g { buf = [] })
  unfolding gen_rand_expr
  from_empty zero g = refl
  from_empty (suc depth) g = refl

  one_tree :
      (depth : ℕ) (t : Tree) (g : Gen)
      → Small t
      → calls t ≤ depth
      → Gives host.rand g.drawn (draws t)
      → length (spell t) < buf_size
      → gen_rand_expr host depth true g
        ≡ some (tt, record { buf = spell t; drawn = g.drawn + length (draws t) })
  one_tree depth t g s c d h =
      rw (from_empty depth g)
        (gen_rand_expr-draws host t depth (record g { buf = [] }) s c d (omega (arith, h)))

  gen_short-Round :
      {depth : ℕ} (turns : ℕ) {i k : ℕ} {t : Tree} {j : ℕ} (buf : List ℕ)
      → Round host depth i k t j
      → k ≤ turns
      → gen_short host depth turns (record { buf = buf; drawn = i })
        ≡ some (tt, record { buf = spell t; drawn = j })
  unfolding gen_short
  gen_short-Round zero buf (kept s c h d) fits = absurd (omega arith)
  gen_short-Round zero buf (again long s c h h' d r) fits = absurd (omega arith)
  gen_short-Round {depth} (suc turns) {t = t} buf (kept {i} s c h d) fits =
      let short : ltb 64536 (length (spell t)) ≡ false = ground arith in
      rw (one_tree depth t (record { buf = buf; drawn = i }) s c d (omega arith), short) refl
  gen_short-Round {depth} (suc turns) buf (again {i} long s c h h' d r) fits =
      rw
        (
          one_tree depth long (record { buf = buf; drawn = i }) s c d h',
          lt→ltb 64536 (length (spell long)) h,
        )
        (gen_short-Round turns (spell long) r (omega arith))

  -- Where rand() gives the draws of trees with numbers below 9999 whose texts fit in the buffer, each
  -- text that is kept either does not compile or has a program that prints a number below 2^31, which
  -- fscanf("%d") reads as itself, and the fuel covers each tree's calls inside each other and each
  -- round's trees, `main` called for that many rounds returns. It prints, for each round in order, the
  -- number that the program printed and the text of the first tree of at most 64536 bytes, and nothing
  -- where that text does not compile; it draws no other numbers.
  pub main_loop-Session :
      {depth turns i n j : ℕ} {lines : List (ℕ × List ℕ)} (buf : List ℕ)
      → ((output : ℕ) → output < 2 ^ 31 → host.scan_d output ≡ pos output)
      → Session host depth turns i n lines j
      → (g : Gen) × (main_loop host depth turns n (record { buf = buf; drawn = i })
          ≡ some (lines, g))
        × (g.drawn ≡ j)
  unfolding main_loop report printed pattern_of
  main_loop-Session buf scans done = (_, refl, refl)
  main_loop-Session {turns = turns} buf scans (rejected {t = t} r fits answer s) =
      let (g, rest, drawn) = main_loop-Session (spell t) scans s in
      (g, rw (gen_short-Round turns [] r fits, answer, rest) refl, drawn)
  main_loop-Session {turns = turns} buf scans
        (answered {output = output} {t = t} r fits answer small s) =
      let (g, rest, drawn) = main_loop-Session (spell t) scans s in
      let same : output % 2 ^ 32 ≡ output = omega arith in
      (g, rw (gen_short-Round turns [] r fits, answer, scans output small, rest, same) refl, drawn)
