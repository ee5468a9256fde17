-- ===== src/GenExpr/Printed.antt =====
-- The lines that the generator prints.
use ics.Base.{
  ℕ, zero, suc, ◌≤◌, ◌≡◌, refl, ◌∙◌, ap, true, Option, none, some, List, [], ◌∷◌, ◌++◌, ltb,
  bind-eq-some, length, arith, pattern_of, Bool-cases, inl, inr,
}
use mathlib.Core.Option.{some-injective, none-ne-some}
use ics.GenExpr.{Gen, Host, gen_rand_expr, gen_short, printed, report, main_loop}
use ics.GenExpr.Trees.{IsSpelling, Adds, gen_rand_expr-Adds}

-- A text that the compiler is given.
abbrev IsProgram : List ℕ → Type 0
IsProgram text = IsSpelling text × (length text ≤ 64536)

-- Each line has the text of a tree behind the number that was read from its program.
pub data Lines (host : Host) : List (ℕ × List ℕ) → Type 0 where
  nil : Lines host []
  cons :
      {output : ℕ} {text : List ℕ} {lines : List (ℕ × List ℕ)}
      → IsProgram text
      → host.compile_and_run text ≡ some (some output)
      → Lines host lines
      → Lines host ((pattern_of 32 (host.scan_d output), text) ∷ lines)

module _ (host : Host) where
  added :
      (o : Option (Unit {0} × Gen)) {g : Gen}
      → Adds IsSpelling [] o
      → o ≡ some (tt, g)
      → IsSpelling g.buf
  unfolding Adds
  added o {g} h e =
      let k : Adds IsSpelling [] (some (tt, g)) = rw e at h in (k.2.0, k.1 ∙ k.2.1, k.2.2)

  gen_short-IsProgram :
      (depth turns : ℕ) (g g' : Gen)
      → gen_short host depth turns g ≡ some (tt, g')
      → IsProgram g'.buf
  unfolding gen_short
  gen_short-IsProgram depth zero g g' e = absurd (none-ne-some _ e)
  gen_short-IsProgram depth (suc turns) g g' e =
      let ((t, g1), a, b) = bind-eq-some (gen_rand_expr host depth true g) _ e in
      elim (Bool-cases (ltb 64536 (length g1.buf))) [
        | inl long ↦ gen_short-IsProgram depth turns g1 g' (rw long at b)
        | inr short ↦
            let same : (tt, g1) ≡ (tt, g') = some-injective _ _ (rw short at b) in
            let spelled =
              added (gen_rand_expr host depth true g) (gen_rand_expr-Adds host depth true g) a in
            rw (← ap (λ p. p.1.buf) same) (spelled, ground arith)
      ]

  printed-Lines :
      (text : List ℕ) (answer : Option (Option ℕ)) {line lines : List (ℕ × List ℕ)}
      → IsProgram text
      → host.compile_and_run text ≡ answer
      → printed host.scan_d text answer ≡ some line
      → Lines host lines
      → Lines host (line ++ lines)
  unfolding printed
  printed-Lines text none {line} {lines} p a e ls = rw (← some-injective [] line e) ls
  printed-Lines text (some none) p a e ls = absurd (none-ne-some _ e)
  printed-Lines text (some (some output)) {line} {lines} p a e ls =
      rw (← some-injective ((pattern_of 32 (host.scan_d output), text) ∷ []) line e) (cons p a ls)

  -- Whatever rand() gives and the compiler says, each line that main prints has the text of an
  -- expression tree whose numbers are below 9999, of at most 64536 bytes, behind the number that
  -- was read from what the compiled program of that text printed.
  pub main_loop-Lines :
      (depth turns loop : ℕ) (g : Gen) {lines : List (ℕ × List ℕ)} {g' : Gen}
      → main_loop host depth turns loop g ≡ some (lines, g')
      → Lines host lines
  unfolding main_loop report
  main_loop-Lines depth turns zero g e = rw (← ap (λ p. p.0) (some-injective _ _ e)) nil
  main_loop-Lines depth turns (suc loop) g e =
      let ((t, g1), a, b) = bind-eq-some (gen_short host depth turns (record g { buf = [] })) _ e in
      let (line, c, d) = bind-eq-some (report host g1.buf) _ b in
      let ((more, g2), f, h) = bind-eq-some (main_loop host depth turns loop g1) _ d in
      rw (← ap (λ p. p.0) (some-injective _ _ h)) (
        printed-Lines g1.buf _ (gen_short-IsProgram depth turns _ g1 a) refl c
          (main_loop-Lines depth turns loop g1 f))
