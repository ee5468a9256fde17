-- ===== src/Monitor/Run/Watched.antt =====
-- What the check of the watchpoints does, from the list of the used nodes.
use ics.Base.{
  ℕ, zero, suc, ◌≤◌, ◌≡◌, refl, ◌∙◌, sym, ap, Bool, Bool-cases, inl, inr, true, false, ◌||◌, not,
  Option, some, List, [], ◌∷◌, length, arith, bind-eq-some, ◌==◌, if◌then◌else◌,
}
use mathlib.Core.Option.{none-ne-some, some-injective}
use ics.Machine.{nemu_stop}
use ics.Monitor.Expr.Lexer.{expr, ExprResult}
use ics.Monitor.Expr.Frame.{SameButBus, later, expr-frame}
use ics.Monitor.Watchpoint.{nr_wp}
use ics.Monitor.Watchpoint.Chain.{Chain, count}
use ics.Monitor.Run.{Monitor, Setup, run_state, check_watchpoints, watch, store_value, stop_if}

-- Some node of the list has another value than before.
abbrev pub any_changed : List ℕ → (ℕ → ℕ) → (ℕ → ℕ) → Bool
any_changed [] old new = false
any_changed (x ∷ xs) old new = not (new x == old x) || any_changed xs old new

any_changed-before :
    (xs : List ℕ) (old old' new : ℕ → ℕ)
    → ((i : ℕ) → 1 ≤ count i xs → old i ≡ old' i)
    → any_changed xs old new ≡ any_changed xs old' new
any_changed-before [] old old' new h = refl
any_changed-before (x ∷ xs) old old' new h =
    rw (h x (ground arith), any_changed-before xs old old' new (λ i k. h i (omega (arith, k)))) refl

any_changed-agree :
    (xs : List ℕ) (old new new' : ℕ → ℕ)
    → ((i : ℕ) → 1 ≤ count i xs → new i ≡ new' i)
    → any_changed xs old new ≡ any_changed xs old new'
any_changed-agree [] old new new' h = refl
any_changed-agree (x ∷ xs) old new new' h =
    rw (h x (ground arith), any_changed-agree xs old new new' (λ i k. h i (omega (arith, k)))) refl

-- What a pass over the nodes `xs` leaves of `s`, and what it reports.
pub record Checked (xs : List ℕ) (changed : Bool) (s : Monitor) (r : Bool × Monitor) : Type 0 where
  pub pool : r.1.pool ≡ s.pool
  pub outside : (i : ℕ) → count i xs ≡ 0 → r.1.value i ≡ s.value i
  pub reported : r.0 ≡ (changed || any_changed xs s.value r.1.value)
  pub frame : SameButBus s.machine r.1.machine

nil-Checked :
    (changed : Bool) (s : Monitor) (r : Bool × Monitor) → (changed, s) ≡ r → Checked [] changed s r
nil-Checked changed s r h = rw (sym h) (record {
  pool = refl;
  outside = λ i e. refl;
  reported = or_false changed;
  frame = record { same = refl };
})
  where
    or_false : (b : Bool) → b ≡ (b || false)
    or_false true = refl
    or_false false = refl

or_assoc : (a b c : Bool) → ((a || b) || c) ≡ (a || (b || c))
or_assoc true b c = refl
or_assoc false b c = refl

check-Checked :
    (e : Setup) (n : ℕ) (xs : List ℕ) (p : Option ℕ) (changed : Bool) (s : Monitor)
    (r : Bool × Monitor)
    → Chain s.pool.next p xs
    → ((i : ℕ) → count i xs ≤ 1)
    → check_watchpoints e n p changed s ≡ some r
    → Checked xs changed s r
unfolding check_watchpoints Chain
check-Checked e n [] p changed s r c once h =
    nil-Checked changed s r (some-injective (changed, s) r (rw c at h))
check-Checked e zero (x ∷ xs) p changed s r c once h = absurd (none-ne-some _ (rw (c.0) at h))
check-Checked e (suc n) (x ∷ xs) p changed s r c once h =
    let (v, found, rest) =
      bind-eq-some (expr e.regexec (s.expression x) true s.array s.machine) _ (rw (c.0) at h) in
    let s1 = store_value s x v in
    let alone : count x xs ≡ 0 = ground (arith, once x) in
    let after =
      check-Checked e n xs (s.pool.next x) (changed || not (v.value == s.value x)) s1 r c.1
        (λ i. omega (arith, once i)) rest in
    let here : r.1.value x ≡ v.value = after.outside x alone ∙ ground arith in
    let others : any_changed xs s1.value r.1.value ≡ any_changed xs s.value r.1.value =
      any_changed-before xs s1.value s.value r.1.value (λ i k. ground (arith, alone)) in
    record {
      pool = after.pool;
      outside = λ i out. after.outside i (ground (arith, out)) ∙ ground (arith, out);
      reported =
          after.reported
          ∙ or_assoc changed (not (v.value == s.value x)) (any_changed xs s1.value r.1.value)
          ∙ rw (here, others) refl;
      frame =
          later (expr-frame e.regexec (s.expression x) true s.array s.machine v found) after.frame;
    }

-- `expr` gives the expressions of the nodes `xs` the values `want` under an invariant, which storing
-- them keeps.
abbrev pub HaveValues : Setup → (Monitor → Type 0) → (ℕ → ℕ) → List ℕ → Type 0
HaveValues e Inv want xs =
    (u : Monitor) (x : ℕ)
    → Inv u
    → 1 ≤ count x xs
    → (v : ExprResult) × (expr e.regexec (u.expression x) true u.array u.machine ≡ some v)
      × (v.value ≡ want x)
      × Inv (store_value u x v)

-- What the check of a turn does to `s`, whose used nodes are `xs`, with the values `want`.
pub record WatchedBy (xs : List ℕ) (want : ℕ → ℕ) (s t : Monitor) : Type 0 where
  pub values : (x : ℕ) → 1 ≤ count x xs → t.value x ≡ want x
  pub state : run_state t ≡ (if any_changed xs s.value want then nemu_stop else run_state s)
  pub cpu : t.machine.cpu ≡ s.machine.cpu
  pub pool : t.pool ≡ s.pool
  pub outside : (i : ℕ) → count i xs ≡ 0 → t.value i ≡ s.value i

stopped-WatchedBy :
    (xs : List ℕ) (want : ℕ → ℕ) (s : Monitor) (r : Bool × Monitor)
    → Checked xs false s r
    → ((x : ℕ) → 1 ≤ count x xs → r.1.value x ≡ want x)
    → WatchedBy xs want s (stop_if r.0 r.1)
stopped-WatchedBy xs want s (true, u) k has =
    let same = any_changed-agree xs s.value u.value want has in
    record {
      values = has;
      state = rw (sym (k.reported ∙ same)) refl;
      cpu = ap (λ m. m.cpu) k.frame.same;
      pool = k.pool;
      outside = k.outside;
    }
stopped-WatchedBy xs want s (false, u) k has =
    let same = any_changed-agree xs s.value u.value want has in
    record {
      values = has;
      state = rw (sym (k.reported ∙ same)) (ap (λ m. m.nemu_state.state) k.frame.same);
      cpu = ap (λ m. m.cpu) k.frame.same;
      pool = k.pool;
      outside = k.outside;
    }

-- Every node gets its value: what `expr` gives for it is not overwritten.
check-values :
    (e : Setup) (Inv : Monitor → Type 0) (want : ℕ → ℕ) (n : ℕ) (xs : List ℕ) (p : Option ℕ)
    (changed : Bool) (s : Monitor) (r : Bool × Monitor)
    → HaveValues e Inv want xs
    → Inv s
    → Chain s.pool.next p xs
    → ((i : ℕ) → count i xs ≤ 1)
    → check_watchpoints e n p changed s ≡ some r
    → (y : ℕ) → 1 ≤ count y xs
    → r.1.value y ≡ want y
unfolding check_watchpoints Chain
check-values e Inv want n [] p changed s r keep i c once h y k = absurd (omega (arith, k))
check-values e Inv want zero (x ∷ xs) p changed s r keep i c once h y k =
    absurd (none-ne-some _ (rw (c.0) at h))
check-values e Inv want (suc n) (x ∷ xs) p changed s r keep i c once h y k =
    let (v, found, wanted, next) = keep s x i (ground arith) in
    let rest : check_watchpoints e n (s.pool.next x) (changed || not (v.value == s.value x))
          (store_value s x v)
        ≡ some r =
      rw (c.0, found) at h in
    let once' : (j : ℕ) → count j xs ≤ 1 = λ j. omega (arith, once j) in
    elim (Bool-cases (x == y)) [
      | inl here ↦
          (let same : x ≡ y = ground arith in
            let alone : count y xs ≡ 0 = ground (arith, once y) in
            (check-Checked e n xs (s.pool.next x) _ (store_value s x v) r c.1 once' rest).outside y
              alone
            ∙ rw (← same) (ground (arith, wanted)))
      | inr later ↦
          check-values e Inv want n xs (s.pool.next x) _ (store_value s x v) r
            (λ u z j q. keep u z j (omega (arith, q))) next c.1 once' rest y (ground (arith, k))
    ]

-- Where the expressions of the nodes have values, the pass returns: the fuel covers the list.
check-returns :
    (e : Setup) (Inv : Monitor → Type 0) (want : ℕ → ℕ) (n : ℕ) (xs : List ℕ) (p : Option ℕ)
    (changed : Bool) (s : Monitor)
    → HaveValues e Inv want xs
    → Inv s
    → Chain s.pool.next p xs
    → length xs ≤ n
    → (r : Bool × Monitor) × (check_watchpoints e n p changed s ≡ some r)
unfolding check_watchpoints Chain
check-returns e Inv want n [] p changed s keep i c fits = ((changed, s), rw c refl)
check-returns e Inv want zero (x ∷ xs) p changed s keep i c fits = absurd (omega arith)
check-returns e Inv want (suc n) (x ∷ xs) p changed s keep i c fits =
    let (v, found, wanted, next) = keep s x i (ground arith) in
    let (r, rest) =
      check-returns e Inv want n xs (s.pool.next x) (changed || not (v.value == s.value x))
        (store_value s x v) (λ u y j k. keep u y j (omega (arith, k))) next c.1 (omega arith) in
    (r, rw (c.0, found) rest)

watch_result :
    (e : Setup) (s : Monitor) (r : Bool × Monitor)
    → e.debug ≡ true
    → check_watchpoints e nr_wp s.pool.head false s ≡ some r
    → watch e s ≡ some (stop_if r.0 r.1)
unfolding watch
watch_result e s r debug checked = rw (debug, checked) refl

-- In a DEBUG build, where `expr` gives the expressions of the used watchpoints the values `want` under
-- an invariant that storing them keeps, the check of a turn returns, and stores these values. It stops
-- the machine if one of them is not the value that the watchpoint had, and leaves its run state if all
-- are; it leaves the processor, the pool and the values of the other nodes.
pub watch-WatchedBy :
    (e : Setup) (Inv : Monitor → Type 0) (want : ℕ → ℕ) (xs : List ℕ) (s : Monitor)
    → e.debug ≡ true
    → Chain s.pool.next s.pool.head xs
    → ((i : ℕ) → count i xs ≤ 1)
    → length xs ≤ 32
    → HaveValues e Inv want xs
    → Inv s
    → (t : Monitor) × (watch e s ≡ some t) × WatchedBy xs want s t
watch-WatchedBy e Inv want xs s debug c once fits keep i =
    let (r, checked) = check-returns e Inv want nr_wp xs s.pool.head false s keep i c fits in
    (
      stop_if r.0 r.1,
      watch_result e s r debug checked,
      stopped-WatchedBy xs want s r (check-Checked e nr_wp xs s.pool.head false s r c once checked)
          (check-values e Inv want nr_wp xs s.pool.head false s r keep i c once checked),
    )
