-- ===== src/Monitor/Commands/Delete.antt =====
-- Deleting a watchpoint by its number: `cmd_d` of nemu/src/monitor/debug/ui.c over the pool's lists.
use ics.Base.{
  ℕ, zero, suc, ◌+◌, ◌≤◌, ◌≡◌, refl, true, false, Option, none, some, List, [], ◌∷◌, ◌++◌, length,
  arith, Bool-cases, inl, inr, ◌==◌, leb, if◌then◌else◌, pos, negsuc, ℤ, pos_part, neg_part, ap,
  ◌⊎◌,
}
use ics.Monitor.Watchpoint.{nr_wp}
use ics.Monitor.Watchpoint.Chain.{Chain, count, remove}
use ics.Monitor.Watchpoint.Pool.{Holds, free_wp-Holds}
use ics.Monitor.Commands.{Ui, message, deleted, atoi_int, find_watchpoint, cmd_d}

find_watchpoint-Chain :
    (n : ℕ) (next : ℕ → Option ℕ) (i : ℕ) (p : Option ℕ) (xs : List ℕ)
    → Chain next p xs
    → length xs ≤ n
    → find_watchpoint n next (pos i) p ≡ some (if leb 1 (count i xs) then some i else none)
unfolding Chain find_watchpoint
find_watchpoint-Chain n next i p [] c fits = rw c refl
find_watchpoint-Chain zero next i p (x ∷ xs) c fits = absurd (omega arith)
find_watchpoint-Chain (suc n) next i p (x ∷ xs) c fits =
    let rest = find_watchpoint-Chain n next i (next x) xs c.1 (omega arith) in
    elim (Bool-cases (x == i)) [
      | inl f ↦ (let same : x ≡ i = ground arith in rw (c.0, same) (ground arith))
      | inr f ↦ (let same : 0 + count i xs ≡ count i xs = omega arith in rw (c.0, f, same) rest)
    ]

some_used : (c : ℕ) → leb 1 c ≡ true → 1 ≤ c
some_used c e = ground arith

none_used : (c : ℕ) → leb 1 c ≡ false → c ≡ 0
none_used c e = ground arith

find_watchpoint-negsuc :
    (n : ℕ) (next : ℕ → Option ℕ) (i : ℕ) (p : Option ℕ) (xs : List ℕ)
    → Chain next p xs
    → length xs ≤ n
    → find_watchpoint n next (negsuc i) p ≡ some none
unfolding Chain find_watchpoint
find_watchpoint-negsuc n next i p [] c fits = rw c refl
find_watchpoint-negsuc zero next i p (x ∷ xs) c fits = absurd (omega arith)
find_watchpoint-negsuc (suc n) next i p (x ∷ xs) c fits =
    rw (c.0) (find_watchpoint-negsuc n next i (next x) xs c.1 (omega arith))

-- The interface and the lists after `d`: a used node was deleted, or no used node has the number.
pub record Deleted (u : Ui) (used free : List ℕ) (i : ℕ) (after : Ui) : Type 0 where
  pub was_used : 1 ≤ count i used
  pub lists : Holds after.monitor.pool (remove i used) (i ∷ free)
  pub kept : record (after.monitor) { pool = u.monitor.pool } ≡ u.monitor
  pub told : after.printed ≡ u.printed ++ (deleted i ∷ [])

pub record Missing (u : Ui) (used : List ℕ) (index : ℤ) (after : Ui) : Type 0 where
  pub unused : (i : ℕ) → index ≡ pos i → count i used ≡ 0
  pub kept : after.monitor ≡ u.monitor
  pub told : after.printed ≡ u.printed ++ (message ∷ [])

delete_used :
    (u : Ui) (arg rest : List ℕ) (used free : List ℕ) (i : ℕ)
    → Holds u.monitor.pool used free
    → atoi_int arg ≡ some (pos i)
    → leb 1 (count i used) ≡ true
    → (after : Ui) × (cmd_d (some (arg, rest)) u ≡ some (pos 0, after))
      × Deleted u used free i after
unfolding cmd_d
delete_used u arg rest used free i v number e =
    let found =
      find_watchpoint-Chain nr_wp u.monitor.pool.next i u.monitor.pool.head used v.used_chain
        (omega (arith, v.size)) in
    let (q, freed, holds) =
      free_wp-Holds u.monitor.pool used free i v (some_used (count i used) e) in
    (
      record u {
        monitor = record (u.monitor) { pool = q };
        printed = u.printed ++ (deleted i ∷ []);
      },
      rw (number, found, e, freed) refl,
      record { was_used = some_used (count i used) e; lists = holds; kept = refl; told = refl },
    )

leave :
    (u : Ui) (arg rest : List ℕ) (used : List ℕ) (index : ℤ)
    → atoi_int arg ≡ some index
    → find_watchpoint nr_wp u.monitor.pool.next index u.monitor.pool.head ≡ some none
    → ((i : ℕ) → index ≡ pos i → count i used ≡ 0)
    → (after : Ui) × (cmd_d (some (arg, rest)) u ≡ some (pos 0, after)) × Missing u used index after
unfolding cmd_d
leave u arg rest used index number found out = (
  record u { printed = u.printed ++ (message ∷ []) },
  rw (number, found) refl,
  record { unused = out; kept = refl; told = refl },
)

-- `d` with a number, negative ones included, returns 0. With that of a used node it moves the node to
-- the front of the free list, keeps the others in their order, and says so; with any other number it
-- leaves everything but the output, where it says that there is no such watchpoint.
pub cmd_d-Holds :
    (u : Ui) (arg rest : List ℕ) (index : ℤ) (used free : List ℕ)
    → Holds u.monitor.pool used free
    → atoi_int arg ≡ some index
    → (after : Ui) × (cmd_d (some (arg, rest)) u ≡ some (pos 0, after))
      × (((i : ℕ) × (index ≡ pos i) × Deleted u used free i after) ⊎ Missing u used index after)
cmd_d-Holds u arg rest (pos i) used free v number =
    let found =
      find_watchpoint-Chain nr_wp u.monitor.pool.next i u.monitor.pool.head used v.used_chain
        (omega (arith, v.size)) in
    elim (Bool-cases (leb 1 (count i used))) [
      | inl e ↦
          (let (after, ran, done) = delete_used u arg rest used free i v number e in
            (after, ran, inl (i, refl, done)))
      | inr e ↦
          (let (after, ran, done) =
              leave u arg rest used (pos i) number (rw e at found)
                (λ j same. rw (← ap pos_part same) (none_used (count i used) e)) in
            (after, ran, inr done))
    ]
cmd_d-Holds u arg rest (negsuc i) used free v number =
    let found =
      find_watchpoint-negsuc nr_wp u.monitor.pool.next i u.monitor.pool.head used v.used_chain
        (omega (arith, v.size)) in
    let (after, ran, done) =
      leave u arg rest used (negsuc i) number found
        (λ j same. absurd (omega (arith, ap neg_part same))) in
    (after, ran, inr done)
