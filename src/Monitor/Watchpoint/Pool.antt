-- ===== src/Monitor/Watchpoint/Pool.antt =====
-- What the pool's operations do to the used and the free watchpoints.
use ics.Base.{
  ℕ, ◌+◌, ◌≤◌, ◌≡◌, refl, Bool-cases, inl, inr, none, some, ◌==◌, arith, List, [], ◌∷◌, ◌++◌,
  length, length-append,
}
use ics.Monitor.Watchpoint.{WpPool, nr_wp, set_next, new_wp, free_wp, link, unlink}
use ics.Monitor.Watchpoint.Chain.{
  Chain, count, count-append, Chain-set_next, append_last, remove, count-remove, length-remove,
  unlink-Chain,
}

-- The list at `head` holds the watchpoints `used`, the list at `free_` holds `free`; together they
-- are the 32 nodes, and none occurs twice.
pub record Holds (p : WpPool) (used free : List ℕ) : Type 0 where
  pub used_chain : Chain p.next p.head used
  pub free_chain : Chain p.next p.free free
  pub once : (i : ℕ) → count i used + count i free ≤ 1
  pub size : length used + length free ≡ nr_wp

-- What `new_wp` does with a free list: it aborts on an empty one, and otherwise returns the first
-- free node, which leaves the free list and goes to the end of the used one.
abbrev pub TakesFirst : WpPool → List ℕ → List ℕ → Type 0
TakesFirst p used [] = new_wp p ≡ none
TakesFirst p used (t ∷ free) =
    (q : WpPool) × (new_wp p ≡ some (t, q)) × Holds q (used ++ (t ∷ [])) free

module _ (p : WpPool) (t : ℕ) (fs : List ℕ) where
  -- The lists that `new_wp` leaves, from the chains it leaves.
  taken :
      (used : List ℕ) (q : WpPool)
      → Holds p used (t ∷ fs)
      → Chain q.next q.head (used ++ (t ∷ []))
      → Chain q.next q.free fs
      → Holds q (used ++ (t ∷ [])) fs
  taken used q v c d = record {
    used_chain = c;
    free_chain = d;
    once = λ i. omega (arith, v.once i, count-append i used (t ∷ []));
    size = omega (arith, v.size, length-append used (t ∷ []));
  }

-- On a pool that holds two lists of distinct nodes, 32 together, `new_wp` aborts if the free list is
-- empty, and otherwise returns its first node and leaves a pool that holds the used nodes with
-- that node behind them, and the other free nodes.
pub new_wp-TakesFirst :
    (p : WpPool) (used free : List ℕ) → Holds p used free → TakesFirst p used free
unfolding new_wp Chain
new_wp-TakesFirst p used [] v = rw v.free_chain refl
new_wp-TakesFirst p [] (t ∷ fs) v =
    let q : WpPool = record { next = set_next p.next t none; head = some t; free = p.next t } in
    (
      q,
      rw (v.free_chain.0, v.used_chain) refl,
      taken p t fs [] q v (refl, ground arith)
          (Chain-set_next p.next (p.next t) fs t none v.free_chain.1 (ground (arith, v.once t))),
    )
new_wp-TakesFirst p (h ∷ us) (t ∷ fs) v =
    let (l, found, in_list, chain) =
      append_last nr_wp p.next h us v.used_chain.1 (omega (arith, v.size))
        (λ i. omega (arith, v.once i)) in
    let q : WpPool = record { next = link p.next l t; head = some h; free = p.next t } in
    (
      q,
      rw (v.free_chain.0, v.used_chain.0, found) refl,
      taken p t fs (h ∷ us) q v (refl, chain t (ground (arith, v.once t)))
          (Chain-set_next (set_next p.next l (some t)) (p.next t) fs t none
            (Chain-set_next p.next (p.next t) fs l (some t) v.free_chain.1
              (ground (arith, v.once l)))
            (ground (arith, v.once t))),
    )

-- The lists that `free_wp` leaves, from the chains it leaves.
released :
    (p q : WpPool) (used free : List ℕ) (w : ℕ)
    → Holds p used free
    → 1 ≤ count w used
    → Chain q.next q.head (remove w used)
    → Chain q.next q.free (w ∷ free)
    → Holds q (remove w used) (w ∷ free)
released p q used free w v h c d = record {
  used_chain = c;
  free_chain = d;
  once = λ i. omega (arith, v.once i, count-remove w used i h);
  size = omega (arith, v.size, length-remove w used h);
}

-- On a pool that holds two lists of distinct nodes, 32 together, `free_wp` of a used node succeeds,
-- and leaves a pool that holds the used nodes without it, in their order, and the free nodes with
-- it in front.
pub free_wp-Holds :
    (p : WpPool) (used free : List ℕ) (w : ℕ)
    → Holds p used free
    → 1 ≤ count w used
    → (q : WpPool) × (free_wp (some w) p ≡ some q) × Holds q (remove w used) (w ∷ free)
unfolding free_wp Chain
free_wp-Holds p [] free w v h = absurd (omega arith)
free_wp-Holds p (x ∷ us) free w v h = elim (Bool-cases (x == w)) [
  | inl e ↦
      (let q : WpPool = record {
        next = set_next p.next w p.free;
        head = p.next w;
        free = some w;
      } in
        let same : x ≡ w = ground arith in
        let rest : Chain p.next (p.next w) us = rw same at v.used_chain.1 in
        let set : set_next p.next w p.free w ≡ p.free = ground arith in
        (
          q,
          rw (v.used_chain.0, e) refl,
          released p q (x ∷ us) free w v h
              (rw e (Chain-set_next p.next (p.next w) us w p.free rest (ground (arith, v.once w))))
              (
                refl,
                rw set (
                    Chain-set_next p.next p.free free w p.free v.free_chain
                      (ground (arith, v.once w))),
              ),
        ))
  | inr e ↦
      (let (y, found, in_list, chain) =
          unlink-Chain nr_wp p.next p.free w x us v.used_chain.1 (omega (arith, v.size))
            (ground arith) (λ i. omega (arith, v.once i)) in
        let q : WpPool = record { next = unlink p.next p.free w y; head = some x; free = some w } in
        let set : unlink p.next p.free w y w ≡ p.free = ground arith in
        (
          q,
          rw (v.used_chain.0, e, found) refl,
          released p q (x ∷ us) free w v h (rw e (refl, chain)) (
            refl,
            rw set (
                Chain-set_next (set_next p.next y (p.next w)) p.free free w p.free
                  (Chain-set_next p.next p.free free y (p.next w) v.free_chain
                    (ground (arith, v.once y)))
                  (ground (arith, v.once w))),
          ),
        ))
]
