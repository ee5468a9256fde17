-- ===== src/Monitor/Watchpoint/Reach.antt =====
-- Every pool that the operations lead to holds its 32 nodes in two lists.
use ics.Base.{
  ℕ, zero, suc, ◌+◌, ◌-◌, ◌≤◌, ◌<◌, ◌≡◌, refl, sym, ◌∙◌, Bool-cases, inl, inr, true, false, Option,
  none, some, ◌==◌, ltb, arith, List, [], ◌∷◌, ◌++◌, length,
}
use mathlib.Core.Option.{none-ne-some}
use ics.Monitor.Watchpoint.{WpPool, nr_wp, init_wp_pool, new_wp, free_wp}
use ics.Monitor.Watchpoint.Chain.{Chain, count, remove, find_pred-none}
use ics.Monitor.Watchpoint.Pool.{Holds, TakesFirst, new_wp-TakesFirst, free_wp-Holds}

-- The nodes from `k` on.
abbrev pub nodes : ℕ → ℕ → List ℕ
nodes k zero = []
nodes k (suc n) = k ∷ nodes (k + 1) n

nodes_below : (k n i : ℕ) → i < k → count i (nodes k n) ≡ 0
nodes_below k zero i h = refl
nodes_below k (suc n) i h = ground (arith, nodes_below (k + 1) n i)

nodes_once : (k n i : ℕ) → count i (nodes k n) ≤ 1
nodes_once k zero i = omega arith
nodes_once k (suc n) i = ground (arith, nodes_once (k + 1) n i, nodes_below (k + 1) n i)

length-nodes : (k n : ℕ) → length (nodes k n) ≡ n
length-nodes k zero = refl
length-nodes k (suc n) = omega (arith, length-nodes (k + 1) n)

nodes-Chain : (k n : ℕ) → k + suc n ≡ nr_wp → Chain init_wp_pool.next (some k) (nodes k (suc n))
unfolding Chain init_wp_pool
nodes-Chain k zero h = (refl, ground arith)
nodes-Chain k (suc n) h =
    let more : ltb k (nr_wp - 1) ≡ true = ground arith in
    (refl, rw more (nodes-Chain (k + 1) n (omega arith)))

-- The initial pool has no used node, and the 32 nodes in their order in the free list.
pub init_wp_pool-Holds : Holds init_wp_pool [] (nodes 0 nr_wp)
unfolding Chain init_wp_pool
init_wp_pool-Holds = record {
  used_chain = refl;
  free_chain = nodes-Chain 0 31 refl;
  once = λ i. omega (arith, nodes_once 0 nr_wp i);
  size = length-nodes 0 nr_wp;
}

-- The pools that calls of the three operations lead to.
pub data Reachable : WpPool → Type 0 where
  started : Reachable init_wp_pool
  taken : {p q : WpPool} {t : ℕ} → Reachable p → new_wp p ≡ some (t, q) → Reachable q
  released : {p q : WpPool} (wp : Option ℕ) → Reachable p → free_wp wp p ≡ some q → Reachable q

-- On a pool that holds two lists of distinct nodes, 32 together, `free_wp` of a node that is not used
-- does not return: it fails an assertion or follows NULL.
pub free_wp-none :
    (p : WpPool) (used free : List ℕ) (w : ℕ)
    → Holds p used free
    → count w used ≡ 0
    → free_wp (some w) p ≡ none
unfolding free_wp Chain
free_wp-none p [] free w v h = rw v.used_chain refl
free_wp-none p (x ∷ us) free w v h =
    let other : (x == w) ≡ false = ground arith in
    rw (v.used_chain.0, other, find_pred-none nr_wp p.next w x us v.used_chain.1 (ground arith))
      refl

abbrev pub HoldsSome : WpPool → Type 0
HoldsSome p = (used : List ℕ) × (free : List ℕ) × Holds p used free

after_new :
    (p q : WpPool) (t : ℕ) (used free : List ℕ)
    → TakesFirst p used free
    → new_wp p ≡ some (t, q)
    → HoldsSome q
after_new p q t used [] stuck e = absurd (none-ne-some _ (sym stuck ∙ e))
after_new p q t used (x ∷ free) (r, is, holds) e =
    let same : q ≡ r = cc in (used ++ (x ∷ []), free, rw same holds)

after_free :
    (p q : WpPool) (w : ℕ) (used free : List ℕ)
    → Holds p used free
    → free_wp (some w) p ≡ some q
    → HoldsSome q
after_free p q w used free v e = elim (Bool-cases (count w used == 0)) [
  | inl z ↦ absurd (none-ne-some _ (sym (free_wp-none p used free w v (ground arith)) ∙ e))
  | inr z ↦
      (let (r, is, holds) = free_wp-Holds p used free w v (ground arith) in
        let same : q ≡ r = cc in (remove w used, w ∷ free, rw same holds))
]

-- Every pool that calls of init_wp_pool, new_wp and free_wp lead to holds two lists of distinct nodes,
-- one for the used and one for the free watchpoints, with 32 nodes together.
pub Reachable-Holds : (p : WpPool) → Reachable p → HoldsSome p
unfolding free_wp
Reachable-Holds p started = ([], nodes 0 nr_wp, init_wp_pool-Holds)
Reachable-Holds q (taken {p} {t} r e) =
    let (used, free, v) = Reachable-Holds p r in
    after_new p q t used free (new_wp-TakesFirst p used free v) e
Reachable-Holds q (released {p} none r e) = absurd (none-ne-some _ e)
Reachable-Holds q (released {p} (some w) r e) =
    let (used, free, v) = Reachable-Holds p r in after_free p q w used free v e
