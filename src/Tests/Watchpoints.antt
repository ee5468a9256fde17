-- ===== src/Tests/Watchpoints.antt =====
-- The watchpoint pool, from its initial state.
use ics.Base.{◌≡◌, some, arith, [], ◌∷◌}
use ics.Monitor.Watchpoint.{WpPool, nr_wp, init_wp_pool, free_wp}
use ics.Monitor.Watchpoint.Pool.{Holds, TakesFirst, new_wp-TakesFirst, free_wp-Holds}
use ics.Monitor.Watchpoint.Reach.{
  nodes, init_wp_pool-Holds, started, taken, HoldsSome, Reachable-Holds,
}

new_wp-TakesFirst_example : TakesFirst init_wp_pool [] (nodes 0 nr_wp)
new_wp-TakesFirst_example = new_wp-TakesFirst init_wp_pool [] (nodes 0 nr_wp) init_wp_pool-Holds

-- The pool with node 0 in use.
first_taken : TakesFirst init_wp_pool [] (nodes 0 nr_wp)
first_taken = new_wp-TakesFirst init_wp_pool [] (nodes 0 nr_wp) init_wp_pool-Holds

abbrev one_used : WpPool
one_used = first_taken.0

free_wp-Holds_example :
    (q : WpPool) × (free_wp (some 0) one_used ≡ some q) × Holds q [] (0 ∷ nodes 1 31)
free_wp-Holds_example = free_wp-Holds one_used (0 ∷ []) (nodes 1 31) 0 first_taken.2 (omega arith)

Reachable-Holds_example : HoldsSome one_used
Reachable-Holds_example = Reachable-Holds one_used (taken started first_taken.1)
