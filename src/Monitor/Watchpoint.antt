-- ===== src/Monitor/Watchpoint.antt =====
-- The pool of watchpoints: nemu/src/monitor/debug/watchpoint.c. A node is its index in `wp_pool`, and
-- NULL is `none`.
pub mod Chain
pub mod Pool
pub mod Reach
use ics.Base.{ℕ, zero, suc, ◌+◌, ◌-◌, Option, none, some, ◌==◌, ltb, if◌then◌else◌, bind}

abbrev pub nr_wp : ℕ
nr_wp = 32

-- `wp_pool`'s `next` fields, and the heads of the two lists. NO, the expression and the value belong
-- to a node and are not touched by the lists' operations.
pub record WpPool : Type 0 where
  pub next : ℕ → Option ℕ
  pub head : Option ℕ
  pub free : Option ℕ

abbrev pub set_next : (ℕ → Option ℕ) → ℕ → Option ℕ → ℕ → Option ℕ
set_next next i v j = if j == i then v else next j

unfoldable pub init_wp_pool : WpPool
init_wp_pool = record {
  next = λ i. if ltb i (nr_wp - 1) then some (i + 1) else none;
  head = none;
  free = some 0;
}

-- `while (temp2->next != NULL) temp2 = temp2->next;`.
unfoldable pub find_last : ℕ → (ℕ → Option ℕ) → ℕ → Option ℕ
find_last zero next x = none
find_last (suc n) next x = elim (next x) [ none ↦ some x | some y ↦ find_last n next y ]

-- The last node of the list gets the new one, whose own `next` is cleared.
abbrev pub link : (ℕ → Option ℕ) → ℕ → ℕ → ℕ → Option ℕ
link next l t = set_next (set_next next l (some t)) t none

-- The new node, and the pool without it in the free list. An empty free list fails an assertion.
abbrev attach : WpPool → ℕ → Option ℕ → Option (ℕ × WpPool)
attach p t none = some (t, record { next = set_next p.next t none; head = some t; free = p.next t })
attach p t (some h) =
    bind (find_last nr_wp p.next h)
      (λ l. some (t, record { next = link p.next l t; head = some h; free = p.next t }))

abbrev take : WpPool → Option ℕ → Option (ℕ × WpPool)
take p none = none
take p (some t) = attach p t p.head

unfoldable pub new_wp : WpPool → Option (ℕ × WpPool)
unfolding find_last
new_wp p = take p p.free

-- `while (temp1->next != wp) temp1 = temp1->next;`, which follows NULL if the list has no `wp`.
unfoldable pub find_pred : ℕ → (ℕ → Option ℕ) → ℕ → ℕ → Option ℕ
find_pred zero next w x = none
find_pred (suc n) next w x = elim (next x) [
  | none ↦ none
  | some y ↦ (let rest = find_pred n next w y in if y == w then some x else rest)
]

-- `x` past `w`, and `w` in front of the free list.
abbrev pub unlink : (ℕ → Option ℕ) → Option ℕ → ℕ → ℕ → ℕ → Option ℕ
unlink next free w x = set_next (set_next next x (next w)) w free

abbrev detach : WpPool → ℕ → Option ℕ → Option WpPool
detach p w none = none
detach p w (some h) =
    let rest =
      bind (find_pred nr_wp p.next w h)
        (λ x. some (record { next = unlink p.next p.free w x; head = some h; free = some w })) in
    if h == w
    then some (record { next = set_next p.next w p.free; head = p.next w; free = some w })
    else rest

abbrev free_node : WpPool → Option ℕ → Option WpPool
free_node p none = none
free_node p (some w) = detach p w p.head

-- NULL and an empty list fail an assertion.
unfoldable pub free_wp : Option ℕ → WpPool → Option WpPool
unfolding find_pred
free_wp wp p = free_node p wp
