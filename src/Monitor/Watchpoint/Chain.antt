-- ===== src/Monitor/Watchpoint/Chain.antt =====
-- Chains of `next` links.
use ics.Base.{
  Bool-cases, inl, inr, false, ℕ, zero, suc, ◌+◌, ◌≤◌, ◌<◌, ◌≡◌, refl, ◌∙◌, Option, none, some,
  ◌==◌, if◌then◌else◌, arith, List, [], ◌∷◌, ◌++◌, length,
}
use ics.Monitor.Watchpoint.{set_next, find_last, find_pred, link, unlink}

-- From `p` the links run through the nodes of the list, and end.
unfoldable pub Chain : (ℕ → Option ℕ) → Option ℕ → List ℕ → Type 0
Chain next p [] = p ≡ none
Chain next p (x ∷ xs) = (p ≡ some x) × Chain next (next x) xs

abbrev pub count : ℕ → List ℕ → ℕ
count i [] = 0
count i (x ∷ xs) = (if x == i then 1 else 0) + count i xs

pub count-append : (i : ℕ) (xs ys : List ℕ) → count i (xs ++ ys) ≡ count i xs + count i ys
count-append i [] ys = omega arith
count-append i (x ∷ xs) ys = omega (arith, count-append i xs ys)

-- Setting the link of a node outside a chain leaves it a chain.
pub Chain-set_next :
    (next : ℕ → Option ℕ) (p : Option ℕ) (xs : List ℕ) (i : ℕ) (v : Option ℕ)
    → Chain next p xs
    → count i xs ≡ 0
    → Chain (set_next next i v) p xs
unfolding Chain
Chain-set_next next p [] i v c h = c
Chain-set_next next p (x ∷ xs) i v c h =
    let apart : set_next next i v x ≡ next x = ground arith in
    (c.0, rw apart (Chain-set_next next (next x) xs i v c.1 (ground arith)))

-- A node that is linked behind the end of a chain.
pub append_last :
    (n : ℕ) (next : ℕ → Option ℕ) (h : ℕ) (xs : List ℕ)
    → Chain next (next h) xs
    → length xs < n
    → ((i : ℕ) → count i (h ∷ xs) ≤ 1)
    → (l : ℕ) × (find_last n next h ≡ some l)
      × (1 ≤ count l (h ∷ xs))
      × ((t : ℕ) → count t (h ∷ xs) ≡ 0 → Chain (link next l t) (link next l t h) (xs ++ (t ∷ [])))
unfolding Chain find_last
append_last zero next h xs c k once = absurd (omega arith)
append_last (suc n) next h [] c k once =
    (h, rw (c, find_last) refl, ground arith, λ t fresh. (ground arith, ground arith))
append_last (suc n) next h (y ∷ ys) c k once =
    let (l, found, in_list, chain) =
      append_last n next y ys c.1 (omega arith) (λ i. omega (arith, once i)) in
    (
      l,
      rw (c.0, find_last) found,
      omega (arith, in_list),
      λ t fresh.
          let apart : link next l t h ≡ next h = ground (arith, once h, in_list) in
          (apart ∙ c.0, chain t (omega (arith, fresh))),
    )

-- A list without the first occurrence of a node.
abbrev pub remove : ℕ → List ℕ → List ℕ
remove w [] = []
remove w (x ∷ xs) = if x == w then xs else x ∷ remove w xs

pub count-remove :
    (w : ℕ) (xs : List ℕ) (i : ℕ)
    → 1 ≤ count w xs
    → count i (remove w xs) + (if w == i then 1 else 0) ≡ count i xs
count-remove w [] i h = absurd (omega arith)
count-remove w (x ∷ xs) i h = ground (arith, count-remove w xs i)

pub length-remove : (w : ℕ) (xs : List ℕ) → 1 ≤ count w xs → length (remove w xs) + 1 ≡ length xs
length-remove w [] h = absurd (omega arith)
length-remove w (x ∷ xs) h = ground (arith, length-remove w xs)

-- A node of a chain, but its first, unlinked by way of its predecessor.
pub unlink-Chain :
    (n : ℕ) (next : ℕ → Option ℕ) (free : Option ℕ) (w h : ℕ) (xs : List ℕ)
    → Chain next (next h) xs
    → length xs < n
    → 1 ≤ count w xs
    → ((i : ℕ) → count i (h ∷ xs) ≤ 1)
    → (x : ℕ) × (find_pred n next w h ≡ some x)
      × (1 ≤ count x (h ∷ xs))
      × Chain (unlink next free w x) (unlink next free w x h) (remove w xs)
unfolding Chain find_pred
unlink-Chain zero next free w h xs c k has once = absurd (omega arith)
unlink-Chain (suc n) next free w h [] c k has once = absurd (omega arith)
unlink-Chain (suc n) next free w h (y ∷ ys) c k has once =
    let head_only : count h (y ∷ ys) ≡ 0 = ground (arith, once h) in
    elim (Bool-cases (y == w)) [
      | inl e ↦ (
        h,
        rw (c.0, find_pred, e) refl,
        ground arith,
        (let same : y ≡ w = ground arith in
            let skips : unlink next free w h h ≡ next w = ground (arith, once w) in
            let rest : Chain next (next w) ys = rw same at c.1 in
            let framed =
              Chain-set_next (set_next next h (next w)) (next w) ys w free
                (Chain-set_next next (next w) ys h (next w) rest (ground arith))
                (ground (arith, once w)) in
            rw (e, skips) framed),
      )
      | inr e ↦
          (let (x, found, in_list, chain) =
              unlink-Chain n next free w y ys c.1 (omega arith) (ground arith)
                (λ i. omega (arith, once i)) in
            let apart : unlink next free w x h ≡ next h = ground (arith, once h) in
            (x, rw (c.0, find_pred, e) found, omega (arith, in_list), rw e (apart ∙ c.0, chain)))
    ]

-- The search for a node that a chain does not have follows NULL.
pub find_pred-none :
    (n : ℕ) (next : ℕ → Option ℕ) (w h : ℕ) (xs : List ℕ)
    → Chain next (next h) xs
    → count w xs ≡ 0
    → find_pred n next w h ≡ none
unfolding Chain find_pred
find_pred-none zero next w h xs c h0 = refl
find_pred-none (suc n) next w h [] c h0 = rw (c, find_pred) refl
find_pred-none (suc n) next w h (y ∷ ys) c h0 =
    let other : (y == w) ≡ false = ground arith in
    rw (c.0, find_pred, other) (find_pred-none n next w y ys c.1 (ground arith))
