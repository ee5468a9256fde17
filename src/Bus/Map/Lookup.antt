-- ===== src/Bus/Map/Lookup.antt =====
-- Which map an address belongs to: `find_map`, `add_mmio_map` and `add_pio_map`.
use ics.Base.{
  ◌⊎◌, ℕ, ◌+◌, ◌^◌, ◌≤◌, ◌<◌, ◌≡◌, refl, none, some, arith, lt→ltb, Option, ◌∙◌, List, [], ◌∷◌,
  ◌++◌, length,
}
use ics.Bus.{Bus, IoMap, Callback}
use ics.Bus.Map.{map_inside, find_map, fetch_mmio_map, add_mmio_map, nr_map, io_map}

-- A map found before another is added stays the one that is found.
find_map-append :
    (maps more : List IoMap) (a : ℕ) {map : IoMap}
    → find_map maps a ≡ some map
    → find_map (maps ++ more) a ≡ some map
unfolding find_map
find_map-append [] more a e = cc
find_map-append (m ∷ maps) more a {map} e = grind (arith, find_map-append maps more a {map = map})

find_map-append_none :
    (maps more : List IoMap) (a : ℕ)
    → find_map maps a ≡ none
    → find_map (maps ++ more) a ≡ find_map more a
unfolding find_map
find_map-append_none [] more a e = refl
find_map-append_none (m ∷ maps) more a e = grind (arith, find_map-append_none maps more a)

-- Adding an MMIO map while there are fewer than 8, for a range that ends below 2^32, succeeds: an address that a map held
-- still belongs to that map, an address of the new range that no map held belongs to the new map, and
-- any other address belongs to none.
pub add_mmio_map-fetch :
    (b : Bus) (addr space len : ℕ) (callback : Option Callback)
    → length b.mmio_maps < nr_map
    → addr + len ≤ 2 ^ 32
    → 0 < len
    → (c : Bus) × (add_mmio_map addr space len callback b ≡ some (tt, c))
      × ((a : ℕ) (map : IoMap) → fetch_mmio_map a b ≡ some map → fetch_mmio_map a c ≡ some map)
      × ((a : ℕ)
          → fetch_mmio_map a b ≡ none
          → addr ≤ a
          → a < addr + len
          → fetch_mmio_map a c ≡ some (io_map addr space len callback))
      × ((a : ℕ)
          → fetch_mmio_map a b ≡ none
          → (a < addr) ⊎ (addr + len ≤ a)
          → fetch_mmio_map a c ≡ none)
unfolding add_mmio_map fetch_mmio_map find_map map_inside
add_mmio_map-fetch b addr space len callback few fits some_bytes =
    let new = io_map addr space len callback in
    let maps = b.mmio_maps ++ (new ∷ []) in
    (
      record b { mmio_maps = maps },
      rw (lt→ltb (length b.mmio_maps) nr_map few) refl,
      λ a map e. find_map-append b.mmio_maps (new ∷ []) a e,
      λ a e lo hi. find_map-append_none b.mmio_maps (new ∷ []) a e ∙ ground arith,
      λ a e out. find_map-append_none b.mmio_maps (new ∷ []) a e ∙ ground arith,
    )
