-- ===== src/Tile.antt =====
-- src/tile.h and src/tile.cpp: what lies and stands on a tile, and in which order. Things are named by
-- numbers that stand for their addresses. Flags of the tile, spectators, notifications and the
-- trash are left out.
pub mod Changes
pub mod Order
pub mod Index
pub mod Removing
pub mod Leaving
pub mod Adding
pub mod Coming
pub mod Arrival
mod Tests
use darghos_tfs04_86_v.Base.{
  ℕ, zero, suc, ◌+◌, ◌-◌, Bool, true, false, not, ◌&&◌, ◌||◌, Option, none, some, List, [], ◌∷◌,
  length, get_elem?, take, drop, ltb, leb, ◌==◌, if◌then◌else◌,
}

-- What is known of a thing, and of its type in the item table. A magic field says whether it may be
-- replaced.
pub record Thing : Type 0 where
  pub get_item : Bool
  pub is_ground : Bool
  pub always_on_top : Bool
  pub top_order : ℕ
  pub is_splash : Bool
  pub field : Option Bool
  pub stackable : Bool

-- The item list starts with the `down_item_count` items that lie below creatures' feet, the last one
-- put there first, and goes on with those that are always on top. `counts` are the items' counts, and
-- `is_here` says that a thing's parent is this tile.
pub record Tile : Type 0 where
  pub ground : Option ℕ
  pub items : List ℕ
  pub down_item_count : ℕ
  pub creatures : List ℕ
  pub thing_count : ℕ
  pub counts : ℕ → ℕ
  pub is_here : ℕ → Bool

-- `getBeginDownItem` to `getEndDownItem`, and `getBeginTopItem` to `getEndTopItem`.
abbrev pub down_items : Tile → List ℕ
down_items t = take t.down_item_count t.items

abbrev pub top_items : Tile → List ℕ
top_items t = drop t.down_item_count t.items

abbrev pub is_ground_of : Tile → ℕ → Bool
is_ground_of t x = elim t.ground [ none ↦ false | some g ↦ g == x ]

abbrev pub ground_size : Tile → ℕ
ground_size t = elim t.ground [ none ↦ 0 | some g ↦ 1 ]

-- The place of a thing in a list that starts at an index.
unfoldable pub index_in : ℕ → List ℕ → ℕ → Option ℕ
index_in n [] x = none
index_in n (y ∷ ys) x = let rest = index_in (suc n) ys x in if y == x then some n else rest

-- The first place that is found.
abbrev pub or_else : Option ℕ → Option ℕ → Option ℕ
or_else none o = o
or_else (some i) o = some i

-- `__getIndexOfThing` behind the ground: items on top, creatures, and items below them, where only an
-- item is looked for among items. Its `n` is one less than here; none is -1.
unfoldable pub index_above : (ℕ → Thing) → Tile → ℕ → ℕ → Option ℕ
unfolding index_in
index_above things t n x =
    let m = n + length (top_items t) in
    or_else (if (things x).get_item then index_in n (top_items t) x else none) (
      or_else (index_in m t.creatures x)
        (if (things x).get_item then index_in (m + length t.creatures) (down_items t) x else none))

-- `__getIndexOfThing`.
unfoldable pub get_index_of_thing : (ℕ → Thing) → Tile → ℕ → Option ℕ
unfolding index_above
get_index_of_thing things t x = elim t.ground [
  | none ↦ index_above things t 0 x
  | some g ↦ if g == x then some 0 else index_above things t 1 x
]

-- The end of `__getThing`, behind the ground.
unfoldable pub thing_above : Tile → ℕ → Option ℕ
thing_above t i =
    if ltb i (length (top_items t))
    then get_elem? t.items (t.down_item_count + i)
    else let j = i - length (top_items t) in
      if ltb j (length t.creatures)
      then get_elem? t.creatures j
      else let k = j - length t.creatures in
        if ltb k t.down_item_count then get_elem? t.items k else none

-- `__getThing`.
unfoldable pub get_thing : Tile → ℕ → Option ℕ
unfolding thing_above
get_thing t i = elim t.ground [
  | none ↦ thing_above t i
  | some g ↦ if i == 0 then some g else thing_above t (i - 1)
]

-- `getTopCreature`, `getTopDownItem` and `getTopTopItem`.
abbrev pub first_of : List ℕ → Option ℕ
first_of [] = none
first_of (x ∷ xs) = some x

abbrev pub last_of : List ℕ → Option ℕ
last_of [] = none
last_of (x ∷ []) = some x
last_of (x ∷ y ∷ ys) = last_of (y ∷ ys)

unfoldable pub get_top_creature : Tile → Option ℕ
get_top_creature t = first_of t.creatures

unfoldable pub get_top_down_item : Tile → Option ℕ
get_top_down_item t = first_of (down_items t)

unfoldable pub get_top_top_item : Tile → Option ℕ
get_top_top_item t = last_of (top_items t)
