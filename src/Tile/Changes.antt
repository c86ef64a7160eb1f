-- ===== src/Tile/Changes.antt =====
-- Things that come to a tile and leave it.
use darghos_tfs04_86_v.Base.{
  ℕ, ◌+◌, ◌-◌, Bool, true, false, not, ◌&&◌, Option, none, some, List, [], ◌∷◌, ◌++◌, length, ltb,
  leb, ◌==◌, if◌then◌else◌, mem, remove, update, u8,
}
use darghos_tfs04_86_v.Tile.{Thing, Tile, down_items, top_items, is_ground_of, get_index_of_thing}

-- `setParent` of this tile, or of none.
abbrev pub set_here : Tile → ℕ → Bool → Tile
set_here t x here = record t { is_here = update t.is_here x here }

-- The first branch of `__addThing`.
unfoldable pub add_creature : Tile → ℕ → Tile
add_creature t x = record (set_here t x true) {
  creatures = x ∷ t.creatures;
  thing_count = t.thing_count + 1;
}

-- A new ground takes the old one's place.
unfoldable pub add_ground : Tile → ℕ → Tile
add_ground t x = elim t.ground [
  | none ↦ record t { ground = some x; thing_count = t.thing_count + 1 }
  | some g ↦ record (set_here t g false) { ground = some x }
]

-- Before the first item whose order is not below that of the new one.
unfoldable pub insert_top : (ℕ → Thing) → ℕ → List ℕ → List ℕ
insert_top things x [] = x ∷ []
insert_top things x (y ∷ ys) =
    let rest = insert_top things x ys in
    if ltb (things y).top_order (things x).top_order then y ∷ rest else x ∷ y ∷ ys

-- The new item among those that are always on top.
unfoldable pub add_top : (ℕ → Thing) → Tile → ℕ → Tile
unfolding insert_top
add_top things t x = record t {
  items = down_items t ++ insert_top things x (top_items t);
  thing_count = t.thing_count + 1;
}

-- The new item in front of those below.
unfoldable pub add_down : Tile → ℕ → Tile
add_down t x = record t {
  items = x ∷ t.items;
  down_item_count = t.down_item_count + 1;
  thing_count = t.thing_count + 1;
}

-- `__removeThing` of the ground, of an item that is always on top, and of one below.
unfoldable pub remove_ground : Tile → ℕ → Tile
remove_ground t x = record (set_here t x false) { ground = none; thing_count = t.thing_count - 1 }

unfoldable pub remove_top : Tile → ℕ → Tile
remove_top t x =
    if mem x (top_items t)
    then record (set_here t x false) {
      items = down_items t ++ remove x (top_items t);
      thing_count = t.thing_count - 1;
    }
    else t

unfoldable pub remove_down : (ℕ → Thing) → Tile → ℕ → ℕ → Tile
remove_down things t x count =
    if not (mem x (down_items t))
    then t
    else if (things x).stackable && not (count == t.counts x)
    then record t { counts = update t.counts x (u8 (t.counts x - count)) }
    else record (set_here t x false) {
      items = remove x (down_items t) ++ top_items t;
      down_item_count = t.down_item_count - 1;
      thing_count = t.thing_count - 1;
    }

unfoldable pub remove_creature : Tile → ℕ → Tile
remove_creature t x =
    if mem x t.creatures
    then record t { creatures = remove x t.creatures; thing_count = t.thing_count - 1 }
    else t

-- `__removeThing`.
unfoldable pub remove_thing : (ℕ → Thing) → Tile → ℕ → ℕ → Tile
unfolding remove_creature remove_ground remove_top remove_down
remove_thing things t x count =
    if not (things x).get_item then remove_creature t x else elim (get_index_of_thing things t x) [
      | none ↦ t
      | some i ↦
          if is_ground_of t x
          then remove_ground t x
          else if (things x).always_on_top
          then remove_top t x
          else remove_down things t x count
    ]

-- The first splash, or the first magic field, of a list.
unfoldable pub first_splash : (ℕ → Thing) → List ℕ → Option ℕ
first_splash things [] = none
first_splash things (y ∷ ys) =
    let rest = first_splash things ys in if (things y).is_splash then some y else rest

unfoldable pub first_field : (ℕ → Thing) → List ℕ → Option (ℕ × Bool)
first_field things [] = none
first_field things (y ∷ ys) =
    let rest = first_field things ys in
    elim (things y).field [ none ↦ rest | some replacable ↦ some (y, replacable) ]

-- An old splash makes room for a new one.
unfoldable pub clear_splash : (ℕ → Thing) → Tile → ℕ → Tile
unfolding first_splash remove_thing
clear_splash things t x =
    let old = first_splash things (top_items t) in
    if (things x).is_splash then elim old [ none ↦ t | some y ↦ remove_thing things t y 1 ] else t

-- An old magic field makes room for a new one, or keeps it away: then there is no tile to go on with.
unfoldable pub clear_field : (ℕ → Thing) → Tile → ℕ → Option Tile
unfolding first_field remove_thing
clear_field things t x = elim (things x).field [
  | none ↦ some t
  | some replaces ↦ elim (first_field things (down_items t)) [
    | none ↦ some t
    | some old ↦ if old.1 then some (remove_thing things t old.0 1) else none
  ]
]

-- `__addThing`. The waterballs that change their type are left out.
unfoldable pub add_thing : (ℕ → Thing) → Tile → ℕ → Tile
unfolding add_creature add_ground add_top add_down clear_splash clear_field
add_thing things t x =
    let here = set_here t x true in
    if not (things x).get_item
    then add_creature t x
    else if leb 0xFFFF (length t.items)
    then t
    else if (things x).is_ground
    then add_ground here x
    else if (things x).always_on_top
    then add_top things (clear_splash things here x) x
    else elim (clear_field things here x) [
      | none ↦ set_here t x false
      | some cleared ↦ add_down cleared x
    ]

-- `__internalAddThing`, used while the map is loaded, puts an item behind those of the same order.
unfoldable pub insert_top_behind : (ℕ → Thing) → ℕ → List ℕ → List ℕ
insert_top_behind things x [] = x ∷ []
insert_top_behind things x (y ∷ ys) =
    let rest = insert_top_behind things x ys in
    if leb (things y).top_order (things x).top_order then y ∷ rest else x ∷ y ∷ ys

unfoldable pub internal_add_thing : (ℕ → Thing) → Tile → ℕ → Tile
unfolding insert_top_behind add_creature add_down
internal_add_thing things t x =
    let here = set_here t x true in
    if not (things x).get_item
    then add_creature t x
    else if leb 0xFFFF (length t.items)
    then here
    else if (things x).is_ground
    then elim t.ground [
      | none ↦ record here { ground = some x; thing_count = t.thing_count + 1 }
      | some g ↦ here
    ]
    else if (things x).always_on_top
    then record here {
      items = down_items t ++ insert_top_behind things x (top_items t);
      thing_count = t.thing_count + 1;
    }
    else add_down here x
