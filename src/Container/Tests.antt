-- ===== src/Container/Tests.antt =====
-- A backpack, a bag in it, and a depot, and what the theorems say of them.
use darghos_tfs04_86_v.Base.{
  ℕ, ◌≡◌, ◌≢◌, ◌≤◌, ◌<◌, ◌⊎◌, refl, true, false, none, some, List, [], ◌∷◌, arith, length,
  get_elem?, mem,
}
use darghos_tfs04_86_v.Container.{
  Kind, creature, tile, plain_item, container, depot, Store, no_error, depot_is_full, Flags, climb,
  get_top_parent, full, capacity, max_size,
}
use darghos_tfs04_86_v.Container.Iterator.{get_item_holding_count, is_holding_item}
use darghos_tfs04_86_v.Container.Queries.{
  Answer, has_ancestor, query_add, query_room, query_top, top_answer, query_max_count,
  room_in_stacks, depot_query_add,
}
use darghos_tfs04_86_v.Container.Changes.{set_parent, push_front, add_thing, remove_thing}
use darghos_tfs04_86_v.Container.Inv.{
  Inv, outermost, within, IsGrounded, IsOutside, top, push_front-Inv,
}
use darghos_tfs04_86_v.Container.Inside.{IsPutIn, add_thing-Inv, remove_thing-Inv}
use darghos_tfs04_86_v.Container.Ancestors.{IsAround, has_ancestor-IsGrounded}
use darghos_tfs04_86_v.Container.Breadth.{nothing, box, holding_count-IsListing}
use darghos_tfs04_86_v.Container.Room.{query_max_count-fits, add_all}
use darghos_tfs04_86_v.Container.Destination.{
  IsPlaced, query_destination, query_destination-IsPlaced,
}
use darghos_tfs04_86_v.Container.DepotLimit.{depot-limit}

-- 1 is a backpack, 2 and 3 are bags, 4 and 5 plain items, 6 a box without a size, 7 a depot, and 8 a tile.
abbrev kinds : List Kind
kinds =
    creature
    ∷ container 20
    ∷ container 8
    ∷ container 8
    ∷ plain_item
    ∷ plain_item
    ∷ container 0
    ∷ depot 30 1
    ∷ tile
    ∷ []

abbrev kind_of : ℕ → Kind
kind_of y = elim (get_elem? kinds y) [ none ↦ creature | some k ↦ k ]

abbrev ground_floor : Store
ground_floor = record {
  things = λ y. record { kind = kind_of y; id = y; count = 1; parent = none; item_list = [] };
  types = λ i. record { stackable = false; pickupable = true; moveable = true };
}

ground_floor-Inv : Inv ground_floor
ground_floor-Inv = record {
  agree = λ c x. ground arith;
  once = λ c. refl;
  held = λ c x h. cc;
  grounded = λ y. outermost y refl;
}

-- The bag 2 in the backpack.
abbrev packed : Store
packed = push_front ground_floor 1 2

packed-Inv : Inv packed
packed-Inv = push_front-Inv ground_floor 1 2 refl refl (top 1 refl refl) ground_floor-Inv

abbrev no_flags : Flags
no_flags = record { no_limit = false; child_is_owner = false; ignore_not_moveable = false }

abbrev ask : Answer
ask t x count = no_error

add_thing-Inv_example :
    IsPutIn packed 2 3 (some 1) (add_thing packed 2 (some 1) 3)
    × Inv (add_thing packed 2 (some 1) 3)
unfolding query_add has_ancestor query_room query_top top_answer get_top_parent climb full
    push_front
add_thing-Inv_example =
    add_thing-Inv 3 packed ask 2 none 3 1 no_flags packed-Inv refl refl refl refl (some 1)

remove_thing-Inv_example : Inv (remove_thing packed 1 2 1)
remove_thing-Inv_example = remove_thing-Inv packed 1 2 1 packed-Inv

holding_count-IsListing_example :
    (get_item_holding_count 1 packed 1 ≡ some 1)
    × ((x : ℕ) → is_holding_item 1 packed 1 x ≡ some (mem x (2 ∷ [])))
unfolding push_front
holding_count-IsListing_example =
    holding_count-IsListing packed 1 1 (2 ∷ []) (box 2 [] [] [] refl nothing nothing) (omega arith)

abbrev bag-IsGrounded : IsGrounded packed 2
unfolding push_front
bag-IsGrounded = within 2 1 refl (outermost 1 refl)

has_ancestor-IsGrounded_example :
    ((has_ancestor 1 packed 1 (packed.things 2).parent ≡ some true) × IsAround packed 1 2)
    ⊎ ((has_ancestor 1 packed 1 (packed.things 2).parent ≡ some false) × IsOutside packed 1 2)
unfolding push_front bag-IsGrounded
has_ancestor-IsGrounded_example =
    has_ancestor-IsGrounded packed 1 2 bag-IsGrounded 1 refl (omega arith)

query_max_count-fits_example :
    (length ((add_all packed 1 (4 ∷ 5 ∷ [])).things 1).item_list ≤ max_size (packed.things 1).kind)
    × (2 < 19 → full (add_all packed 1 (4 ∷ 5 ∷ [])) 1 ≡ false)
unfolding query_max_count capacity push_front room_in_stacks
query_max_count-fits_example =
    query_max_count-fits packed (λ i r. true) 1 none 4 1 no_flags 19 refl refl (omega arith) refl
      (4 ∷ 5 ∷ []) refl (omega arith)

query_destination-IsPlaced_example : IsPlaced packed 1 (query_destination packed 1 (some 0) 4 none)
unfolding push_front
query_destination-IsPlaced_example = query_destination-IsPlaced packed 1 (some 0) 4 refl

-- The bag 2 in the depot 7 on a tile, which has room for one item.
abbrev stored : Store
stored = push_front (set_parent ground_floor 7 (some 8)) 7 2

depot-limit_example :
    (depot_query_add 2 stored ask 7 1 none 4 1 no_flags ≡ some depot_is_full)
    × (query_add 2 stored ask 2 none 4 1 no_flags ≢ some no_error)
unfolding push_front get_top_parent climb
depot-limit_example =
    depot-limit 2 stored ask 7 1 2 4 1 none no_flags [] (2 ∷ []) 4 refl nothing
      (box 2 [] [] [] refl nothing nothing) (omega arith) (omega arith) refl refl refl refl refl
      refl refl refl
