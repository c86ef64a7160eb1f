-- ===== src/Tile/Tests.antt =====
-- A tile with a ground, a splash, a bottle and a creature, and what the theorems say of it.
use darghos_tfs04_86_v.Base.{
  ℕ, ◌≡◌, ◌↔◌, refl, true, false, none, some, List, [], ◌∷◌, ◌==◌, ◌||◌, arith, subst, ◌&&◌,
  get_elem?,
}
use darghos_tfs04_86_v.Tile.{Thing, Tile, get_index_of_thing, get_thing, index_above, index_in}
use darghos_tfs04_86_v.Tile.Changes.{
  add_thing, remove_thing, remove_top, add_top, insert_top, clear_splash, first_splash,
}
use darghos_tfs04_86_v.Tile.Order.{View}
use darghos_tfs04_86_v.Tile.Index.{get_index_of_thing-get_thing}
use darghos_tfs04_86_v.Tile.Leaving.{IsRemoved, remove_thing-IsRemoved}
use darghos_tfs04_86_v.Tile.Arrival.{HasShape, add_thing-HasShape}

abbrev bottle : Thing
bottle = record {
  get_item = true;
  is_ground = false;
  always_on_top = false;
  top_order = 0;
  is_splash = false;
  field = none;
  stackable = false;
}

abbrev grass : Thing
grass = record bottle { is_ground = true }

abbrev splash : Thing
splash = record bottle { always_on_top = true; top_order = 2; is_splash = true }

abbrev rat : Thing
rat = record bottle { get_item = false }

-- 0 is the ground, 1 and 4 are splashes, 2 is a bottle, and 3 a rat.
abbrev all_things : List Thing
all_things = grass ∷ splash ∷ bottle ∷ rat ∷ splash ∷ []

abbrev things : ℕ → Thing
things y = elim (get_elem? all_things y) [ none ↦ bottle | some k ↦ k ]

abbrev meadow : Tile
meadow = record {
  ground = some 0;
  items = 2 ∷ 1 ∷ [];
  down_item_count = 1;
  creatures = 3 ∷ [];
  thing_count = 4;
  counts = λ y. 1;
  is_here = λ y. 0 == y || y == 2 || y == 1;
}

meadow-View : View things meadow (2 ∷ []) (1 ∷ [])
meadow-View = record {
  split = refl;
  down_count = refl;
  downs = refl;
  tops = refl;
  standing = refl;
  grounds = λ x e.
      let same : 0 ≡ x = ground arith in
      subst (λ z. ((things z).get_item && (things z).is_ground) ≡ true) same refl;
  in_order = refl;
  once_down = refl;
  once_top = refl;
  once_creatures = refl;
  counted = refl;
  parents = λ x i. ground arith;
}

get_index_of_thing-get_thing_example :
    (get_index_of_thing things meadow 2 ≡ some 3) ↔ (get_thing meadow 3 ≡ some 2)
get_index_of_thing-get_thing_example =
    get_index_of_thing-get_thing things meadow (2 ∷ []) (1 ∷ []) meadow-View 2 3

index_of_bottle : get_index_of_thing things meadow 2 ≡ some 3
unfolding get_index_of_thing index_above index_in
index_of_bottle = refl

remove_thing-IsRemoved_example :
    IsRemoved things meadow (2 ∷ []) (1 ∷ []) 1 (remove_thing things meadow 1 1)
remove_thing-IsRemoved_example =
    remove_thing-IsRemoved things meadow (2 ∷ []) (1 ∷ []) 1 1 meadow-View refl

-- A new splash takes the place of the old one.
add_thing-HasShape_example : HasShape things (add_thing things meadow 4)
add_thing-HasShape_example =
    add_thing-HasShape things meadow (2 ∷ []) (1 ∷ []) 4 meadow-View refl refl

new_splash : (add_thing things meadow 4).items ≡ 2 ∷ 4 ∷ []
unfolding add_thing clear_splash first_splash remove_thing remove_top add_top insert_top
    get_index_of_thing index_above index_in
new_splash = refl
