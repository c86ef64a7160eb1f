-- ===== src/Container.antt =====
-- container.h, container.cpp and depot.cpp: the items in containers, as a store of things that point
-- to one another. A thing is named by a number that stands for its address. Weights are `double`s
-- and are left out, and so is what is sent to the clients and notified to tiles and players.
pub mod Iterator
pub mod Queries
pub mod Changes
pub mod Inside
pub mod Inv
pub mod Room
pub mod Breadth
pub mod Ancestors
pub mod Destination
pub mod DepotLimit
mod Tests
use darghos_tfs04_86_v.Base.{
  ℕ, zero, suc, ◌+◌, ◌-◌, Bool, true, false, not, ◌&&◌, ◌||◌, Option, none, some, List, [], ◌∷◌,
  length, ltb, leb, ◌==◌, if◌then◌else◌, min,
}

-- What a thing is: a creature that holds nothing, a player, a tile, an item, a container with its
-- `maxSize`, or a depot with its `maxSize` and its `depotLimit`. A fixture is a teleport, a mailbox or
-- a trash holder, an item that is a cylinder, but that passes on what is added to it.
pub data Kind : Type 0 where
  creature player tile plain_item fixture : Kind
  container : ℕ → Kind
  depot : ℕ → ℕ → Kind

-- What the item table says of an item's type.
pub record ItemType : Type 0 where
  pub stackable : Bool
  pub pickupable : Bool
  pub moveable : Bool

-- `item_list` is used by containers only.
pub record Thing : Type 0 where
  pub kind : Kind
  pub id : ℕ
  pub count : ℕ
  pub parent : Option ℕ
  pub item_list : List ℕ

pub record Store : Type 0 where
  pub things : ℕ → Thing
  pub types : ℕ → ItemType

-- The answers that containers give; `other_error` stands for those of players and tiles.
pub data ReturnValue : Type 0 where
  no_error not_possible cannot_pickup this_is_impossible : ReturnValue
  container_not_enough_room not_moveable depot_is_full other_error : ReturnValue

-- The bits of `flags` that containers read.
pub record Flags : Type 0 where
  pub no_limit : Bool
  pub child_is_owner : Bool
  pub ignore_not_moveable : Bool

-- Does `getItem` give an item?
abbrev pub is_item : Kind → Bool
is_item creature = false
is_item player = false
is_item tile = false
is_item plain_item = true
is_item fixture = true
is_item (container n) = true
is_item (depot n limit) = true

abbrev pub is_container : Kind → Bool
is_container creature = false
is_container player = false
is_container tile = false
is_container plain_item = false
is_container fixture = false
is_container (container n) = true
is_container (depot n limit) = true

abbrev pub is_cylinder : Kind → Bool
is_cylinder creature = false
is_cylinder player = true
is_cylinder tile = true
is_cylinder plain_item = false
is_cylinder fixture = true
is_cylinder (container n) = true
is_cylinder (depot n limit) = true

-- May it be the parent of a thing?
abbrev pub can_hold : Kind → Bool
can_hold creature = false
can_hold player = true
can_hold tile = true
can_hold plain_item = false
can_hold fixture = false
can_hold (container n) = true
can_hold (depot n limit) = true

-- `maxSize`, of a container.
abbrev pub max_size : Kind → ℕ
max_size creature = 0
max_size player = 0
max_size tile = 0
max_size plain_item = 0
max_size fixture = 0
max_size (container n) = n
max_size (depot n limit) = n

-- `getDepot`, with the limit.
abbrev pub depot_limit : Kind → Option ℕ
depot_limit creature = none
depot_limit player = none
depot_limit tile = none
depot_limit plain_item = none
depot_limit fixture = none
depot_limit (container n) = none
depot_limit (depot n limit) = some limit

abbrev pub type_of : Store → ℕ → ItemType
type_of s x = s.types (s.things x).id

-- `capacity`, `size`, `full` and `empty`. Without a `maxSize`, `full` returns 255, which is true.
unfoldable pub capacity : Store → ℕ → ℕ
capacity s c =
    if max_size (s.things c).kind == 0
    then min 255 (length (s.things c).item_list + 1)
    else max_size (s.things c).kind

unfoldable pub full : Store → ℕ → Bool
full s c =
    if max_size (s.things c).kind == 0
    then true
    else leb (max_size (s.things c).kind) (length (s.things c).item_list)

-- `Thing::getTopParent`, for a cylinder that stands on or in others: the last cylinder below the
-- outermost one. The fuel is for the steps to it; none means that it ran out.
unfoldable pub climb : ℕ → Store → (prev aux : ℕ) → Option ℕ
climb zero s prev aux = none
climb (suc n) s prev aux = elim (s.things aux).parent [
  | none ↦ if is_cylinder (s.things prev).kind then some prev else some aux
  | some up ↦ climb n s aux up
]

unfoldable pub get_top_parent : ℕ → Store → ℕ → Option ℕ
unfolding climb
get_top_parent n s x = elim (s.things x).parent [ none ↦ some x | some aux ↦ climb n s x aux ]
