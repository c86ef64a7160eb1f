-- ===== src/Container/Queries.antt =====
-- The queries of containers. An index is none for INDEX_WHEREEVER.
use darghos_tfs04_86_v.Base.{
  ℕ, zero, suc, ◌+◌, ◌-◌, ◌*◌, Bool, true, false, not, ◌&&◌, ◌||◌, Option, none, some, List, [],
  ◌∷◌, length, get_elem?, ltb, ◌==◌, if◌then◌else◌, max, mem,
}
use darghos_tfs04_86_v.Container.{
  Store, ReturnValue, no_error, not_possible, cannot_pickup, this_is_impossible,
  container_not_enough_room, not_moveable, depot_is_full, Flags, is_item, is_container, type_of,
  capacity, full, get_top_parent, depot_limit,
}
use darghos_tfs04_86_v.Container.Iterator.{get_item_holding_count}

-- The loop of `__queryAdd` over the cylinders around a container.
unfoldable pub has_ancestor : ℕ → Store → ℕ → Option ℕ → Option Bool
has_ancestor n s target none = some false
has_ancestor zero s target (some cylinder) = none
has_ancestor (suc n) s target (some cylinder) =
    let rest = has_ancestor n s target (s.things cylinder).parent in
    if cylinder == target then some true else rest

-- The answer of a player or a tile, which has limits of its own, for a container it holds.
abbrev pub Answer : Type 0
Answer = ℕ → ℕ → ℕ → ReturnValue

-- `addCount` of `Depot::__queryAdd`.
unfoldable pub add_count : ℕ → Store → ℕ → ℕ → ℕ → Option ℕ
unfolding get_top_parent get_item_holding_count
add_count n s d x count =
    let part = if (type_of s x).stackable && not ((s.things x).count == count) then 1 else 0 in
    let whole =
      if is_container (s.things x).kind
      then elim (get_item_holding_count n s x) [ none ↦ none | some held ↦ some (held + 1) ]
      else some 1 in
    elim (get_top_parent n s x) [ none ↦ none | some top ↦ if top == d then some part else whole ]

-- The test of `Depot::__queryAdd` on its limit.
unfoldable pub over_limit : ℕ → Store → ℕ → ℕ → ℕ → ℕ → Option Bool
unfolding add_count get_item_holding_count
over_limit n s d limit x count = elim (add_count n s d x count) [
  | none ↦ none
  | some more ↦ elim (get_item_holding_count n s d) [
    | none ↦ none
    | some held ↦ some (ltb limit (held + more))
  ]
]

-- What the top parent answers to FLAG_CHILDISOWNER: a depot tests its limit, and after it or at
-- once a container accepts.
unfoldable pub top_answer : ℕ → Store → Answer → ℕ → ℕ → ℕ → Flags → Option ReturnValue
unfolding over_limit
top_answer n s ask top x count flags = elim (depot_limit (s.things top).kind) [
  | none ↦ if is_container (s.things top).kind then some no_error else some (ask top x count)
  | some limit ↦
      if not (is_item (s.things x).kind)
      then some not_possible
      else if flags.no_limit
      then some no_error
      else elim (over_limit n s top limit x count) [
        | none ↦ none
        | some true ↦ some depot_is_full
        | some false ↦ some no_error
      ]
]

-- The end of `__queryAdd`.
unfoldable pub query_top : ℕ → Store → Answer → ℕ → ℕ → ℕ → Flags → Option ReturnValue
unfolding top_answer get_top_parent
query_top n s ask c x count flags = elim (get_top_parent n s c) [
  | none ↦ none
  | some top ↦ if top == c then some no_error else top_answer n s ask top x count flags
]

-- `__queryAdd` behind the tests on the item itself.
unfoldable pub query_room : ℕ → Store → Answer → ℕ → Option ℕ → ℕ → ℕ → Flags → Option ReturnValue
unfolding query_top
query_room n s ask c none x count flags =
    if not flags.no_limit && full s c
    then some container_not_enough_room
    else query_top n s ask c x count flags
query_room n s ask c (some index) x count flags = query_top n s ask c x count flags

-- `Container::__queryAdd`; none means that the fuel for the loops ran out.
unfoldable pub query_add : ℕ → Store → Answer → ℕ → Option ℕ → ℕ → ℕ → Flags → Option ReturnValue
unfolding has_ancestor query_room
query_add n s ask c index x count flags =
    let looped =
      if is_container (s.things x).kind
      then has_ancestor n s x (s.things c).parent
      else some false in
    if flags.child_is_owner
    then some no_error
    else if not (is_item (s.things x).kind)
    then some not_possible
    else if not (type_of s x).pickupable
    then some cannot_pickup
    else if x == c
    then some this_is_impossible
    else elim looped [
      | none ↦ none
      | some true ↦ some this_is_impossible
      | some false ↦ query_room n s ask c index x count flags
    ]

-- `Depot::__queryAdd`.
unfoldable pub depot_query_add :
    ℕ → Store → Answer → ℕ → ℕ → Option ℕ → ℕ → ℕ → Flags → Option ReturnValue
unfolding over_limit query_add
depot_query_add n s ask d limit index x count flags =
    if not (is_item (s.things x).kind)
    then some not_possible
    else if flags.no_limit
    then query_add n s ask d index x count flags
    else elim (over_limit n s d limit x count) [
      | none ↦ none
      | some true ↦ some depot_is_full
      | some false ↦ query_add n s ask d index x count flags
    ]

-- Room that a stack has for an item that joins it.
unfoldable pub remainder : Store → ℕ → ℕ → ℕ
remainder s x y =
    if (s.things y).id == (s.things x).id && ltb (s.things y).count 100
    then 100 - (s.things y).count
    else 0

-- The loop over all items, each asked for its own slot. `allows` is `__queryAdd` for an index.
unfoldable pub stack_room : Store → (ℕ → ℕ → Bool) → ℕ → ℕ → List ℕ → ℕ
unfolding remainder
stack_room s allows x slot [] = 0
stack_room s allows x slot (y ∷ ys) =
    let n = if y == x then 0 else remainder s x y in
    (if allows slot n then n else 0) + stack_room s allows x (suc slot) ys

-- `__getThing` of INDEX_WHEREEVER is null, since -1 is beyond any size as a `uint32_t`.
unfoldable pub get_thing : Store → ℕ → Option ℕ → Option ℕ
get_thing s c none = none
get_thing s c (some index) = get_elem? (s.things c).item_list index

-- The free room in stacks. The branches are as in the source: all items for a given index, and the
-- item at the index for INDEX_WHEREEVER.
unfoldable pub room_in_stacks : Store → (ℕ → ℕ → Bool) → ℕ → Option ℕ → ℕ → ℕ
unfolding stack_room get_thing remainder
room_in_stacks s allows c (some index) x = stack_room s allows x 0 (s.things c).item_list
room_in_stacks s allows c none x = elim (get_thing s c none) [
  | none ↦ 0
  | some y ↦ let n = remainder s x y in if allows 0 n then n else 0
]

-- `Container::__queryMaxCount`: the value, and the largest count.
unfoldable pub query_max_count :
    Store → (ℕ → ℕ → Bool) → ℕ → Option ℕ → ℕ → ℕ → Flags → ReturnValue × ℕ
unfolding room_in_stacks
query_max_count s allows c index x count flags =
    let free_slots = capacity s c - length (s.things c).item_list in
    let most = free_slots * 100 + room_in_stacks s allows c index x in
    if not (is_item (s.things x).kind)
    then (not_possible, 0)
    else if flags.no_limit
    then (no_error, max 1 count)
    else if (type_of s x).stackable
    then (if ltb most count then (container_not_enough_room, most) else (no_error, most))
    else if free_slots == 0
    then (container_not_enough_room, free_slots)
    else (no_error, free_slots)

-- `Container::__queryRemove`.
unfoldable pub query_remove : Store → ℕ → ℕ → ℕ → Flags → ReturnValue
query_remove s c x count flags =
    if not (mem x (s.things c).item_list)
    then not_possible
    else if not (is_item (s.things x).kind)
    then not_possible
    else if count == 0 || (type_of s x).stackable && ltb (s.things x).count count
    then not_possible
    else if not (type_of s x).moveable && not flags.ignore_not_moveable
    then not_moveable
    else no_error
