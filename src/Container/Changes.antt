-- ===== src/Container/Changes.antt =====
-- The changes of containers: what they do to the lists of items and to the parents. An item's own
-- change of type, `__updateThing`, is left out, since it depends on the attributes of items.
use darghos_tfs04_86_v.Base.{
  ℕ, suc, ◌-◌, not, ◌&&◌, ◌||◌, Option, none, some, List, [], ◌∷◌, ◌++◌, set, get_elem?, leb, ◌==◌,
  if◌then◌else◌, mem, remove, update,
}
use darghos_tfs04_86_v.Container.{Store, is_item, type_of, capacity}

-- `setParent`.
abbrev pub set_parent : Store → ℕ → Option ℕ → Store
set_parent s x parent = record s {
  things = update s.things x (record (s.things x) { parent = parent });
}

abbrev pub set_items : Store → ℕ → List ℕ → Store
set_items s c items = record s {
  things = update s.things c (record (s.things c) { item_list = items });
}

-- `addItem`, behind the others.
unfoldable pub add_item : Store → ℕ → ℕ → Store
add_item s c x = set_parent (set_items s c ((s.things c).item_list ++ x ∷ [])) x (some c)

-- The item in front of the others.
unfoldable pub push_front : Store → ℕ → ℕ → Store
push_front s c x = set_items (set_parent s x (some c)) c (x ∷ (s.things c).item_list)

-- `__addThing` at an index, which only has to be below the capacity; INDEX_WHEREEVER is.
unfoldable pub add_thing : Store → ℕ → Option ℕ → ℕ → Store
unfolding push_front
add_thing s c none x = if not (is_item (s.things x).kind) then s else push_front s c x
add_thing s c (some index) x =
    if leb (capacity s c) index || not (is_item (s.things x).kind) then s else push_front s c x

-- `__internalAddThing`.
unfoldable pub internal_add_thing : Store → ℕ → ℕ → Store
unfolding push_front
internal_add_thing s c x = if not (is_item (s.things x).kind) then s else push_front s c x

-- `__replaceThing`: the new item takes the place, and the old one has no parent any more.
unfoldable pub replace_thing : Store → ℕ → ℕ → ℕ → Store
replace_thing s c index x = elim (get_elem? (s.things c).item_list index) [
  | none ↦ s
  | some y ↦
      if not (is_item (s.things x).kind)
      then s
      else set_parent (set_parent (set_items s c (set (s.things c).item_list index x)) x (some c)) y
          none
]

-- `__getIndexOfThing`; none is -1.
unfoldable pub get_index_of_thing : List ℕ → ℕ → Option ℕ
get_index_of_thing [] x = none
get_index_of_thing (y ∷ ys) x =
    if y == x
    then some 0
    else elim (get_index_of_thing ys x) [ none ↦ none | some i ↦ some (suc i) ]

-- `__removeThing`: a part of a stack, or the item. The counts are 16-bit words, the difference an
-- `int32_t` that does not fall below 0.
unfoldable pub remove_thing : Store → ℕ → ℕ → ℕ → Store
remove_thing s c x count =
    if not (is_item (s.things x).kind) || not (mem x (s.things c).item_list)
    then s
    else if (type_of s x).stackable && not (count == (s.things x).count)
    then record s {
      things = update s.things x (record (s.things x) { count = (s.things x).count - count });
    }
    else set_items (set_parent s x none) c (remove x (s.things c).item_list)
