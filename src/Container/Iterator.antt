-- ===== src/Container/Iterator.antt =====
-- ContainerIterator: the items in a container and in the containers within it, level by level.
use darghos_tfs04_86_v.Base.{
  ℕ, zero, suc, Bool, not, ◌&&◌, Option, none, some, List, [], ◌∷◌, ◌++◌, length, is_empty, mem,
  if◌then◌else◌,
}
use darghos_tfs04_86_v.Container.{Store, is_container}

-- `over` holds the containers still to read, the front one being read; `current` is what is left
-- of its list from the current item on.
pub record Iterator : Type 0 where
  pub over : List ℕ
  pub current : List ℕ

unfoldable pub begin : Store → ℕ → Iterator
begin s c =
    if is_empty (s.things c).item_list
    then record { over = []; current = [] }
    else record { over = c ∷ []; current = (s.things c).item_list }

-- What `operator++` does once the list of the front container is read.
abbrev pub next_list : Store → List ℕ → Iterator
next_list s [] = record { over = []; current = [] }
next_list s (c ∷ over) = record { over = c ∷ over; current = (s.things c).item_list }

-- The front container is popped.
abbrev pub pop : List ℕ → List ℕ
pop [] = []
pop (c ∷ over) = over

-- `over.push` for an item that is a container and not empty.
abbrev pub pushed : Store → List ℕ → ℕ → List ℕ
pushed s over x =
    if is_container (s.things x).kind && not (is_empty (s.things x).item_list)
    then over ++ x ∷ []
    else over

-- `operator++` at the current item `x`, with `rest` behind it in its list.
unfoldable pub advance : Store → List ℕ → ℕ → List ℕ → Iterator
advance s over x [] = next_list s (pop (pushed s over x))
advance s over x (y ∷ rest) = record { over = pushed s over x; current = y ∷ rest }

-- The items that a loop from `begin` to `end` reads, in order; none means that the fuel ran out.
unfoldable pub visit : ℕ → Store → (over current : List ℕ) → Option (List ℕ)
unfolding advance
visit n s [] current = some []
visit n s (c ∷ over) [] = some []
visit zero s (c ∷ over) (x ∷ rest) = none
visit (suc n) s (c ∷ over) (x ∷ rest) =
    let it = advance s (c ∷ over) x rest in
    elim (visit n s it.over it.current) [ none ↦ none | some xs ↦ some (x ∷ xs) ]

unfoldable pub items_within : ℕ → Store → ℕ → Option (List ℕ)
unfolding begin visit
items_within n s c = let it = begin s c in visit n s it.over it.current

-- `getItemHoldingCount`.
unfoldable pub get_item_holding_count : ℕ → Store → ℕ → Option ℕ
unfolding items_within
get_item_holding_count n s c = elim (items_within n s c) [
  | none ↦ none
  | some xs ↦ some (length xs)
]

-- `isHoldingItem`.
unfoldable pub is_holding_item : ℕ → Store → ℕ → ℕ → Option Bool
unfolding items_within
is_holding_item n s c x = elim (items_within n s c) [ none ↦ none | some xs ↦ some (mem x xs) ]
