-- ===== src/Container/Destination.antt =====
-- `Container::__queryDestination`: where an item that a player drops on a container goes.
use darghos_tfs04_86_v.Base.{
  ℕ, suc, ◌+◌, ◌≡◌, ◌⊎◌, refl, true, not, ◌&&◌, ◌||◌, Option, none, some, List, [], ◌∷◌, get_elem?,
  ltb, leb, ◌==◌, arith, Bool-cases, Option-cases, inl, inr, if◌then◌else◌,
}
use darghos_tfs04_86_v.Container.{Store, is_item, is_container, is_cylinder, type_of, capacity}
use darghos_tfs04_86_v.Container.Queries.{get_thing}
use darghos_tfs04_86_v.Container.Inv.{belongs}

-- The cylinder that is returned, and what becomes of the index and of `destItem`.
pub record Destination : Type 0 where
  pub cylinder : ℕ
  pub index : Option ℕ
  pub dest_item : Option ℕ

-- A stack with room for an item, and its place.
unfoldable pub find_stack : Store → ℕ → ℕ → List ℕ → Option (ℕ × ℕ)
find_stack s x n [] = none
find_stack s x n (y ∷ ys) =
    let rest = find_stack s x (suc n) ys in
    if not (y == x) && (s.things y).id == (s.things x).id && ltb (s.things y).count 100
    then some (n, y)
    else rest

-- `dynamic_cast<Container*>(getParent())`, or the container itself.
unfoldable pub parent_container : Store → ℕ → ℕ
parent_container s c = elim (s.things c).parent [
  | none ↦ c
  | some up ↦ if is_container (s.things up).kind then up else c
]

-- `*destItem` after a look at the place: an item stands there, or it stays as it was.
unfoldable pub look_at : Store → ℕ → Option ℕ → Option ℕ → Option ℕ
unfolding get_thing
look_at s c index dest = elim (get_thing s c index) [
  | none ↦ dest
  | some y ↦ if is_item (s.things y).kind then some y else none
]

-- The end: the item at the place, or the cylinder that stands there.
unfoldable pub place : Store → ℕ → Option ℕ → Option ℕ → Destination
unfolding look_at
place s c none dest = record { cylinder = c; index = none; dest_item = dest }
place s c (some i) dest = elim (look_at s c (some i) dest) [
  | none ↦ record { cylinder = c; index = some i; dest_item = none }
  | some y ↦
      if is_cylinder (s.things y).kind
      then record { cylinder = y; index = none; dest_item = none }
      else record { cylinder = c; index = some i; dest_item = some y }
]

-- Behind the tests on the index.
unfoldable pub stack_or_place : Store → ℕ → ℕ → Option ℕ → Option ℕ → Destination
unfolding find_stack place
stack_or_place s c x index dest =
    let stack =
      if (type_of s x).stackable && not (belongs c (s.things x).parent)
      then find_stack s x 0 (s.things c).item_list
      else none in
    if not (is_item (s.things x).kind)
    then record { cylinder = c; index = index; dest_item = dest }
    else elim stack [
      | none ↦ place s c index dest
      | some (n, y) ↦ record { cylinder = c; index = some n; dest_item = some y }
    ]

-- The index is none for INDEX_WHEREEVER; 254 is the client's "move up", 255 its "add wherever".
unfoldable pub query_destination : Store → ℕ → Option ℕ → ℕ → Option ℕ → Destination
unfolding stack_or_place parent_container
query_destination s c none x dest = stack_or_place s c x none dest
query_destination s c (some index) x dest =
    if index == 254
    then record { cylinder = parent_container s c; index = none; dest_item = none }
    else if index == 255 || leb (capacity s c) index
    then stack_or_place s c x none none
    else stack_or_place s c x (some index) dest

-- An item in the container that is a cylinder itself: a container, or a fixture.
abbrev IsInner : Store → ℕ → ℕ → Type 0
IsInner s c y =
    (is_cylinder (s.things y).kind ≡ true)
    × ((i : ℕ) × (get_elem? (s.things c).item_list i ≡ some y))

-- The destination is a container, or a cylinder in the container that was asked, and a destination
-- item stands at the place in it.
abbrev pub IsPlaced : Store → ℕ → Destination → Type 0
IsPlaced s c d =
    ((is_container (s.things d.cylinder).kind ≡ true) ⊎ IsInner s c d.cylinder)
    × ((y : ℕ)
        → d.dest_item ≡ some y
        → (i : ℕ) × (d.index ≡ some i) × (get_elem? (s.things d.cylinder).item_list i ≡ some y))

find_stack-get_elem? :
    (s : Store) (x n : ℕ) (ys : List ℕ) (found : ℕ × ℕ)
    → find_stack s x n ys ≡ some found
    → (k : ℕ) × (found.0 ≡ n + k) × (get_elem? ys k ≡ some found.1)
unfolding find_stack
find_stack-get_elem? s x n [] found h = cc
find_stack-get_elem? s x n (y ∷ ys) found h =
    elim (Bool-cases
      (not (y == x) && (s.things y).id == (s.things x).id && ltb (s.things y).count 100)) [
        | inl fits ↦ (0, ground arith, ground arith)
        | inr other ↦
            let rest = find_stack-get_elem? s x (suc n) ys found (ground arith) in
            (suc rest.0, omega (arith, rest.1), rest.2)
      ]

module _ (s : Store) (c : ℕ) (box : is_container (s.things c).kind ≡ true) where
  bare-IsPlaced :
      (index : Option ℕ) → IsPlaced s c record { cylinder = c; index = index; dest_item = none }
  bare-IsPlaced index = (inl box, λ y e. cc)

  at-IsPlaced :
      (i y : ℕ)
      → get_elem? (s.things c).item_list i ≡ some y
      → IsPlaced s c record { cylinder = c; index = some i; dest_item = some y }
  at-IsPlaced i y e = (inl box, λ z h. (i, refl, ground arith))

  place-IsPlaced : (index : Option ℕ) → IsPlaced s c (place s c index none)
  unfolding place look_at get_thing
  place-IsPlaced none = bare-IsPlaced none
  place-IsPlaced (some i) = elim (Option-cases (get_elem? (s.things c).item_list i)) [
    | inl empty ↦ rw (place, look_at, get_thing, empty) (bare-IsPlaced (some i))
    | inr (y, e) ↦ elim (Bool-cases (is_item (s.things y).kind)) [
      | inr other ↦ rw (place, look_at, get_thing, e, other) (bare-IsPlaced (some i))
      | inl item ↦ elim (Bool-cases (is_cylinder (s.things y).kind)) [
        | inl nested ↦
            rw (place, look_at, get_thing, e, item, nested) (inr (nested, (i, e)), λ z h. cc)
        | inr leaf ↦ rw (place, look_at, get_thing, e, item, leaf) (at-IsPlaced i y e)
      ]
    ]
  ]

  stack_or_place-IsPlaced :
      (x : ℕ) (index : Option ℕ) → IsPlaced s c (stack_or_place s c x index none)
  unfolding stack_or_place
  stack_or_place-IsPlaced x index = elim (Bool-cases (is_item (s.things x).kind)) [
    | inr other ↦ rw (stack_or_place, other) (bare-IsPlaced index)
    | inl item ↦
        elim (Bool-cases ((type_of s x).stackable && not (belongs c (s.things x).parent))) [
          | inr single ↦ rw (stack_or_place, item, single) (place-IsPlaced index)
          | inl joins ↦ elim (Option-cases (find_stack s x 0 (s.things c).item_list)) [
            | inl no_stack ↦ rw (stack_or_place, item, joins, no_stack) (place-IsPlaced index)
            | inr (found, e) ↦
                let stack = find_stack-get_elem? s x 0 (s.things c).item_list found e in
                rw (stack_or_place, item, joins, e)
                  (at-IsPlaced found.0 found.1 (ground (arith, stack.1, stack.2)))
          ]
        ]
  ]

  parent_container-box : is_container (s.things (parent_container s c)).kind ≡ true
  unfolding parent_container
  parent_container-box = elim (Option-cases (s.things c).parent) [
    | inl alone ↦ rw (parent_container, alone) box
    | inr (up, e) ↦ ground arith
  ]

-- For a container and no destination item so far, whatever the index, the answer is a container, or
-- an item of this container that is a cylinder itself, such as a mailbox, and a destination item
-- comes with its index in the list of the answer.
pub query_destination-IsPlaced :
    (s : Store) (c : ℕ) (index : Option ℕ) (x : ℕ)
    → is_container (s.things c).kind ≡ true
    → IsPlaced s c (query_destination s c index x none)
unfolding query_destination
query_destination-IsPlaced s c none x box = stack_or_place-IsPlaced s c box x none
query_destination-IsPlaced s c (some i) x box = elim (Bool-cases (i == 254)) [
  | inl up ↦ rw (query_destination, up) (inl (parent_container-box s c box), λ y h. cc)
  | inr other ↦ elim (Bool-cases (i == 255 || leb (capacity s c) i)) [
    | inl wherever ↦
        rw (query_destination, other, wherever) (stack_or_place-IsPlaced s c box x none)
    | inr inside ↦
        rw (query_destination, other, inside) (stack_or_place-IsPlaced s c box x (some i))
  ]
]
