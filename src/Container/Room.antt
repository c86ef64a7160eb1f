-- ===== src/Container/Room.antt =====
-- How many items a container takes: `full`, `__queryAdd`, `__queryMaxCount` and `__addThing`.
use darghos_tfs04_86_v.Base.{
  ℕ, suc, ◌+◌, ◌-◌, ◌*◌, ◌≤◌, ◌<◌, ◌≡◌, ◌≢◌, refl, ◌∙◌, Bool, true, false, not, ◌&&◌, Option, none,
  some, List, [], ◌∷◌, length, ltb, ◌==◌, arith, ==_iff, if◌then◌else◌,
}
use darghos_tfs04_86_v.Container.{
  Store, no_error, container_not_enough_room, Flags, is_item, type_of, max_size, capacity, full,
}
use darghos_tfs04_86_v.Container.Queries.{
  Answer, query_add, query_room, query_max_count, room_in_stacks, get_thing,
}
use darghos_tfs04_86_v.Container.Changes.{add_thing, push_front, remove_thing}

module _ (s : Store) (c x : ℕ) where
  size-push_front :
      (c == x) ≡ false
      → length ((push_front s c x).things c).item_list ≡ suc (length (s.things c).item_list)
  unfolding push_front
  size-push_front h = ground arith

  kind-push_front : (y : ℕ) → ((push_front s c x).things y).kind ≡ (s.things y).kind
  unfolding push_front
  kind-push_front y = ground (arith, ==_iff y c, ==_iff y x)

-- The tests on room that an acceptance at INDEX_WHEREEVER has passed.
query_add-room :
    (n : ℕ) (s : Store) (ask : Answer) (c x count : ℕ) (flags : Flags)
    → flags.child_is_owner ≡ false
    → flags.no_limit ≡ false
    → query_add n s ask c none x count flags ≡ some no_error
    → (full s c ≡ false) × ((c == x) ≡ false) × (is_item (s.things x).kind ≡ true)
unfolding query_add query_room
query_add-room n s ask c x count flags direct limited h =
    (ground arith, ground (arith, ==_iff c x, ==_iff x c), ground arith)

-- Where a container accepts a thing at INDEX_WHEREEVER, without the flags that lift its limits, it
-- has a `maxSize`, and with the thing in front it holds one item more and no more than `maxSize`.
pub query_add-size :
    (n : ℕ) (s : Store) (ask : Answer) (c x count : ℕ) (flags : Flags)
    → flags.child_is_owner ≡ false
    → flags.no_limit ≡ false
    → query_add n s ask c none x count flags ≡ some no_error
    → (length ((add_thing s c none x).things c).item_list ≡ suc (length (s.things c).item_list))
      × (length ((add_thing s c none x).things c).item_list ≤ max_size (s.things c).kind)
unfolding full add_thing
query_add-size n s ask c x count flags direct limited h =
    let tests = query_add-room n s ask c x count flags direct limited h in
    let size = size-push_front s c x tests.1 in (ground arith, ground arith)

-- A container without a `maxSize` refuses every thing at INDEX_WHEREEVER, unless a flag lifts its
-- limits, although below 255 items its capacity is one more than its items.
pub unlimited-refuses :
    (n : ℕ) (s : Store) (ask : Answer) (c x count : ℕ) (flags : Flags)
    → flags.child_is_owner ≡ false
    → flags.no_limit ≡ false
    → max_size (s.things c).kind ≡ 0
    → length (s.things c).item_list < 255
    → (capacity s c ≡ suc (length (s.things c).item_list))
      × (query_add n s ask c none x count flags ≢ some no_error)
unfolding capacity full
unlimited-refuses n s ask c x count flags direct limited unlimited h = (
  ground arith,
  λ e.
      let tests = query_add-room n s ask c x count flags direct limited e in
      absurd (ground (arith, tests.0)),
)

-- A full container has no room for a stackable item at INDEX_WHEREEVER, whatever room the stacks
-- in it have, since they are not looked at.
pub query_max_count-wherever :
    (s : Store) (allows : ℕ → ℕ → Bool) (c x count : ℕ) (flags : Flags)
    → is_item (s.things x).kind ≡ true
    → (type_of s x).stackable ≡ true
    → flags.no_limit ≡ false
    → query_max_count s allows c none x count flags ≡ (
        let most = (capacity s c - length (s.things c).item_list) * 100 in
        (if ltb most count then container_not_enough_room else no_error, most))
unfolding query_max_count room_in_stacks get_thing
query_max_count-wherever s allows c x count flags item stacks limited = ground arith

-- Things put into a container one after the other.
abbrev pub add_all : Store → ℕ → List ℕ → Store
add_all s c [] = s
add_all s c (x ∷ xs) = add_all (add_thing s c none x) c xs

abbrev pub other_items : Store → ℕ → List ℕ → Bool
other_items s c [] = true
other_items s c (x ∷ xs) = is_item (s.things x).kind && not (c == x) && other_items s c xs

kind-add_thing :
    (s : Store) (c x y : ℕ) → ((add_thing s c none x).things y).kind ≡ (s.things y).kind
unfolding add_thing
kind-add_thing s c x y = ground (arith, kind-push_front s c x y)

other_items-add_thing :
    (s : Store) (c x : ℕ) (xs : List ℕ)
    → other_items (add_thing s c none x) c xs ≡ other_items s c xs
other_items-add_thing s c x [] = refl
other_items-add_thing s c x (y ∷ ys) =
    ground (arith, kind-add_thing s c x y, other_items-add_thing s c x ys)

size-add_thing :
    (s : Store) (c x : ℕ)
    → is_item (s.things x).kind ≡ true
    → (c == x) ≡ false
    → length ((add_thing s c none x).things c).item_list ≡ suc (length (s.things c).item_list)
unfolding add_thing
size-add_thing s c x item ne = ground (arith, size-push_front s c x ne)

add_all-lem :
    (s : Store) (c : ℕ) (xs : List ℕ)
    → other_items s c xs ≡ true
    → (length ((add_all s c xs).things c).item_list ≡ length (s.things c).item_list + length xs)
      × (((add_all s c xs).things c).kind ≡ (s.things c).kind)
add_all-lem s c [] h = (omega arith, refl)
add_all-lem s c (x ∷ xs) h =
    let rest =
      add_all-lem (add_thing s c none x) c xs (ground (arith, other_items-add_thing s c x xs)) in
    (ground (arith, rest.0, size-add_thing s c x), rest.1 ∙ kind-add_thing s c x c)

-- Where a container with a `maxSize` says how many things like an item that does not stack may be
-- put into it, any items, no more than that many, can be put into it one after the other: it is
-- full before none of them, and holds no more than `maxSize` behind them.
pub query_max_count-fits :
    (s : Store) (allows : ℕ → ℕ → Bool) (c : ℕ) (index : Option ℕ) (x count : ℕ) (flags : Flags)
    (most : ℕ)
    → flags.no_limit ≡ false
    → (type_of s x).stackable ≡ false
    → 0 < max_size (s.things c).kind
    → query_max_count s allows c index x count flags ≡ (no_error, most)
    → (xs : List ℕ) → other_items s c xs ≡ true
    → length xs ≤ most
    → (length ((add_all s c xs).things c).item_list ≤ max_size (s.things c).kind)
      × (length xs < most → full (add_all s c xs) c ≡ false)
unfolding query_max_count capacity full
query_max_count-fits s allows c index x count flags most limited single sized e xs h k =
    let rest = add_all-lem s c xs h in (ground (arith, rest.0), λ l. ground (arith, rest.0, rest.1))

-- Taking a thing out again, whole, undoes putting it in: where the thing lay nowhere and in no list,
-- every thing is as before.
pub remove_thing-add_thing :
    (s : Store) (c x count : ℕ)
    → is_item (s.things x).kind ≡ true
    → (c == x) ≡ false
    → (s.things x).parent ≡ none
    → ((type_of s x).stackable && not (count == (s.things x).count)) ≡ false
    → (y : ℕ) → (remove_thing (add_thing s c none x) c x count).things y ≡ s.things y
unfolding remove_thing add_thing push_front
remove_thing-add_thing s c x count item ne free whole y =
    ground (arith, ==_iff y c, ==_iff y x, ==_iff x x, ==_iff c c, ==_iff x c)
