-- ===== src/Container/Inside.antt =====
-- What `__queryAdd` finds out about the containers around, and how many steps it takes.
use darghos_tfs04_86_v.Base.{
  ℕ, zero, suc, ◌≡◌, refl, true, false, not, ◌&&◌, ◌||◌, Option, none, some, mem, subst, leb, ltb,
  ◌==◌, if◌then◌else◌, Bool, ◌∷◌, arith, Bool-cases, inl, inr, ==_iff,
}
use darghos_tfs04_86_v.Container.{
  Kind, creature, player, tile, plain_item, fixture, container, depot, Store, no_error, Flags,
  is_item, is_container, can_hold, type_of, capacity,
}
use darghos_tfs04_86_v.Container.Queries.{Answer, has_ancestor, query_add}
use darghos_tfs04_86_v.Container.Changes.{add_thing, push_front, remove_thing}
use darghos_tfs04_86_v.Container.Inv.{
  IsGrounded, outermost, within, Inv, IsOutside, top, inner, push_front-Inv, taken-Inv,
  same_shape-Inv, items-added, parent-added,
}

no_ancestor-IsOutside :
    (n : ℕ) (s : Store) (x c : ℕ) (o : Option ℕ)
    → (s.things c).parent ≡ o
    → (c == x) ≡ false
    → has_ancestor n s x o ≡ some false
    → IsOutside s x c
unfolding has_ancestor
no_ancestor-IsOutside n s x c none alone e h = top c e alone
no_ancestor-IsOutside zero s x c (some d) up e h = cc
no_ancestor-IsOutside (suc n) s x c (some d) up e h = elim (Bool-cases (d == x)) [
  | inl found ↦ absurd (ground arith)
  | inr other ↦
      inner c d e up (no_ancestor-IsOutside n s x d (s.things d).parent refl other (rw other at h))
]

-- A thing that holds nothing is outside of every cylinder.
plain-IsOutside :
    (s : Store) (x c : ℕ)
    → Inv s
    → can_hold (s.things x).kind ≡ false
    → IsGrounded s c
    → (c == x) ≡ false
    → IsOutside s x c
plain-IsOutside s x c v h (outermost _ alone) e = top c e alone
plain-IsOutside s x c v h (within _ d up g) e =
    inner c d e up
      (plain-IsOutside s x d v h g (ground (arith, v.held d c, ==_iff d x, ==_iff d d)))

item-not_can_hold : (k : Kind) → is_item k ≡ true → is_container k ≡ false → can_hold k ≡ false
item-not_can_hold creature h b = refl
item-not_can_hold player h b = cc
item-not_can_hold tile h b = cc
item-not_can_hold plain_item h b = refl
item-not_can_hold fixture h b = refl
item-not_can_hold (container n) h b = cc
item-not_can_hold (depot n limit) h b = cc

-- The tests that a container's acceptance has passed.
query_add-tests :
    (n : ℕ) (s : Store) (ask : Answer) (c : ℕ) (index : Option ℕ) (x count : ℕ) (flags : Flags)
    → flags.child_is_owner ≡ false
    → query_add n s ask c index x count flags ≡ some no_error
    → (is_item (s.things x).kind ≡ true)
      × ((c == x) ≡ false)
      × (is_container (s.things x).kind ≡ true
          → has_ancestor n s x (s.things c).parent ≡ some false)
unfolding query_add
query_add-tests n s ask c index x count flags direct h =
    (ground arith, ground (arith, ==_iff c x, ==_iff x c), λ box. ground arith)

-- A container that accepts an item is outside of it.
pub accepted-IsOutside :
    (n : ℕ) (s : Store) (ask : Answer) (c : ℕ) (index : Option ℕ) (x count : ℕ) (flags : Flags)
    → flags.child_is_owner ≡ false
    → Inv s
    → query_add n s ask c index x count flags ≡ some no_error
    → (is_item (s.things x).kind ≡ true) × IsOutside s x c
accepted-IsOutside n s ask c index x count flags direct v h =
    let tests = query_add-tests n s ask c index x count flags direct h in
    (
      tests.0,
      elim (Bool-cases (is_container (s.things x).kind)) [
        | inl box ↦ no_ancestor-IsOutside n s x c (s.things c).parent refl tests.1 (tests.2 box)
        | inr plain ↦
            plain-IsOutside s x c v (item-not_can_hold (s.things x).kind tests.0 plain)
              (v.grounded c) tests.1
      ],
    )

-- A thing that is put into a container keeps the shape as far as `push_front` does.
add_thing-shape :
    (s : Store) (c : ℕ) (at : Option ℕ) (x : ℕ)
    → Inv s
    → Inv (push_front s c x)
    → Inv (add_thing s c at x)
unfolding add_thing
add_thing-shape s c none x v w = elim (Bool-cases (is_item (s.things x).kind)) [
  | inl item ↦ subst Inv (ground arith) w
  | inr other ↦ subst Inv (ground arith) v
]
add_thing-shape s c (some at) x v w =
    elim (Bool-cases (leb (capacity s c) at || not (is_item (s.things x).kind))) [
      | inl refused ↦ subst Inv (ground arith) v
      | inr taken ↦ subst Inv (rw taken) w
    ]

-- Does `__addThing` take the index?
abbrev pub takes_index : Store → ℕ → Option ℕ → Bool
takes_index s c none = true
takes_index s c (some index) = ltb index (capacity s c)

-- The container has the thing in front, which points to it, and nothing else has changed, if the index
-- is taken; else nothing has changed.
pub record IsPutIn (s : Store) (c x : ℕ) (at : Option ℕ) (after : Store) : Type 0 where
  pub items :
      (d : ℕ)
      → (after.things d).item_list ≡ (
          if takes_index s c at && d == c
          then x ∷ (s.things c).item_list
          else (s.things d).item_list)
  pub parents :
      (y : ℕ)
      → (after.things y).parent
        ≡ (if takes_index s c at && y == x then some c else (s.things y).parent)

add_thing-IsPutIn :
    (s : Store) (c : ℕ) (at : Option ℕ) (x : ℕ)
    → is_item (s.things x).kind ≡ true
    → (c == x) ≡ false
    → IsPutIn s c x at (add_thing s c at x)
unfolding add_thing
add_thing-IsPutIn s c none x item ne = record {
  items = λ d. ground (arith, item, items-added s c x d ne);
  parents = λ y. ground (arith, item, parent-added s c x y);
}
add_thing-IsPutIn s c (some at) x item ne = record {
  items = λ d. ground (arith, item, items-added s c x d ne);
  parents = λ y. ground (arith, item, parent-added s c x y);
}

-- Where a container without FLAG_CHILDISOWNER accepts a thing that lies nowhere, and the thing is then
-- added at INDEX_WHEREEVER or an index below the container's capacity, it is put in front of the
-- container's items, whatever the index, its parent is the container, and no other list or parent has
-- changed; at another index nothing has changed. In both cases lists and parents still agree, no list
-- holds a thing twice, and no container lies in itself.
pub add_thing-Inv :
    (n : ℕ) (s : Store) (ask : Answer) (c : ℕ) (index : Option ℕ) (x count : ℕ) (flags : Flags)
    → Inv s
    → is_container (s.things c).kind ≡ true
    → (s.things x).parent ≡ none
    → flags.child_is_owner ≡ false
    → query_add n s ask c index x count flags ≡ some no_error
    → (at : Option ℕ) → IsPutIn s c x at (add_thing s c at x) × Inv (add_thing s c at x)
add_thing-Inv n s ask c index x count flags v box free direct h at =
    let accepted = accepted-IsOutside n s ask c index x count flags direct v h in
    let tests = query_add-tests n s ask c index x count flags direct h in
    (
      add_thing-IsPutIn s c at x tests.0 tests.1,
      add_thing-shape s c at x v (push_front-Inv s c x box free accepted.1 v),
    )

-- Taking out a part of a stack or a whole thing leaves the store in that shape.
pub remove_thing-Inv : (s : Store) (c x count : ℕ) → Inv s → Inv (remove_thing s c x count)
unfolding remove_thing
remove_thing-Inv s c x count v =
    elim (Bool-cases (not (is_item (s.things x).kind) || not (mem x (s.things c).item_list))) [
      | inl refused ↦ subst Inv (ground arith) v
      | inr held ↦
          elim (Bool-cases ((type_of s x).stackable && not (count == (s.things x).count))) [
            | inl part ↦
                same_shape-Inv s (remove_thing s c x count) (λ y. ground (arith, ==_iff y x))
                  (λ y. ground (arith, ==_iff y x)) (λ y. ground (arith, ==_iff y x)) v
            | inr whole ↦ subst Inv (rw (held, whole)) (taken-Inv s c x (ground arith) v)
          ]
    ]
