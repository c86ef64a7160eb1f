-- ===== src/Container/DepotLimit.antt =====
-- The limit of a depot, for itself and for the containers within it.
use darghos_tfs04_86_v.Base.{
  ℕ, suc, ◌+◌, ◌≤◌, ◌≡◌, ◌≢◌, Bool, true, false, not, ◌&&◌, Option, none, some, List, length, ltb,
  ◌==◌, arith, Bool-cases, inl, inr, if◌then◌else◌,
}
use darghos_tfs04_86_v.Container.{
  Store, ReturnValue, no_error, not_possible, cannot_pickup, this_is_impossible, depot_is_full,
  full, Flags, is_item, is_container, type_of, depot_limit, get_top_parent,
}
use darghos_tfs04_86_v.Container.Queries.{
  Answer, add_count, over_limit, top_answer, query_top, query_room, query_add, depot_query_add,
}
use darghos_tfs04_86_v.Container.Breadth.{IsListing, holding_count-IsListing}

-- What a thing brings along: itself, and what a container holds.
abbrev pub brought : Store → ℕ → List ℕ → ℕ
brought s x vs = if is_container (s.things x).kind then suc (length vs) else 1

-- The test on a thing that comes from elsewhere.
over_limit-IsListing :
    (n : ℕ) (s : Store) (d limit x count : ℕ) (vs ws : List ℕ) (top : ℕ)
    → IsListing s (s.things x).item_list vs
    → IsListing s (s.things d).item_list ws
    → length vs ≤ n
    → length ws ≤ n
    → get_top_parent n s x ≡ some top
    → (top == d) ≡ false
    → over_limit n s d limit x count ≡ some (ltb limit (length ws + brought s x vs))
unfolding over_limit add_count
over_limit-IsListing n s d limit x count vs ws top lx ld hx hd ht e =
    let inner = (holding_count-IsListing s n x vs lx hx).0 in
    let outer = (holding_count-IsListing s n d ws ld hd).0 in ground (arith, inner, outer)

-- The tests of `__queryAdd` on the item, in front of those on the room.
guarded_lem :
    (item pickupable same : Bool) (looped : Option Bool) (room : Option ReturnValue)
    → (if not item
        then some not_possible
        else if not pickupable
        then some cannot_pickup
        else if same
        then some this_is_impossible
        else elim looped [ none ↦ none | some true ↦ some this_is_impossible | some false ↦ room ])
      ≡ some no_error
    → room ≡ some no_error
guarded_lem false p same o room h = cc
guarded_lem true false same o room h = cc
guarded_lem true true true o room h = cc
guarded_lem true true false none room h = cc
guarded_lem true true false (some true) room h = cc
guarded_lem true true false (some false) room h = h

query_add-room :
    (n : ℕ) (s : Store) (ask : Answer) (c : ℕ) (index : Option ℕ) (x count : ℕ) (flags : Flags)
    → flags.child_is_owner ≡ false
    → query_add n s ask c index x count flags ≡ some no_error
    → query_room n s ask c index x count flags ≡ some no_error
unfolding query_add
query_add-room n s ask c index x count flags direct h =
    guarded_lem (is_item (s.things x).kind) (type_of s x).pickupable (x == c) _ _
      (rw (query_add, direct) at h)

query_room-top :
    (n : ℕ) (s : Store) (ask : Answer) (c : ℕ) (index : Option ℕ) (x count : ℕ) (flags : Flags)
    → query_room n s ask c index x count flags ≡ some no_error
    → query_top n s ask c x count flags ≡ some no_error
unfolding query_room
query_room-top n s ask c none x count flags h = elim (Bool-cases (not flags.no_limit && full s c)) [
  | inl blocked ↦ let no = rw (query_room, blocked) at h in cc
  | inr free ↦ rw (query_room, free) at h
]
query_room-top n s ask c (some i) x count flags h = h

-- Where what a depot holds and what an item from elsewhere brings along, the item and all that is
-- in it, are more than the depot's limit, and no flag lifts the limits, the depot answers that it
-- is full, and another container for which `getTopParent` gives the depot does not accept the item
-- either.
pub depot-limit :
    (n : ℕ) (s : Store) (ask : Answer) (d limit c x count : ℕ) (index : Option ℕ) (flags : Flags)
    (vs ws : List ℕ) (top : ℕ)
    → depot_limit (s.things d).kind ≡ some limit
    → IsListing s (s.things x).item_list vs
    → IsListing s (s.things d).item_list ws
    → length vs ≤ n
    → length ws ≤ n
    → is_item (s.things x).kind ≡ true
    → get_top_parent n s x ≡ some top
    → (top == d) ≡ false
    → get_top_parent n s c ≡ some d
    → (d == c) ≡ false
    → flags.no_limit ≡ false
    → flags.child_is_owner ≡ false
    → ltb limit (length ws + brought s x vs) ≡ true
    → (depot_query_add n s ask d limit index x count flags ≡ some depot_is_full)
      × (query_add n s ask c index x count flags ≢ some no_error)
unfolding depot_query_add query_top top_answer
depot-limit n s ask d limit c x count index flags vs ws top kind lx ld hx hd item ht e hc ne limited
      direct over =
    let test = over_limit-IsListing n s d limit x count vs ws top lx ld hx hd ht e in
    (
      ground (arith, test),
      λ h.
          let room = query_add-room n s ask c index x count flags direct h in
          let answer = query_room-top n s ask c index x count flags room in
          absurd (ground (arith, test, answer)),
    )
