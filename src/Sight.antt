-- ===== src/Sight.antt =====
-- What a client sees: the positions in its view and the list of the creatures that it knows
-- (protocolgame.cpp), and the players near a position (map.cpp). Differences of coordinates are
-- `int`s; the inequalities between them are written with the subtracted terms on the other side.
pub mod Known
pub mod Spectators
pub mod Found
pub mod Audience
mod Tests
use darghos_tfs04_86_v.Base.{
  ℕ, zero, suc, ◌+◌, ◌≡◌, Bool, true, false, not, ◌&&◌, Option, none, some, List, [], ◌∷◌, ◌++◌,
  ltb, leb, length, mem, remove, if◌then◌else◌,
}
use darghos_tfs04_86_v.Position.{Position, distance}

-- `ProtocolGame::canSee` of a position, for a player at `mine`.
unfoldable pub can_see : (mine pos : Position) → Bool
can_see mine pos =
    let in_view =
      leb (mine.x + mine.z) (pos.x + 8 + pos.z)
      && leb (pos.x + pos.z) (mine.x + 9 + mine.z)
      && leb (mine.y + mine.z) (pos.y + 6 + pos.z)
      && leb (pos.y + pos.z) (mine.y + 7 + mine.z) in
    if leb mine.z 7
    then if ltb 7 pos.z then false else in_view
    else if ltb 2 (distance mine.z pos.z)
    then false
    else in_view

-- What the game says of a creature; `shown` is the answer of `Player::canSeeCreature`.
pub record Creature : Type 0 where
  pub removed : Bool
  pub shown : Bool
  pub position : Position

unfoldable pub can_see_creature : Position → Creature → Bool
unfolding can_see
can_see_creature mine c = not c.removed && c.shown && can_see mine c.position

-- Is there such a creature, and is it in sight?
unfoldable pub in_sight : Position → (ℕ → Option Creature) → ℕ → Bool
unfolding can_see_creature
in_sight mine creatures id = elim (creatures id) [ none ↦ false | some c ↦ can_see_creature mine c ]

-- The turns that are left of the loop, with `removedKnown`: creatures in sight go to the end.
unfoldable pub rotate : ℕ → (ℕ → Bool) → List ℕ → ℕ → List ℕ × ℕ
rotate zero sight l removed = (l, removed)
rotate (suc n) sight [] removed = ([], removed)
rotate (suc n) sight (x ∷ xs) removed =
    let rest = rotate n sight (xs ++ x ∷ []) x in if not (sight x) then (x ∷ xs, x) else rest

abbrev pub pop_front : List ℕ → List ℕ
pop_front [] = []
pop_front (x ∷ xs) = xs

-- What `ProtocolGame::checkCreatureAsKnown` leaves and answers.
pub record KnownAnswer : Type 0 where
  pub list : List ℕ
  pub known : Bool
  pub removed : ℕ

-- `sight` says which creatures are there and in sight; `removed` is the value that `removedKnown`
-- has before the call.
unfoldable pub check_creature_as_known : (ℕ → Bool) → ℕ → List ℕ → ℕ → KnownAnswer
unfolding rotate
check_creature_as_known sight id l removed =
    if mem id l
    then record { list = remove id l ++ id ∷ []; known = true; removed = removed }
    else let l' = l ++ id ∷ [] in
      let (turned, last) = rotate 250 sight l' removed in
      if ltb 250 (length l')
      then record { list = pop_front turned; known = false; removed = last }
      else record { list = l'; known = false; removed = 0 }
