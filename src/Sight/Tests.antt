-- ===== src/Sight/Tests.antt =====
-- A client with a full list, and a map of one leaf.
use darghos_tfs04_86_v.Base.{
  ℕ, zero, suc, ◌+◌, ◌≤◌, ◌≡◌, refl, true, false, not, ◌&&◌, none, some, List, [], ◌∷◌, ◌++◌, ◌==◌,
  mem, Bool, if◌then◌else◌, arith,
}
use darghos_tfs04_86_v.Position.{Position}
use darghos_tfs04_86_v.Sight.{can_see, check_creature_as_known}
use darghos_tfs04_86_v.Sight.Known.{
  IsUpdated, check_creature_as_known-IsUpdated, check_creature_as_known_crowded,
}
use darghos_tfs04_86_v.Sight.Spectators.{
  Map, get_spectators, search, SpectatorCache, visit, in_window,
}
use darghos_tfs04_86_v.Sight.Found.{IsLinked}
use darghos_tfs04_86_v.Sight.Audience.{IsPlaced, get_spectators_finds}

abbrev count_from : ℕ → ℕ → List ℕ
count_from zero from = []
count_from (suc n) from = from ∷ count_from n (suc from)

abbrev all_but_four : ℕ → Bool
all_but_four c = not (c == 4)

dropped_example : (check_creature_as_known all_but_four 1000 (count_from 250 1) 0).removed ≡ 4
unfolding check_creature_as_known
dropped_example = refl

check_creature_as_known-IsUpdated_example :
    IsUpdated all_but_four 1000
      (count_from 250 1)
      (check_creature_as_known all_but_four 1000 (count_from 250 1) 0)
check_creature_as_known-IsUpdated_example =
    check_creature_as_known-IsUpdated all_but_four 1000 (count_from 250 1) 0 refl (omega arith) refl

check_creature_as_known_crowded_example :
    check_creature_as_known (λ c. true) 1000 (count_from 249 1 ++ 250 ∷ []) 0
    ≡ record { list = count_from 249 1 ++ 250 ∷ []; known = false; removed = 250 }
check_creature_as_known_crowded_example =
    check_creature_as_known_crowded (λ c. true) 1000 (count_from 249 1) 250 0 refl refl refl

abbrev town : Map
town = record {
  get_leaf = λ x y. if x == 96 && y == 96 then some 1 else none;
  leaves = λ l. record { creature_list = 7 ∷ 8 ∷ []; leaf_e = none; leaf_s = none };
  position = λ k. record { x = 90 + k; y = 100; z = 7 };
}

town-IsLinked : IsLinked town
town-IsLinked = record { east = λ x y l e. ground arith; south = λ x y l e. ground arith }

abbrev square : Position
square = record { x = 105; y = 101; z = 7 }

abbrev nothing_cached : SpectatorCache
nothing_cached c = none

town_spectators : search 6 town [] square true 0 0 0 0 ≡ some (7 ∷ 8 ∷ [])
unfolding search visit in_window
town_spectators = refl

get_spectators_finds_example :
    (after : List ℕ) × (cache' : SpectatorCache) × (get_spectators 6 town nothing_cached [] square
        false true 0 0 0 0
      ≡ some (after, cache'))
    × ((k : ℕ) → mem k [] ≡ true → mem k after ≡ true)
    × ((k : ℕ)
        → IsPlaced town k
        → (town.position k).z ≤ 15
        → can_see (town.position k) square ≡ true
        → mem k after ≡ true)
    × ((fuel : ℕ) (other : List ℕ)
        → get_spectators fuel town cache' other square false true 0 0 0 0 ≡ some (after, cache'))
get_spectators_finds_example =
    get_spectators_finds town nothing_cached square [] town-IsLinked (omega arith) (omega arith)
      (omega arith) refl
