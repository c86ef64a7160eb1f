-- ===== src/Sight/Spectators.antt =====
-- Map::getSpectatorsInternal, and Map::getSpectators with its cache. The leaves of the map's
-- tree hold 8 by 8 columns of tiles and are linked to their neighbours to the east and south; a
-- creature or a leaf is named by a number that stands for its address. The fuel is for the turns of
-- the two loops over the leaves; none means that it ran out.
use darghos_tfs04_86_v.Base.{
  ℕ, zero, suc, ◌+◌, ◌-◌, ◌%◌, Bool, true, false, not, ◌&&◌, ◌||◌, Option, none, some, List, [],
  ◌∷◌, ◌++◌, ltb, leb, ◌==◌, mem, min, if◌then◌else◌,
}
use darghos_tfs04_86_v.Position.{Position, equal}

pub record Leaf : Type 0 where
  pub creature_list : List ℕ
  pub leaf_e : Option ℕ
  pub leaf_s : Option ℕ

-- `get_leaf` is the way from the root of the tree, by the coordinates of a leaf's corner.
pub record Map : Type 0 where
  pub get_leaf : ℕ → ℕ → Option ℕ
  pub leaves : ℕ → Leaf
  pub position : ℕ → Position

-- The ranges around a position; `min_x` and `min_y` go to the west and north, so that the source has
-- them with a minus.
pub record Ranges : Type 0 where
  pub min_x : ℕ
  pub max_x : ℕ
  pub min_y : ℕ
  pub max_y : ℕ
  pub min_z : ℕ
  pub max_z : ℕ

-- None of the tests with `continue` holds.
unfoldable pub in_window : Position → Ranges → Position → Bool
in_window c r pos =
    not (ltb pos.z r.min_z || ltb r.max_z pos.z)
    && not (ltb (pos.y + r.min_y + pos.z) (c.y + c.z) || ltb (c.y + r.max_y + c.z) (pos.y + pos.z))
    && not (ltb (pos.x + r.min_x + pos.z) (c.x + c.z) || ltb (c.x + r.max_x + c.z) (pos.x + pos.z))

-- The loop over the creatures of a leaf.
unfoldable pub visit : Map → Position → Ranges → Bool → (creatures list : List ℕ) → List ℕ
visit g c r check [] list = list
visit g c r check (k ∷ ks) list = visit g c r check ks (
    if in_window c r (g.position k) && (not check || not (mem k list))
    then list ++ k ∷ []
    else list)

abbrev pub visit_leaf : Map → Position → Ranges → Bool → Option ℕ → List ℕ → List ℕ
visit_leaf g c r check none list = list
visit_leaf g c r check (some l) list = visit g c r check (g.leaves l).creature_list list

-- `stepEast` where there is a leaf, and the way from the root where there is none.
abbrev pub step_east : Map → ℕ → ℕ → Option ℕ → Option ℕ
step_east g nx ny none = g.get_leaf (nx + 8) ny
step_east g nx ny (some l) = (g.leaves l).leaf_e

abbrev pub step_south : Map → ℕ → ℕ → Option ℕ → Option ℕ
step_south g startx ny none = g.get_leaf startx (ny + 8)
step_south g startx ny (some l) = (g.leaves l).leaf_s

-- The loop over `nx`.
unfoldable pub columns :
    ℕ → Map → Position → Ranges → Bool → (ny endx nx : ℕ) → Option ℕ → List ℕ → Option (List ℕ)
columns zero g c r check ny endx nx leaf list = none
columns (suc n) g c r check ny endx nx leaf list =
    let rest =
      columns n g c r check ny endx (nx + 8) (step_east g nx ny leaf)
        (visit_leaf g c r check leaf list) in
    if leb nx endx then rest else some list

-- The loop over `ny`, where a loop over `nx` has the fuel `m`.
unfoldable pub rows :
    ℕ
    → ℕ
    → Map
    → Position
    → Ranges
    → Bool
    → (startx endx endy ny : ℕ) → Option ℕ
    → List ℕ
    → Option (List ℕ)
unfolding columns
rows zero m g c r check startx endx endy ny leaf list = none
rows (suc n) m g c r check startx endx endy ny leaf list =
    let rest : Option (List ℕ) = elim (columns m g c r check ny endx startx leaf list) [
      | none ↦ none
      | some list' ↦
          rows n m g c r check startx endx endy (ny + 8) (step_south g startx ny leaf) list'
    ] in
    if leb ny endy then rest else some list

-- `std::min(0xFFFF, std::max(0, ...))` of the two ends.
abbrev pub low_end : (middle range floor last : ℕ) → ℕ
low_end middle range floor last = min 0xFFFF (middle + floor - (range + last))

abbrev pub high_end : (middle range floor first : ℕ) → ℕ
high_end middle range floor first = min 0xFFFF (middle + range + floor - first)

abbrev pub corner : ℕ → ℕ
corner x = x - x % 8

unfoldable pub get_spectators_internal :
    ℕ → Map → Position → Ranges → Bool → List ℕ → Option (List ℕ)
unfolding rows
get_spectators_internal fuel g c r check list =
    let startx = corner (low_end c.x r.min_x c.z r.max_z) in
    let starty = corner (low_end c.y r.min_y c.z r.max_z) in
    let endx = corner (high_end c.x r.max_x c.z r.min_z) in
    let endy = corner (high_end c.y r.max_y c.z r.min_z) in
    rows fuel fuel g c r check startx endx endy starty (g.get_leaf startx starty) list

-- The first and the last floor.
unfoldable pub floors : Bool → ℕ → ℕ × ℕ
floors false z = (z, z)
floors true z =
    if ltb 7 z
    then (z - 2, min (z + 2) 15)
    else if z == 6
    then (0, 8)
    else if z == 7
    then (0, 9)
    else (0, 7)

-- An argument of 0 stands for the range of the viewport.
abbrev pub or_viewport : ℕ → ℕ
or_viewport range = if range == 0 then 11 else range

-- The part of `getSpectators` that looks for the creatures.
unfoldable pub search :
    ℕ → Map → List ℕ → Position → Bool → (min_x max_x min_y max_y : ℕ) → Option (List ℕ)
unfolding get_spectators_internal floors
search fuel g list c multifloor min_x max_x min_y max_y =
    let (first, last) = floors multifloor c.z in
    get_spectators_internal fuel g c
      (record {
        min_x = or_viewport min_x;
        max_x = or_viewport max_x;
        min_y = or_viewport min_y;
        max_y = or_viewport max_y;
        min_z = first;
        max_z = last;
      })
      true list

-- `spectatorCache`, by positions.
abbrev pub SpectatorCache : Type 0
SpectatorCache = Position → Option (List ℕ)

unfoldable pub remember : SpectatorCache → Position → List ℕ → SpectatorCache
remember cache c list d = if equal d c then some list else cache d

-- What was found goes into the cache.
unfoldable pub cache_result :
    SpectatorCache → Position → Option (List ℕ) → Option (List ℕ × SpectatorCache)
unfolding remember
cache_result cache c none = none
cache_result cache c (some list) = some (list, remember cache c list)

abbrev pub with_cache : SpectatorCache → Option (List ℕ) → Option (List ℕ × SpectatorCache)
with_cache cache none = none
with_cache cache (some list) = some (list, cache)

-- Are the arguments those of the lists that are cached?
abbrev pub is_cached_kind : Bool → Bool → (min_x max_x min_y max_y : ℕ) → Bool
is_cached_kind check multifloor min_x max_x min_y max_y =
    min_x == 0 && max_x == 0 && min_y == 0 && max_y == 0 && multifloor && not check

-- `getSpectators`: the list, with the cache behind it. A list from the cache takes the place of the one
-- that is given.
unfoldable pub get_spectators :
    ℕ
    → Map
    → SpectatorCache
    → List ℕ
    → Position
    → (check multifloor : Bool) → (min_x max_x min_y max_y : ℕ) → Option (List ℕ × SpectatorCache)
unfolding search cache_result
get_spectators fuel g cache list c check multifloor min_x max_x min_y max_y =
    let found = search fuel g list c multifloor min_x max_x min_y max_y in
    if leb 16 c.z
    then some (list, cache)
    else if is_cached_kind check multifloor min_x max_x min_y max_y
    then elim (cache c) [ some cached ↦ some (cached, cache) | none ↦ cache_result cache c found ]
    else with_cache cache found
