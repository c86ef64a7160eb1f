-- ===== src/Sight/Audience.antt =====
-- Whoever can see a position is among its spectators.
use darghos_tfs04_86_v.Base.{
  ℕ, ◌+◌, ◌-◌, ◌*◌, ◌/◌, ◌≤◌, ◌<◌, ◌≡◌, ◌∙◌, refl, sym, ap₂, Bool, true, false, none, some, List,
  ==_iff, leb, mem, arith, subst,
}
use darghos_tfs04_86_v.Position.{Position, equal}
use darghos_tfs04_86_v.Sight.{can_see}
use darghos_tfs04_86_v.Sight.Spectators.{
  Map, Ranges, in_window, low_end, high_end, corner, get_spectators_internal, floors, search,
  get_spectators, SpectatorCache, remember, cache_result,
}
use darghos_tfs04_86_v.Sight.Found.{IsLinked, rows_find, rows_end, rows_keep}

-- A creature stands on a tile of the map, and is on the list of the leaf there.
pub record IsPlaced (g : Map) (k : ℕ) : Type 0 where
  pub leaf : ℕ
  pub corner_leaf : g.get_leaf (corner (g.position k).x) (corner (g.position k).y) ≡ some leaf
  pub listed : mem k (g.leaves leaf).creature_list ≡ true
  pub word_x : (g.position k).x ≤ 0xFFFF
  pub word_y : (g.position k).y ≤ 0xFFFF

-- The corner of the leaf of a coordinate is some leaves behind the first, and not behind the last.
corner_between :
    (low p high : ℕ)
    → low ≤ p
    → p ≤ high
    → (i : ℕ) × (corner low + 8 * i ≡ corner p) × (corner p ≤ corner high)
corner_between low p high h k = (p / 8 - low / 8, omega (arith, h, k), omega (arith, k))

low_end-le :
    (middle range floor last p z : ℕ)
    → middle + floor ≤ p + range + z
    → z ≤ last
    → low_end middle range floor last ≤ p
low_end-le middle range floor last p z h k = omega (arith, h, k)

le-high_end :
    (middle range floor first p z : ℕ)
    → p + z ≤ middle + range + floor
    → first ≤ z
    → p ≤ 0xFFFF
    → p ≤ high_end middle range floor first
le-high_end middle range floor first p z h k w = omega (arith, h, k, w)

-- What `in_window` tells of one coordinate and the floors.
record Bounds (c p : ℕ × ℕ) (below above first last : ℕ) : Type 0 where
  lower : c.0 + c.1 ≤ p.0 + below + p.1
  upper : p.0 + p.1 ≤ c.0 + above + c.1
  from : first ≤ p.1
  to : p.1 ≤ last

window_across :
    (c : Position) (r : Ranges) (pos : Position)
    → in_window c r pos ≡ true
    → Bounds (c.x, c.z) (pos.x, pos.z) r.min_x r.max_x r.min_z r.max_z
unfolding in_window
window_across c r pos h = ground (arith, h)

window_down :
    (c : Position) (r : Ranges) (pos : Position)
    → in_window c r pos ≡ true
    → Bounds (c.y, c.z) (pos.y, pos.z) r.min_y r.max_y r.min_z r.max_z
unfolding in_window
window_down c r pos h = ground (arith, h)

get_spectators_internal_finds :
    (g : Map)
    → IsLinked g
    → (fuel k : ℕ) → IsPlaced g k
    → (c : Position) (r : Ranges) (check : Bool) (list after : List ℕ)
    → get_spectators_internal fuel g c r check list ≡ some after
    → in_window c r (g.position k) ≡ true
    → mem k after ≡ true
unfolding get_spectators_internal
get_spectators_internal_finds g linked fuel k placed c r check list after e w =
    let bx = window_across c r (g.position k) w in
    let by = window_down c r (g.position k) w in
    let (i, at_x, in_x) =
      corner_between (low_end c.x r.min_x c.z r.max_z) (g.position k).x
        (high_end c.x r.max_x c.z r.min_z)
        (low_end-le c.x r.min_x c.z r.max_z (g.position k).x (g.position k).z bx.lower bx.to)
        (le-high_end c.x r.max_x c.z r.min_z (g.position k).x (g.position k).z bx.upper bx.from
          placed.word_x) in
    let (j, at_y, in_y) =
      corner_between (low_end c.y r.min_y c.z r.max_z) (g.position k).y
        (high_end c.y r.max_y c.z r.min_z)
        (low_end-le c.y r.min_y c.z r.max_z (g.position k).y (g.position k).z by.lower by.to)
        (le-high_end c.y r.max_y c.z r.min_z (g.position k).y (g.position k).z by.upper by.from
          placed.word_y) in
    rows_find g c r check linked fuel fuel _ _ _ _ _ list after k placed.leaf i j refl e
      (subst (λ x. x ≤ corner (high_end c.x r.max_x c.z r.min_z)) (sym at_x) in_x)
      (subst (λ x. x ≤ corner (high_end c.y r.max_y c.z r.min_z)) (sym at_y) in_y)
      (ap₂ g.get_leaf at_x at_y ∙ placed.corner_leaf) placed.listed w

-- The window of `getSpectators` on several floors, with the ranges of the viewport.
abbrev viewport : ℕ → Ranges
viewport z = record {
  min_x = 11;
  max_x = 11;
  min_y = 11;
  max_y = 11;
  min_z = (floors true z).0;
  max_z = (floors true z).1;
}

-- Whoever sees a position stands in its window.
can_see-in_window :
    (mine c : Position)
    → mine.z ≤ 15
    → c.z ≤ 15
    → can_see mine c ≡ true
    → in_window c (viewport c.z) mine ≡ true
unfolding can_see in_window floors
can_see-in_window mine c hm hc h = ground (arith, h)

-- At most six turns of a loop see its end.
window_turns :
    (middle z : ℕ)
    → middle ≤ 0xFFFF
    → z ≤ 15
    → corner (high_end middle 11 z (floors true z).0)
      < corner (low_end middle 11 z (floors true z).1) + 8 * 5
unfolding floors
window_turns middle z h k = ground (arith, h, k)

internal_end :
    (g : Map) (c : Position) (list : List ℕ)
    → c.x ≤ 0xFFFF
    → c.y ≤ 0xFFFF
    → c.z ≤ 15
    → (after : List ℕ) × (get_spectators_internal 6 g c (viewport c.z) true list ≡ some after)
      × ((k : ℕ) → mem k list ≡ true → mem k after ≡ true)
unfolding get_spectators_internal
internal_end g c list hx hy hz =
    let r = viewport c.z in
    let startx = corner (low_end c.x 11 c.z r.max_z) in
    let starty = corner (low_end c.y 11 c.z r.max_z) in
    let endx = corner (high_end c.x 11 c.z r.min_z) in
    let endy = corner (high_end c.y 11 c.z r.min_z) in
    let leaf = g.get_leaf startx starty in
    let (after, e) =
      rows_end g c r true 5 5 startx endx endy starty leaf list (window_turns c.x c.z hx hz)
        (window_turns c.y c.z hy hz) in
    (after, e, λ k h. rows_keep g c r true 6 6 startx endx endy starty leaf list after k e h)

-- A list that is not cached, and goes into the cache.
uncached :
    (fuel : ℕ) (g : Map) (cache : SpectatorCache) (list after : List ℕ) (c : Position)
    → leb 16 c.z ≡ false
    → cache c ≡ none
    → search fuel g list c true 0 0 0 0 ≡ some after
    → get_spectators fuel g cache list c false true 0 0 0 0 ≡ some (after, remember cache c after)
unfolding get_spectators cache_result
uncached fuel g cache list after c inside new e =
    rw (get_spectators, inside, new, e, cache_result) refl

stored :
    (cache : SpectatorCache) (c : Position) (list : List ℕ) → remember cache c list c ≡ some list
unfolding remember equal
stored cache c list = ground (arith, ==_iff c.x c.x, ==_iff c.y c.y, ==_iff c.z c.z)

cached :
    (fuel : ℕ) (g : Map) (cache : SpectatorCache) (list after : List ℕ) (c : Position)
    → leb 16 c.z ≡ false
    → cache c ≡ some after
    → get_spectators fuel g cache list c false true 0 0 0 0 ≡ some (after, cache)
unfolding get_spectators
cached fuel g cache list after c inside hit = rw (get_spectators, inside, hit) refl

-- On a map whose leaves are linked as the tree has them, `getSpectators` of a position that is not in
-- the cache, on several floors and with the ranges of the viewport, ends within six turns of each of
-- its loops, keeps who was on the list, and finds every player on the map whose client can see the
-- position. The list goes into the cache, and until the cache changes, the same call with any list
-- gives this list.
pub get_spectators_finds :
    (g : Map) (cache : SpectatorCache) (c : Position) (list : List ℕ)
    → IsLinked g
    → c.x ≤ 0xFFFF
    → c.y ≤ 0xFFFF
    → c.z ≤ 15
    → cache c ≡ none
    → (after : List ℕ) × (cache' : SpectatorCache) × (get_spectators 6 g cache list c false true 0 0
          0 0
        ≡ some (after, cache'))
      × ((k : ℕ) → mem k list ≡ true → mem k after ≡ true)
      × ((k : ℕ)
          → IsPlaced g k
          → (g.position k).z ≤ 15
          → can_see (g.position k) c ≡ true
          → mem k after ≡ true)
      × ((fuel : ℕ) (other : List ℕ)
          → get_spectators fuel g cache' other c false true 0 0 0 0 ≡ some (after, cache'))
unfolding search
get_spectators_finds g cache c list linked hx hy hz new =
    let inside : leb 16 c.z ≡ false = ground (arith, hz) in
    let (after, e, kept) = internal_end g c list hx hy hz in
    (
      after,
      remember cache c after,
      uncached 6 g cache list after c inside new e,
      kept,
      λ k placed z s.
          get_spectators_internal_finds g linked 6 k placed c (viewport c.z) true list after e
            (can_see-in_window (g.position k) c z hz s),
      λ fuel other.
          cached fuel g (remember cache c after) other after c inside (stored cache c after),
    )
