-- ===== src/Position/Directions.antt =====
-- The directions of position.h, and the steps and turns of tools.cpp.
use darghos_tfs04_86_v.Base.{
  ℕ, ◌+◌, ◌≡◌, ◌≢◌, ◌⊎◌, Bool, true, false, ltb, if◌then◌else◌, u16, arith,
}
use darghos_tfs04_86_v.Position.{Position}
use darghos_tfs04_86_v.Position.Laws.{IsWords}

pub data Direction : Type 0 where
  north east south west southwest southeast northwest northeast : Direction

-- `getReverseDirection`.
unfoldable pub get_reverse_direction : Direction → Direction
get_reverse_direction north = south
get_reverse_direction south = north
get_reverse_direction west = east
get_reverse_direction east = west
get_reverse_direction southwest = northeast
get_reverse_direction northwest = southeast
get_reverse_direction northeast = southwest
get_reverse_direction southeast = northwest

-- `++` and `--` of a 16-bit word.
abbrev pub up : ℕ → ℕ
up n = u16 (n + 1)

abbrev pub down : ℕ → ℕ
down n = u16 (n + 0xFFFF)

-- `getNextPosition`.
unfoldable pub get_next_position : Direction → Position → Position
get_next_position north p = record p { y = down p.y }
get_next_position south p = record p { y = up p.y }
get_next_position west p = record p { x = down p.x }
get_next_position east p = record p { x = up p.x }
get_next_position southwest p = record p { x = down p.x; y = up p.y }
get_next_position northwest p = record p { x = down p.x; y = down p.y }
get_next_position southeast p = record p { x = up p.x; y = up p.y }
get_next_position northeast p = record p { x = up p.x; y = down p.y }

-- The choice among three directions by the rows, if `extended`.
abbrev pub by_rows : Bool → Position → Position → Direction → Direction → Direction → Direction
by_rows extended a b straight above below =
    if extended
    then (if ltb b.y a.y then above else if ltb a.y b.y then below else straight)
    else straight

-- `getDirectionTo`.
unfoldable pub get_direction_to : Position → Position → Bool → Direction
get_direction_to a b extended =
    if ltb b.x a.x
    then by_rows extended a b west northwest southwest
    else if ltb a.x b.x
    then by_rows extended a b east northeast southeast
    else by_rows true a b north north south

-- From a position of 16-bit words, a step in a direction and one in its reverse lead back, also
-- around the edges of the words.
pub get_next_position-reverse :
    (d : Direction) (p : Position)
    → IsWords p
    → get_next_position (get_reverse_direction d) (get_next_position d p) ≡ p
unfolding get_next_position get_reverse_direction
get_next_position-reverse north p (hx, hy, hz) = ground arith
get_next_position-reverse south p (hx, hy, hz) = ground arith
get_next_position-reverse west p (hx, hy, hz) = ground arith
get_next_position-reverse east p (hx, hy, hz) = ground arith
get_next_position-reverse southwest p (hx, hy, hz) = ground arith
get_next_position-reverse northwest p (hx, hy, hz) = ground arith
get_next_position-reverse southeast p (hx, hy, hz) = ground arith
get_next_position-reverse northeast p (hx, hy, hz) = ground arith

-- Of two positions in different columns or rows, the direction from the second to the first is the
-- reverse of the direction from the first to the second, with diagonals or without.
pub get_direction_to-reverse :
    (a b : Position) (extended : Bool)
    → (a.x ≢ b.x) ⊎ (a.y ≢ b.y)
    → get_direction_to b a extended ≡ get_reverse_direction (get_direction_to a b extended)
unfolding get_direction_to get_reverse_direction
get_direction_to-reverse a b true h = ground arith
get_direction_to-reverse a b false h = ground arith
