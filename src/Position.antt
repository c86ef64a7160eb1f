-- ===== src/Position.antt =====
-- position.h: coordinates are 16-bit words; differences are taken as `int`s and never overflow.
pub mod Laws
pub mod Directions
mod Tests
use darghos_tfs04_86_v.Base.{
  ℕ, ◌+◌, ◌-◌, Bool, true, false, not, ◌&&◌, ◌||◌, ltb, ◌==◌, if◌then◌else◌, u16,
}

pub record Position : Type 0 where
  pub x : ℕ
  pub y : ℕ
  pub z : ℕ

-- `std::abs(float(a - b))`; a float holds every difference of two words exactly.
abbrev pub distance : ℕ → ℕ → ℕ
distance a b = if ltb a b then b - a else a - b

unfoldable pub are_in_range : Position → Position → Position → Bool
are_in_range r p1 p2 =
    not
      (ltb r.x (distance p1.x p2.x) || ltb r.y (distance p1.y p2.y) || ltb r.z (distance p1.z p2.z))

-- The template with two parameters, which ignores the floor.
unfoldable pub are_in_range_flat : ℕ → ℕ → Position → Position → Bool
are_in_range_flat deltax deltay p1 p2 =
    not (ltb deltax (distance p1.x p2.x) || ltb deltay (distance p1.y p2.y))

-- `operator<`, in the order of its tests.
unfoldable pub less : Position → Position → Bool
less a p =
    if ltb a.z p.z
    then true
    else if ltb p.z a.z
    then false
    else if ltb a.y p.y
    then true
    else if ltb p.y a.y
    then false
    else if ltb a.x p.x
    then true
    else false

-- `operator>`.
unfoldable pub greater : Position → Position → Bool
unfolding less
greater a p = not (less a p)

-- `operator==`.
unfoldable pub equal : Position → Position → Bool
equal a p = p.x == a.x && p.y == a.y && p.z == a.z

-- `operator+` and `operator-`; the constructor converts to words.
unfoldable pub add : Position → Position → Position
add a p = record { x = u16 (a.x + p.x); y = u16 (a.y + p.y); z = u16 (a.z + p.z) }

unfoldable pub sub : Position → Position → Position
sub a p = record {
  x = u16 (a.x + 0x1_0000 - p.x);
  y = u16 (a.y + 0x1_0000 - p.y);
  z = u16 (a.z + 0x1_0000 - p.z);
}

-- `PositionEx`: a position with a place in the stack, whose 16 bits are kept as a word.
pub record PositionEx : Type 0 where
  pub position : Position
  pub stackpos : ℕ

-- `PositionEx::operator==`.
unfoldable pub equal_ex : PositionEx → PositionEx → Bool
unfolding equal
equal_ex a p = equal a.position p.position && p.stackpos == a.stackpos

-- `PositionEx::operator!=`, whose last test is `!=` in the source.
unfoldable pub differ_ex : PositionEx → PositionEx → Bool
unfolding equal
differ_ex a p = not (equal a.position p.position && not (p.stackpos == a.stackpos))
