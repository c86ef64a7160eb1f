-- ===== src/Position/Laws.antt =====
-- The order, the range test and the arithmetic of positions.
use darghos_tfs04_86_v.Base.{ℕ, ◌≡◌, ◌<◌, ◌+◌, ◌↔◌, ◌⊎◌, Bool, true, false, not, ◌||◌, arith, ltb}
use darghos_tfs04_86_v.Position.{
  Position, distance, are_in_range, less, greater, equal, add, sub, PositionEx, equal_ex, differ_ex,
}

abbrev pub IsWords : Position → Type 0
IsWords p = (p.x < 0x1_0000) × (p.y < 0x1_0000) × (p.z < 0x1_0000)

-- For two positions exactly one of `a < b`, `b < a` and `a == b` holds.
pub less-trichotomy :
    (a b : Position)
    → ((less a b ≡ true) × (less b a ≡ false) × (equal a b ≡ false))
      ⊎ ((less a b ≡ false) × (less b a ≡ true) × (equal a b ≡ false))
      ⊎ ((less a b ≡ false) × (less b a ≡ false) × (a ≡ b) × (equal a b ≡ true))
unfolding less equal
less-trichotomy a b = ground arith

-- The range test is symmetric in the two positions.
pub are_in_range_comm : (r a b : Position) → are_in_range r a b ≡ are_in_range r b a
unfolding are_in_range
are_in_range_comm r a b = ground arith

axis_trans :
    (r s a b c : ℕ)
    → ltb r (distance a b) ≡ false
    → ltb s (distance b c) ≡ false
    → ltb (r + s) (distance a c) ≡ false
axis_trans r s a b c h k = ground arith

none_of : (p q r : Bool) → not (p || q || r) ≡ true → (p ≡ false) × (q ≡ false) × (r ≡ false)
none_of p q r h = ground arith

-- Ranges add up along a chain of positions.
pub are_in_range_trans :
    (r s a b c : Position)
    → are_in_range r a b ≡ true
    → are_in_range s b c ≡ true
    → are_in_range (record { x = r.x + s.x; y = r.y + s.y; z = r.z + s.z }) a c ≡ true
unfolding are_in_range
are_in_range_trans r s a b c h k =
    let (hx, hy, hz) = none_of _ _ _ h in
    let (kx, ky, kz) = none_of _ _ _ k in
    rw (
      axis_trans r.x s.x a.x b.x c.x hx kx,
      axis_trans r.y s.y a.y b.y c.y hy ky,
      axis_trans r.z s.z a.z b.z c.z hz kz,
    )

-- Subtraction undoes addition on positions of 16-bit words, also where the addition wraps around.
pub sub-add : (a b : Position) → IsWords a → IsWords b → sub (add a b) b ≡ a
unfolding sub add
sub-add a b (ax, ay, az) (bx, by, bz) = ground arith

-- `operator>` is not the converse of `operator<`: it also holds of equal positions.
pub greater-less : (a b : Position) → (greater a b ≡ true) ↔ ((less b a ≡ true) ⊎ (a ≡ b))
unfolding greater
greater-less a b = ground (arith, less-trichotomy a b)

-- `PositionEx::operator!=` is not the negation of `operator==`.
pub differ_ex_self : (a : PositionEx) → (equal_ex a a ≡ true) × (differ_ex a a ≡ true)
unfolding equal_ex differ_ex
differ_ex_self a = ground arith
