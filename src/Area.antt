-- ===== src/Area.antt =====
-- The areas of spells in src/combat.h and src/combat.cpp: a matrix of marks around a center, and its
-- copies for other directions. The rotations are computed with `double`s and are left out.
pub mod Copies
mod Tests
use darghos_tfs04_86_v.Base.{
  ℕ, zero, suc, ◌+◌, ◌-◌, ◌*◌, ◌/◌, Bool, true, false, not, ◌&&◌, ◌||◌, Option, none, some, List,
  [], ◌∷◌, length, is_empty, max, ltb, ◌==◌, if◌then◌else◌, u16,
}

pub record MatrixArea : Type 0 where
  pub rows : ℕ
  pub cols : ℕ
  pub center_x : ℕ
  pub center_y : ℕ
  pub data_ : ℕ → ℕ → Bool

-- The constructor: no marks.
abbrev pub new_area : ℕ → ℕ → MatrixArea
new_area rows cols = record {
  rows = rows;
  cols = cols;
  center_x = 0;
  center_y = 0;
  data_ = λ row col. false;
}

abbrev pub set_value : MatrixArea → ℕ → ℕ → Bool → MatrixArea
set_value area row col value = record area {
  data_ = λ r c. if r == row && c == col then value else area.data_ r c;
}

-- `setCenter` takes the row first; the center has 16 bits.
abbrev pub set_center : MatrixArea → ℕ → ℕ → MatrixArea
set_center area y x = record area { center_x = u16 x; center_y = u16 y }

-- One entry of the list for `createArea`: 1 and 3 are marks, 2 and 3 the center.
abbrev pub put_entry : MatrixArea → ℕ → ℕ → ℕ → MatrixArea
put_entry area y x entry =
    let marked = if entry == 1 || entry == 3 then set_value area y x true else area in
    if entry == 2 || entry == 3 then set_center marked y x else marked

-- The loop of `createArea`.
unfoldable pub fill : MatrixArea → ℕ → ℕ → List ℕ → MatrixArea
fill area y x [] = area
fill area y x (entry ∷ entries) =
    let same_row = fill (put_entry area y x entry) y (u16 (x + 1)) entries in
    let next_row = fill (put_entry area y x entry) (u16 (y + 1)) 0 entries in
    if area.cols == u16 (x + 1) then next_row else same_row

unfoldable pub create_area : List ℕ → ℕ → MatrixArea
unfolding fill
create_area list rows = fill (new_area rows (length list / rows)) 0 0 list

-- The inner loop of MATRIXOPERATION_MIRROR: from the last column down to the first.
unfoldable pub mirror_row : MatrixArea → ℕ → (rx n : ℕ) → MatrixArea → MatrixArea
mirror_row input y rx zero output = output
mirror_row input y rx (suc x) output =
    mirror_row input y (suc rx) x (set_value output y rx (input.data_ y x))

-- The outer one, over `n` rows from a row on.
unfoldable pub mirror_rows : MatrixArea → (y n : ℕ) → MatrixArea → MatrixArea
unfolding mirror_row
mirror_rows input y zero output = output
mirror_rows input y (suc n) output =
    mirror_rows input (suc y) n (mirror_row input y 0 input.cols output)

-- `copyArea` with MATRIXOPERATION_MIRROR. The rows stand in the center's column as they do there;
-- a difference below 0 wraps around.
unfoldable pub mirror : MatrixArea → MatrixArea → MatrixArea
unfolding mirror_rows
mirror input output =
    set_center (mirror_rows input 0 input.rows output) input.center_y
      (input.rows + 0xFFFF - input.center_x)

-- The inner loop of MATRIXOPERATION_FLIP: from the last row up to the first.
unfoldable pub flip_column : MatrixArea → ℕ → (ry n : ℕ) → MatrixArea → MatrixArea
flip_column input x ry zero output = output
flip_column input x ry (suc y) output =
    flip_column input x (suc ry) y (set_value output ry x (input.data_ y x))

unfoldable pub flip_columns : MatrixArea → (x n : ℕ) → MatrixArea → MatrixArea
unfolding flip_column
flip_columns input x zero output = output
flip_columns input x (suc n) output =
    flip_columns input (suc x) n (flip_column input x 0 input.rows output)

-- `copyArea` with MATRIXOPERATION_FLIP.
unfoldable pub flip : MatrixArea → MatrixArea → MatrixArea
unfolding flip_columns
flip input output =
    set_center (flip_columns input 0 input.cols output) (input.cols + 0xFFFF - input.center_y)
      input.center_x

-- `setupExtArea`: the areas to the north-west, north-east, south-west and south-east, in this order.
unfoldable pub setup_ext_area : List ℕ → ℕ → List MatrixArea
unfolding create_area mirror flip
setup_ext_area list rows =
    let area = create_area list rows in
    let most = max area.cols area.rows * 2 in
    let sw = flip area (new_area most most) in
    if is_empty list
    then []
    else area ∷ mirror area (new_area most most) ∷ sw ∷ mirror sw (new_area most most) ∷ []
