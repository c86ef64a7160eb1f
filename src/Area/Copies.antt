-- ===== src/Area/Copies.antt =====
-- The copies of an area: their marks and their centers.
use darghos_tfs04_86_v.Base.{
  ℕ, zero, suc, ◌+◌, ◌-◌, ◌<◌, ◌≡◌, ◌↔◌, ◌∙◌, ap, Bool, ◌&&◌, ltb, leb, ◌==◌, if◌then◌else◌, arith,
  Bool-cases, inl, inr,
}
use darghos_tfs04_86_v.Area.{
  MatrixArea, set_value, mirror_row, mirror_rows, mirror, flip_column, flip_columns, flip,
}

-- Is the number among the `n` from `a` on?
abbrev within : ℕ → ℕ → ℕ → Bool
within a n b = leb a b && ltb b (a + n)

mirror_row_lem :
    (input : MatrixArea) (y rx n : ℕ) (output : MatrixArea) (r c : ℕ)
    → (mirror_row input y rx n output).data_ r c
      ≡ (if r == y && within rx n c then input.data_ y (rx + n - suc c) else output.data_ r c)
unfolding mirror_row
mirror_row_lem input y rx zero output r c = ground arith
mirror_row_lem input y rx (suc n) output r c =
    mirror_row_lem input y (suc rx) n (set_value output y rx (input.data_ y n)) r c
    ∙ (let e : suc rx + n - suc c ≡ rx + suc n - suc c = omega arith in
        elim (Bool-cases (c == rx)) [
          | inl here ↦
              let d : rx + suc n - suc c ≡ n = ground arith in ground (arith, ap (input.data_ y) d)
          | inr there ↦ ground (arith, ap (input.data_ y) e)
        ])

mirror_rows_lem :
    (input : MatrixArea) (y n : ℕ) (output : MatrixArea) (r c : ℕ)
    → (mirror_rows input y n output).data_ r c ≡ (
        if within y n r && ltb c input.cols
        then input.data_ r (input.cols - suc c)
        else output.data_ r c)
unfolding mirror_rows
mirror_rows_lem input y zero output r c = ground arith
mirror_rows_lem input y (suc n) output r c =
    let row = mirror_row_lem input y 0 input.cols output r c in
    mirror_rows_lem input (suc y) n (mirror_row input y 0 input.cols output) r c
    ∙ (let k : 0 + input.cols - suc c ≡ input.cols - suc c = omega arith in
        elim (Bool-cases (r == y)) [
          | inl here ↦
              let e : y ≡ r = ground arith in
              ground (
                arith,
                row,
                ap (input.data_ y) k,
                ap (λ (q : ℕ). input.data_ q (input.cols - suc c)) e,
              )
          | inr there ↦ ground (arith, row)
        ])

flip_column_lem :
    (input : MatrixArea) (x ry n : ℕ) (output : MatrixArea) (r c : ℕ)
    → (flip_column input x ry n output).data_ r c
      ≡ (if c == x && within ry n r then input.data_ (ry + n - suc r) x else output.data_ r c)
unfolding flip_column
flip_column_lem input x ry zero output r c = ground arith
flip_column_lem input x ry (suc n) output r c =
    flip_column_lem input x (suc ry) n (set_value output ry x (input.data_ n x)) r c
    ∙ (let e : suc ry + n - suc r ≡ ry + suc n - suc r = omega arith in
        elim (Bool-cases (r == ry)) [
          | inl here ↦
              let d : ry + suc n - suc r ≡ n = ground arith in
              ground (arith, ap (λ (q : ℕ). input.data_ q x) d)
          | inr there ↦ ground (arith, ap (λ (q : ℕ). input.data_ q x) e)
        ])

flip_columns_lem :
    (input : MatrixArea) (x n : ℕ) (output : MatrixArea) (r c : ℕ)
    → (flip_columns input x n output).data_ r c ≡ (
        if within x n c && ltb r input.rows
        then input.data_ (input.rows - suc r) c
        else output.data_ r c)
unfolding flip_columns
flip_columns_lem input x zero output r c = ground arith
flip_columns_lem input x (suc n) output r c =
    let column = flip_column_lem input x 0 input.rows output r c in
    flip_columns_lem input (suc x) n (flip_column input x 0 input.rows output) r c
    ∙ (let k : 0 + input.rows - suc r ≡ input.rows - suc r = omega arith in
        elim (Bool-cases (c == x)) [
          | inl here ↦
              let e : x ≡ c = ground arith in
              ground (
                arith,
                column,
                ap (λ (q : ℕ). input.data_ q x) k,
                ap (input.data_ (input.rows - suc r)) e,
              )
          | inr there ↦ ground (arith, column)
        ])

-- The copies have the marks of the area in its rows and columns, in the reverse order of the columns
-- for a mirror, and of the rows for a flip; elsewhere they are left as they were.
pub copies-marks :
    (input output : MatrixArea) (r c : ℕ)
    → ((mirror input output).data_ r c ≡ (
        if ltb r input.rows && ltb c input.cols
        then input.data_ r (input.cols - suc c)
        else output.data_ r c))
      × ((flip input output).data_ r c ≡ (
          if ltb r input.rows && ltb c input.cols
          then input.data_ (input.rows - suc r) c
          else output.data_ r c))
unfolding mirror flip
copies-marks input output r c = (
  ground (arith, mirror_rows_lem input 0 input.rows output r c),
  ground (arith, flip_columns_lem input 0 input.cols output r c),
)

-- For a center within the rows and the columns, of which there are fewer than 65536, the center of a
-- mirror or of a flip lies where the marks put it just when the area has as many rows as columns.
pub copies-center :
    (input output : MatrixArea)
    → input.center_x < input.cols
    → input.center_y < input.rows
    → input.center_x < input.rows
    → input.center_y < input.cols
    → input.rows < 0x1_0000
    → input.cols < 0x1_0000
    → (((mirror input output).center_x ≡ input.cols - suc input.center_x)
        ↔ (input.rows ≡ input.cols))
      × (((flip input output).center_y ≡ input.rows - suc input.center_y)
          ↔ (input.rows ≡ input.cols))
unfolding mirror flip
copies-center input output a b c d e f = (
  (λ h. omega (arith, h, a, c, e, f), λ h. omega (arith, h, a, c, e, f)),
  (λ h. omega (arith, h, b, d, e, f), λ h. omega (arith, h, b, d, e, f)),
)
