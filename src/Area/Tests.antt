-- ===== src/Area/Tests.antt =====
-- The area of a wave with two rows and three columns, and what the theorems say of it.
use darghos_tfs04_86_v.Base.{◌≡◌, refl, true, [], ◌∷◌, ltb}
use darghos_tfs04_86_v.Area.{MatrixArea, new_area, create_area, fill, mirror, flip}
use darghos_tfs04_86_v.Area.Copies.{copies-marks}

abbrev wave : MatrixArea
wave = record { rows = 2; cols = 3; center_x = 0; center_y = 1; data_ = λ r c. ltb c r }

copies-marks_example :
    ((mirror wave (new_area 6 6)).data_ 1 2 ≡ wave.data_ 1 0)
    × ((flip wave (new_area 6 6)).data_ 1 2 ≡ wave.data_ 0 2)
copies-marks_example = copies-marks wave (new_area 6 6) 1 2

created : (create_area (0 ∷ 1 ∷ 3 ∷ 0 ∷ []) 2).data_ 1 0 ≡ true
unfolding create_area fill
created = refl
