-- ===== src/Experience/Table.antt =====
-- The experience for the levels: what it is, below the levels where its computation wraps around.
use darghos_tfs04_86_v.Base.{
  ℕ, zero, suc, ◌+◌, ◌-◌, ◌*◌, ◌≤◌, ◌<◌, ◌≡◌, refl, arith, u32, leb, Bool-cases, inl, inr,
}
use native.Mathlib.Nat.{mul-le-mul, le_trans}
use darghos_tfs04_86_v.Experience.{get_exp_for_level, u64, sub64}

-- The experience from one level to the next: 100 for the first two, then 50 n (n + 1) + 100.
abbrev pub exp_between : ℕ → ℕ
exp_between zero = 100
exp_between (suc n) = 50 * n * n + 50 * n + 100

-- The experience for so many levels above the first.
abbrev pub exp_above : ℕ → ℕ
exp_above zero = 0
exp_above (suc n) = exp_above n + exp_between n

exp_above-cubic : (n : ℕ) → 3 * exp_above n + 150 * n * n ≡ 50 * n * n * n + 400 * n
exp_above-cubic zero = refl
exp_above-cubic (suc zero) = refl
exp_above-cubic (suc (suc n)) = omega (arith, exp_above-cubic (suc n))

-- Sums of 64-bit numbers, in any order, where the whole is one.
sum64 : (a b c : ℕ) → a + c < 0x1_0000_0000_0000_0000 → b ≤ a + c → u64 (sub64 a b + c) ≡ a + c - b
sum64 a b c h k = omega (arith, h, k)

module _ (n : ℕ) (small : n ≤ 500000) where
  square-le : n * n ≤ 250000000000
  square-le = le_trans (mul-le-mul small small) (omega arith)

  cube-le : n * n * n ≤ 125000000000000000
  cube-le = le_trans (mul-le-mul square-le small) (omega arith)

  -- The squares are no more than the rest.
  square-cube : 150 * n * n ≤ 50 * n * n * n + 400 * n
  square-cube = omega (arith, exp_above-cubic n)

  products :
      (u64 (50 * n * n * n) ≡ 50 * n * n * n)
      × (u64 (150 * n * n) ≡ 150 * n * n)
      × (u64 (400 * n) ≡ 400 * n)
  products = (omega (arith, cube-le), omega (arith, square-le), omega (arith, small))

  -- Up to level 500001 the experience for a level is the sum of what lies between the
  -- levels below it, and nothing that is computed wraps around.
  pub level-exp_above : get_exp_for_level (n + 1) ≡ exp_above n
  unfolding get_exp_for_level
  level-exp_above =
      let (cubes, squares, singles) = products in
      let index : u32 (n + 1 + 0xFFFF_FFFF) ≡ n = omega (arith, small) in
      rw (get_exp_for_level, index, cubes, squares, singles)
        (rw
          (sum64 (50 * n * n * n) (150 * n * n) (400 * n) (omega (arith, cube-le, small))
            square-cube)
          (omega (arith, exp_above-cubic n)))

exp_between-le : (n : ℕ) → 100 ≤ exp_between n
exp_between-le zero = omega arith
exp_between-le (suc n) = omega arith

exp_above_mono : (m n : ℕ) → m ≤ n → exp_above m ≤ exp_above n
exp_above_mono m zero h = ground arith
exp_above_mono m (suc n) h = elim (Bool-cases (leb m n)) [
  | inl lower ↦ omega (arith, exp_above_mono m n (ground arith))
  | inr same ↦ let e : m ≡ suc n = ground arith in rw e (omega arith)
]

level-pred : (lv : ℕ) → 1 ≤ lv → lv ≤ 500001 → get_exp_for_level lv ≡ exp_above (lv - 1)
level-pred zero h k = absurd (omega arith)
level-pred (suc n) h k =
    let e : suc n ≡ n + 1 = omega arith in
    let d : n + 1 - 1 ≡ n = omega arith in rw (e, d) (level-exp_above n (omega arith))

pub level_mono : (a b : ℕ) → 1 ≤ a → a ≤ b → b ≤ 500001 → get_exp_for_level a ≤ get_exp_for_level b
level_mono a b h k l = omega (
  arith,
  level-pred a h (omega arith),
  level-pred b (omega arith) l,
  exp_above_mono (a - 1) (b - 1) (omega arith),
)

pub level_next :
    (a : ℕ) → 1 ≤ a → a ≤ 500000 → get_exp_for_level a < get_exp_for_level (u32 (a + 1))
level_next zero h k = absurd (omega arith)
level_next (suc n) h k =
    let e : u32 (suc n + 1) ≡ suc n + 1 = omega (arith, k) in
    let d : suc n ≡ n + 1 = omega arith in
    let low = level-exp_above n (omega arith) in
    let high = level-exp_above (suc n) (omega arith) in
    rw (e, high, d) (omega (arith, low, exp_between-le n))
