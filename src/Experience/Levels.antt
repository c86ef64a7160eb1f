-- ===== src/Experience/Levels.antt =====
-- The level that goes with the experience, when experience is gained and lost.
use darghos_tfs04_86_v.Base.{
  ℕ, zero, suc, ◌+◌, ◌-◌, ◌*◌, ◌≤◌, ◌<◌, ◌≡◌, refl, sym, ◌∙◌, ap, subst, true, false, Option, some,
  ltb, arith, Bool-cases, inl, inr, u32,
}
use darghos_tfs04_86_v.Experience.{
  get_exp_for_level, Gains, Stats, gained, level_up, add_experience, with_percent, u64,
}
use darghos_tfs04_86_v.Experience.Table.{level_mono, level_next}

-- The level goes with the experience, below a level up to which nothing wraps around.
pub record IsLevel (p : Stats) : Type 0 where
  pub first : 1 ≤ p.level
  pub room : p.level ≤ 500000
  pub bounded : p.experience < get_exp_for_level 500000
  pub reached : get_exp_for_level p.level ≤ p.experience
  pub not_next : p.experience < get_exp_for_level (u32 (p.level + 1))

-- Each number has room for what the vocation gives for so many levels, below 2^31.
pub record HasRoom (levels : ℕ) (g : Gains) (p : Stats) : Type 0 where
  pub health : p.health + levels * g.gain_health < 0x8000_0000
  pub health_max : p.health_max + levels * g.gain_health < 0x8000_0000
  pub mana : p.mana + levels * g.gain_mana < 0x8000_0000
  pub mana_max : p.mana_max + levels * g.gain_mana < 0x8000_0000

-- A player some levels higher, with what the vocation gives for them.
pub record IsGrown (g : Gains) (p q : Stats) : Type 0 where
  pub levels : ℕ
  pub level : q.level ≡ p.level + levels
  pub experience : q.experience ≡ p.experience
  pub health : q.health ≡ p.health + levels * g.gain_health
  pub health_max : q.health_max ≡ p.health_max + levels * g.gain_health
  pub mana : q.mana ≡ p.mana + levels * g.gain_mana
  pub mana_max : q.mana_max ≡ p.mana_max + levels * g.gain_mana

-- A level below 500001 that is reached with less experience than level 500000 takes is below it.
below_top :
    (lv e : ℕ)
    → 1 ≤ lv
    → lv ≤ 500001
    → e < get_exp_for_level 500000
    → get_exp_for_level lv ≤ e
    → lv < 500000
below_top lv e h k l r = elim (Bool-cases (ltb lv 500000)) [
  | inl less ↦ ground arith
  | inr more ↦ absurd (omega (arith, level_mono 500000 lv (omega arith) (ground arith) k))
]

-- While there is room for a level, it is gained without wrapping around.
gained-HasRoom :
    (m : ℕ) (g : Gains) (p : Stats)
    → HasRoom (suc m) g p
    → HasRoom m g (gained g p)
      × ((gained g p).health ≡ p.health + g.gain_health)
      × ((gained g p).health_max ≡ p.health_max + g.gain_health)
      × ((gained g p).mana ≡ p.mana + g.gain_mana)
      × ((gained g p).mana_max ≡ p.mana_max + g.gain_mana)
unfolding gained
gained-HasRoom m g p w =
    let health : u32 (p.health + g.gain_health) ≡ p.health + g.gain_health =
      omega (arith, w.health) in
    let health_max : u32 (p.health_max + g.gain_health) ≡ p.health_max + g.gain_health =
      omega (arith, w.health_max) in
    let mana : u32 (p.mana + g.gain_mana) ≡ p.mana + g.gain_mana = omega (arith, w.mana) in
    let mana_max : u32 (p.mana_max + g.gain_mana) ≡ p.mana_max + g.gain_mana =
      omega (arith, w.mana_max) in
    (
      record {
        health = omega (arith, w.health, health);
        health_max = omega (arith, w.health_max, health_max);
        mana = omega (arith, w.mana, mana);
        mana_max = omega (arith, w.mana_max, mana_max);
      },
      health,
      health_max,
      mana,
      mana_max,
    )

IsGrown-step :
    (m : ℕ) (g : Gains) (p q : Stats)
    → p.level ≤ 500000
    → HasRoom (suc m) g p
    → IsGrown g (gained g p) q
    → IsGrown g p q
unfolding gained
IsGrown-step m g p q h w r =
    let step : u32 (p.level + 1) ≡ p.level + 1 = omega (arith, h) in
    let (kept, health, health_max, mana, mana_max) = gained-HasRoom m g p w in
    record {
      levels = suc r.levels;
      level = omega (arith, r.level, step);
      experience = r.experience;
      health = omega (arith, r.health, health);
      health_max = omega (arith, r.health_max, health_max);
      mana = omega (arith, r.mana, mana);
      mana_max = omega (arith, r.mana_max, mana_max);
    }

level_up-stays :
    (n : ℕ) (g : Gains) (p : Stats) (next : ℕ)
    → ltb p.experience next ≡ true
    → level_up n g p next ≡ some p
unfolding level_up
level_up-stays zero g p next h = rw (level_up, h) refl
level_up-stays (suc n) g p next h = rw (level_up, h) refl

level_up-rises :
    (n : ℕ) (g : Gains) (p : Stats) (next : ℕ)
    → ltb p.experience next ≡ false
    → 1 ≤ p.level
    → p.level < 500000
    → level_up (suc n) g p next
      ≡ level_up n g (gained g p) (get_exp_for_level (u32 ((gained g p).level + 1)))
unfolding level_up gained
level_up-rises n g p next h one k =
    let step : u32 (p.level + 1) ≡ p.level + 1 = omega (arith, k) in
    let more = level_next (p.level + 1) (omega arith) (omega arith) in
    let kept : ltb (get_exp_for_level (u32 (p.level + 1 + 1))) (get_exp_for_level (p.level + 1))
        ≡ false =
      ground (arith, more) in
    rw (level_up, h, step, kept) refl

-- What the loop comes to.
abbrev IsRisen : Gains → Stats → Option Stats → Type 0
IsRisen g p o = (q : Stats) × (o ≡ some q) × IsLevel q × IsGrown g p q

IsRisen-stays :
    (n : ℕ) (g : Gains) (p : Stats)
    → 1 ≤ p.level
    → p.level ≤ 500000
    → p.experience < get_exp_for_level 500000
    → get_exp_for_level p.level ≤ p.experience
    → ltb p.experience (get_exp_for_level (u32 (p.level + 1))) ≡ true
    → IsRisen g p (level_up n g p (get_exp_for_level (u32 (p.level + 1))))
IsRisen-stays n g p h k l r stays = (
  p,
  level_up-stays n g p _ stays,
  record { first = h; room = k; bounded = l; reached = r; not_next = ground arith },
  record {
    levels = 0;
    level = omega arith;
    experience = refl;
    health = omega arith;
    health_max = omega arith;
    mana = omega arith;
    mana_max = omega arith;
  },
)

rises-below_top :
    (p : Stats)
    → 1 ≤ p.level
    → p.level ≤ 500000
    → p.experience < get_exp_for_level 500000
    → ltb p.experience (get_exp_for_level (u32 (p.level + 1))) ≡ false
    → (p.level + 1 < 500000) × (get_exp_for_level (p.level + 1) ≤ p.experience)
rises-below_top p h k l rises =
    let step : u32 (p.level + 1) ≡ p.level + 1 = omega (arith, k) in
    let reached : get_exp_for_level (p.level + 1) ≤ p.experience =
      ground (arith, ap get_exp_for_level step) in
    (below_top (p.level + 1) p.experience (omega arith) (omega arith) l reached, reached)

-- `m` bounds the levels that are still to come.
level_up-IsLevel :
    (n m : ℕ) (g : Gains) (p : Stats)
    → 1 ≤ p.level
    → p.level ≤ 500000
    → p.experience < get_exp_for_level 500000
    → get_exp_for_level p.level ≤ p.experience
    → 500000 ≤ n + p.level
    → m + p.level ≡ 500000
    → HasRoom m g p
    → IsRisen g p (level_up n g p (get_exp_for_level (u32 (p.level + 1))))
unfolding gained
level_up-IsLevel zero m g p h k l r f b w =
    elim (Bool-cases (ltb p.experience (get_exp_for_level (u32 (p.level + 1))))) [
      | inl stays ↦ IsRisen-stays zero g p h k l r stays
      | inr rises ↦ absurd (omega (arith, (rises-below_top p h k l rises).0))
    ]
level_up-IsLevel (suc n) zero g p h k l r f b w =
    elim (Bool-cases (ltb p.experience (get_exp_for_level (u32 (p.level + 1))))) [
      | inl stays ↦ IsRisen-stays (suc n) g p h k l r stays
      | inr rises ↦ absurd (omega (arith, b, (rises-below_top p h k l rises).0))
    ]
level_up-IsLevel (suc n) (suc m) g p h k l r f b w =
    elim (Bool-cases (ltb p.experience (get_exp_for_level (u32 (p.level + 1))))) [
      | inl stays ↦ IsRisen-stays (suc n) g p h k l r stays
      | inr rises ↦
          let (room, reached) = rises-below_top p h k l rises in
          let step : (gained g p).level ≡ p.level + 1 = omega (arith, k) in
          let rest =
            level_up-IsLevel n m g (gained g p) (omega (arith, step)) (omega (arith, step)) l
              (subst (λ lv. get_exp_for_level lv ≤ p.experience) (sym step) reached)
              (omega (arith, step)) (omega (arith, b, step)) (gained-HasRoom m g p w).0 in
          (
            rest.0,
            level_up-rises n g p _ rises h (omega arith) ∙ rest.1,
            rest.2,
            IsGrown-step m g p rest.0 k w rest.3,
          )
    ]

pub with_percent-IsLevel : (p : Stats) → IsLevel p → IsLevel (with_percent p)
unfolding with_percent
with_percent-IsLevel p v = record {
  first = v.first;
  room = v.room;
  bounded = v.bounded;
  reached = v.reached;
  not_next = v.not_next;
}

with_percent-IsGrown : (g : Gains) (p q : Stats) → IsGrown g p q → IsGrown g p (with_percent q)
unfolding with_percent
with_percent-IsGrown g p q r = record {
  levels = r.levels;
  level = r.level;
  experience = r.experience;
  health = r.health;
  health_max = r.health_max;
  mana = r.mana;
  mana_max = r.mana_max;
}

pub top_exp : get_exp_for_level 500000 ≡ 2083308333474999800
unfolding get_exp_for_level
top_exp = refl

add_experience-level_up :
    (n : ℕ) (g : Gains) (p : Stats) (exp : ℕ) (q : Stats)
    → ltb (get_exp_for_level (u32 (p.level + 1))) (get_exp_for_level p.level) ≡ false
    → u64 (p.experience + exp) ≡ p.experience + exp
    → level_up n g
        (record p { experience = p.experience + exp })
        (get_exp_for_level (u32 (p.level + 1)))
      ≡ some q
    → add_experience n g p exp ≡ some (with_percent q)
unfolding add_experience
add_experience-level_up n g p exp q more sum loop = rw (add_experience, more, sum, loop) refl

-- With a vocation's gains and fuel for the levels below 500000: where the level goes with the
-- experience, the experience gained leaves it below what level 500000 takes, and what the vocation
-- gives for all the levels up to there keeps the health, the mana and their maxima below 2^31,
-- `addExperience` ends, the level goes with the new experience, and for each level gained these four
-- numbers have grown by what the vocation gives.
pub add_experience-IsLevel :
    (n : ℕ) (g : Gains) (p : Stats) (exp : ℕ)
    → IsLevel p
    → p.experience + exp < get_exp_for_level 500000
    → 500000 ≤ n + p.level
    → HasRoom (500000 - p.level) g p
    → (q : Stats) × (add_experience n g p exp ≡ some q)
      × IsLevel q
      × IsGrown g (record p { experience = p.experience + exp }) q
add_experience-IsLevel n g p exp v h f w =
    let sum : u64 (p.experience + exp) ≡ p.experience + exp = omega (arith, top_exp, h) in
    let next = level_next p.level v.first v.room in
    let more : ltb (get_exp_for_level (u32 (p.level + 1))) (get_exp_for_level p.level) ≡ false =
      ground (arith, next) in
    let start : Stats = record p { experience = p.experience + exp } in
    let loop =
      level_up-IsLevel n (500000 - p.level) g start v.first v.room h (omega (arith, v.reached)) f
        (omega (arith, v.room))
        (record {
          health = w.health;
          health_max = w.health_max;
          mana = w.mana;
          mana_max = w.mana_max;
        }) in
    (
      with_percent loop.0,
      add_experience-level_up n g p exp loop.0 more sum loop.1,
      with_percent-IsLevel loop.0 loop.2,
      with_percent-IsGrown g start loop.0 loop.3,
    )
