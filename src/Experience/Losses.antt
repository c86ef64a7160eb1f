-- ===== src/Experience/Losses.antt =====
-- The level that goes with the experience, when experience is lost, after a gain too.
use darghos_tfs04_86_v.Base.{
  ℕ, zero, suc, ◌+◌, ◌-◌, ◌*◌, ◌≤◌, ◌<◌, ◌≡◌, refl, sym, ap, false, some, min, ltb, leb, arith,
  Bool-cases, inl, inr, u32, ◌&&◌,
}
use darghos_tfs04_86_v.Experience.{
  get_exp_for_level, Gains, Stats, add_experience, lost, level_down, remove_experience,
  with_percent,
}
use darghos_tfs04_86_v.Experience.Table.{level_mono}
use darghos_tfs04_86_v.Experience.Levels.{
  HasRoom, IsLevel, with_percent-IsLevel, add_experience-IsLevel,
}

-- A player some levels lower.
pub record IsShrunk (g : Gains) (p q : Stats) : Type 0 where
  pub levels : ℕ
  pub level : q.level + levels ≡ p.level
  pub experience : q.experience ≡ p.experience
  pub health : q.health ≡ p.health
  pub health_max : q.health_max ≡ p.health_max - levels * g.gain_health
  pub mana : q.mana ≡ p.mana
  pub mana_max : q.mana_max ≡ p.mana_max - levels * g.gain_mana

IsShrunk-refl : (g : Gains) (p : Stats) → IsShrunk g p p
IsShrunk-refl g p = record {
  levels = 0;
  level = omega arith;
  experience = refl;
  health = refl;
  health_max = omega arith;
  mana = refl;
  mana_max = omega arith;
}

IsShrunk-step : (g : Gains) (p q : Stats) → 1 ≤ p.level → IsShrunk g (lost g p) q → IsShrunk g p q
unfolding lost
IsShrunk-step g p q h r = record {
  levels = suc r.levels;
  level = omega (arith, r.level);
  experience = r.experience;
  health = r.health;
  health_max = omega (arith, r.health_max);
  mana = r.mana;
  mana_max = omega (arith, r.mana_max);
}

first_exp : get_exp_for_level 1 ≡ 0
unfolding get_exp_for_level
first_exp = refl

stays-reached :
    (p : Stats)
    → 1 ≤ p.level
    → (ltb 1 p.level && ltb p.experience (get_exp_for_level p.level)) ≡ false
    → get_exp_for_level p.level ≤ p.experience
stays-reached p h stays = elim (Bool-cases (ltb 1 p.level)) [
  | inl more ↦ ground arith
  | inr one ↦
      let lowest : p.level ≡ 1 = ground arith in
      omega (arith, ap get_exp_for_level lowest, first_exp)
]

level_down-IsLevel :
    (n : ℕ) (g : Gains) (p : Stats)
    → 1 ≤ p.level
    → p.level ≤ 500000
    → p.level ≤ n
    → p.experience < get_exp_for_level 500000
    → p.experience < get_exp_for_level (u32 (p.level + 1))
    → IsLevel (level_down n g p) × IsShrunk g p (level_down n g p)
unfolding level_down
level_down-IsLevel zero g p h k f l r = absurd (omega arith)
level_down-IsLevel (suc n) g p h k f l r =
    elim (Bool-cases (ltb 1 p.level && ltb p.experience (get_exp_for_level p.level))) [
      | inl falls ↦
          let back : p.level ≡ u32 (p.level - 1 + 1) = ground (arith, k) in
          let rest =
            level_down-IsLevel n g (lost g p) (ground arith) (ground (arith, k)) (ground (arith, f))
              l (ground (arith, ap get_exp_for_level back)) in
          rw falls (rest.0, IsShrunk-step g p _ h rest.1)
      | inr stays ↦ rw stays (
        record {
          first = h;
          room = k;
          bounded = l;
          reached = stays-reached p h stays;
          not_next = r;
        },
        IsShrunk-refl g p,
      )
    ]

with_percent-IsShrunk : (g : Gains) (p q : Stats) → IsShrunk g p q → IsShrunk g p (with_percent q)
unfolding with_percent
with_percent-IsShrunk g p q r = record {
  levels = r.levels;
  level = r.level;
  experience = r.experience;
  health = r.health;
  health_max = r.health_max;
  mana = r.mana;
  mana_max = r.mana_max;
}

-- Where the level goes with the experience, `removeExperience` leaves the experience less the loss,
-- or 0, a level that goes with it, and maxima of health and mana that have fallen for each level by
-- what the vocation gives, or to 0.
pub remove_experience-IsLevel :
    (g : Gains) (p : Stats) (exp : ℕ)
    → IsLevel p
    → IsLevel (remove_experience g p exp)
      × IsShrunk g (record p { experience = p.experience - exp }) (remove_experience g p exp)
unfolding remove_experience
remove_experience-IsLevel g p exp v =
    let less : p.experience - min exp p.experience ≡ p.experience - exp = omega arith in
    let start : Stats = record p { experience = p.experience - exp } in
    let loop =
      level_down-IsLevel p.level g start v.first v.room (omega arith) (omega (arith, v.bounded))
        (omega (arith, v.not_next)) in
    rw (remove_experience, less)
      (with_percent-IsLevel _ loop.0, with_percent-IsShrunk g start _ loop.1)

-- Two levels that go with the same experience are the same.
IsLevel-unique :
    (p q : Stats) → IsLevel p → IsLevel q → p.experience ≡ q.experience → p.level ≤ q.level
IsLevel-unique p q v w e = elim (Bool-cases (leb p.level q.level)) [
  | inl le ↦ ground arith
  | inr gt ↦
      let step : u32 (q.level + 1) ≡ q.level + 1 = omega (arith, w.room) in
      let high =
        level_mono (q.level + 1) p.level (omega arith) (ground arith) (omega (arith, v.room)) in
      absurd (omega (arith, high, v.reached, w.not_next, ap get_exp_for_level step, e))
]

-- Losing what was gained gives back the level, the experience and the maxima of health and mana; the
-- health and the mana keep what the levels in between gave.
pub remove_experience-add_experience :
    (n : ℕ) (g : Gains) (p : Stats) (exp : ℕ)
    → IsLevel p
    → p.experience + exp < get_exp_for_level 500000
    → 500000 ≤ n + p.level
    → HasRoom (500000 - p.level) g p
    → (q : Stats) × (add_experience n g p exp ≡ some q)
      × ((remove_experience g q exp).level ≡ p.level)
      × ((remove_experience g q exp).experience ≡ p.experience)
      × ((remove_experience g q exp).health_max ≡ p.health_max)
      × ((remove_experience g q exp).mana_max ≡ p.mana_max)
remove_experience-add_experience n g p exp v h f room =
    let up = add_experience-IsLevel n g p exp v h f room in
    let q = up.0 in
    let grown = up.3 in
    let down = remove_experience-IsLevel g q exp up.2 in
    let shrunk = down.1 in
    let exp_back : (remove_experience g q exp).experience ≡ p.experience =
      omega (arith, shrunk.experience, grown.experience) in
    let level_back : (remove_experience g q exp).level ≡ p.level =
      omega
        (arith, IsLevel-unique _ p down.0 v exp_back, IsLevel-unique p _ v down.0 (sym exp_back)) in
    let same : shrunk.levels ≡ grown.levels =
      omega (arith, shrunk.level, grown.level, level_back) in
    (
      q,
      up.1,
      level_back,
      exp_back,
      omega (arith, shrunk.health_max, grown.health_max, ap (λ (k : ℕ). k * g.gain_health) same),
      omega (arith, shrunk.mana_max, grown.mana_max, ap (λ (k : ℕ). k * g.gain_mana) same),
    )
