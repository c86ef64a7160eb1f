-- ===== src/Experience.antt =====
-- The levels of a player in src/player.h and src/player.cpp: the experience for a level, and what
-- gaining and losing experience do to the level and to what comes with it. The capacity is a `double`
-- and is left out, and so are the messages and the events of scripts. The `int32_t`s of health and mana
-- are written as patterns of 32 bits, where those of 2^31 and more stand for negative numbers.
pub mod Table
pub mod Levels
pub mod Losses
pub mod Skills
pub mod Advances
mod Tests
use darghos_tfs04_86_v.Base.{
  ℕ, zero, suc, ◌+◌, ◌-◌, ◌*◌, ◌/◌, ◌%◌, Bool, true, false, ◌&&◌, Option, none, some, min, ltb, leb,
  if◌then◌else◌, u32,
}

abbrev pub u64 : ℕ → ℕ
u64 n = n % 0x1_0000_0000_0000_0000

-- The difference of two numbers of 64 bits.
abbrev pub sub64 : ℕ → ℕ → ℕ
sub64 a b = u64 (a + (0x1_0000_0000_0000_0000 - b))

-- `getExpForLevel`, where `lv` has 32 bits and the products have 64.
unfoldable pub get_exp_for_level : ℕ → ℕ
get_exp_for_level lv =
    let l = u32 (lv + 0xFFFF_FFFF) in
    u64 (sub64 (u64 (50 * l * l * l)) (u64 (150 * l * l)) + u64 (400 * l)) / 3

-- What the vocation gives for a level.
pub record Gains : Type 0 where
  pub gain_health : ℕ
  pub gain_mana : ℕ

pub record Stats : Type 0 where
  pub level : ℕ
  pub experience : ℕ
  pub level_percent : ℕ
  pub health : ℕ
  pub health_max : ℕ
  pub mana : ℕ
  pub mana_max : ℕ

-- `getPercentLevel`.
unfoldable pub get_percent_level : ℕ → ℕ → ℕ
get_percent_level count next = if ltb 0 next then min 100 (u32 (u64 (count * 100) / next)) else 0

-- The end of both functions.
unfoldable pub with_percent : Stats → Stats
unfolding get_percent_level
with_percent p =
    let now = get_exp_for_level p.level in
    let next = get_exp_for_level (u32 (p.level + 1)) in
    record p {
      level_percent =
          if ltb now next then get_percent_level (sub64 p.experience now) (sub64 next now) else 0;
    }

-- One turn of the loop of `addExperience`. The four numbers are patterns of 32 bits.
unfoldable pub gained : Gains → Stats → Stats
gained g p = record p {
  level = u32 (p.level + 1);
  health = u32 (p.health + g.gain_health);
  health_max = u32 (p.health_max + g.gain_health);
  mana = u32 (p.mana + g.gain_mana);
  mana_max = u32 (p.mana_max + g.gain_mana);
}

-- The loop of `addExperience`; none means that the fuel ran out.
unfoldable pub level_up : ℕ → Gains → Stats → ℕ → Option Stats
unfolding gained
level_up zero g p next = if ltb p.experience next then some p else none
level_up (suc n) g p next =
    let q = gained g p in
    let after = get_exp_for_level (u32 (q.level + 1)) in
    let rest = level_up n g q after in
    if ltb p.experience next
    then some p
    else if ltb after (get_exp_for_level q.level)
    then some q
    else rest

-- `addExperience`.
unfoldable pub add_experience : ℕ → Gains → Stats → ℕ → Option Stats
unfolding level_up with_percent
add_experience n g p exp =
    let next = get_exp_for_level (u32 (p.level + 1)) in
    if ltb next (get_exp_for_level p.level)
    then some (record p { level_percent = 0 })
    else elim (level_up n g (record p { experience = u64 (p.experience + exp) }) next) [
      | none ↦ none
      | some q ↦ some (with_percent q)
    ]

-- One turn of the loop of `removeExperience`; health and mana above the new maxima stay.
unfoldable pub lost : Gains → Stats → Stats
lost g p = record p {
  level = p.level - 1;
  health_max = p.health_max - g.gain_health;
  mana_max = p.mana_max - g.gain_mana;
}

-- The loop of `removeExperience`. Each turn takes a level away, so that as many turns as there are
-- levels are enough.
unfoldable pub level_down : ℕ → Gains → Stats → Stats
unfolding lost
level_down zero g p = p
level_down (suc n) g p =
    let rest = level_down n g (lost g p) in
    if ltb 1 p.level && ltb p.experience (get_exp_for_level p.level) then rest else p

-- `removeExperience`.
unfoldable pub remove_experience : Gains → Stats → ℕ → Stats
unfolding level_down with_percent
remove_experience g p exp =
    with_percent
      (level_down p.level g (record p { experience = p.experience - min exp p.experience }))
