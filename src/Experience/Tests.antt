-- ===== src/Experience/Tests.antt =====
-- A player of level 8, and what the theorems say of them.
use darghos_tfs04_86_v.Base.{ℕ, ◌+◌, ◌*◌, ◌≡◌, refl, some, arith, ltb, if◌then◌else◌}
use darghos_tfs04_86_v.Experience.{get_exp_for_level, Gains, Stats, add_experience}
use darghos_tfs04_86_v.Experience.Levels.{IsLevel, IsGrown, add_experience-IsLevel}
use darghos_tfs04_86_v.Experience.Skills.{Skill, spend}
use darghos_tfs04_86_v.Experience.Advances.{IsAdvanced, spend-IsPaid}

-- What a knight gains.
abbrev knight : Gains
knight = record { gain_health = 15; gain_mana = 5 }

abbrev rookie : Stats
rookie = record {
  level = 8;
  experience = 4200;
  level_percent = 0;
  health = 185;
  health_max = 185;
  mana = 35;
  mana_max = 35;
}

rookie-IsLevel : IsLevel rookie
unfolding get_exp_for_level
rookie-IsLevel = record {
  first = omega arith;
  room = omega arith;
  bounded = omega arith;
  reached = omega arith;
  not_next = omega arith;
}

level_100 : get_exp_for_level 100 ≡ 15694800
unfolding get_exp_for_level
level_100 = refl

add_experience-IsLevel_example :
    (q : Stats) × (add_experience 500000 knight rookie 10000 ≡ some q)
    × IsLevel q
    × IsGrown knight (record rookie { experience = 14200 }) q
unfolding get_exp_for_level
add_experience-IsLevel_example =
    add_experience-IsLevel 500000 knight rookie 10000 rookie-IsLevel (omega arith) (omega arith)
      (record {
        health = omega arith;
        health_max = omega arith;
        mana = omega arith;
        mana_max = omega arith;
      })

abbrev sword : Skill
sword = record { level = 10; tries = 20; percent = 40 }

-- Each level above 9 takes five tries more than the last, as far as 60; the rates double the tries.
abbrev needed : ℕ → ℕ
needed lv = if ltb lv 10 then 0 else if ltb lv 60 then 5 * lv + 1 else 0

spend-IsPaid_example :
    IsAdvanced needed sword 200 (spend 49 0x1_0000_0000 needed (λ c. c * 2) sword 100)
spend-IsPaid_example =
    spend-IsPaid 0x1_0000_0000 needed 50 49 (λ c. c * 2) sword 100 (λ lv h k. ground (arith, h, k))
      (omega arith) (omega arith) (omega arith) (omega arith) (omega arith) (omega arith)
      (omega arith)
