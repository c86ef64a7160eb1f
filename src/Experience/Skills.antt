-- ===== src/Experience/Skills.antt =====
-- Tries and mana spent, which make skills and the magic level advance: addSkillAdvance and
-- addManaSpent of src/player.cpp. What the next level takes, `getReqSkillTries` and `getReqMana` of the
-- vocation, is computed with `double`s, and is a function here; so is the multiplication with the
-- rates.
use darghos_tfs04_86_v.Base.{
  ℕ, zero, suc, ◌+◌, ◌-◌, ◌%◌, Option, none, some, ltb, if◌then◌else◌, u32, ◌==◌,
}
use darghos_tfs04_86_v.Experience.{get_percent_level}

-- A skill, or the magic level with `manaSpent` as its tries.
pub record Skill : Type 0 where
  pub level : ℕ
  pub tries : ℕ
  pub percent : ℕ

-- A number of so many words, and a difference of two.
abbrev pub wrapped : ℕ → ℕ → ℕ
wrapped words n = n % words

abbrev pub difference : ℕ → ℕ → ℕ → ℕ
difference words a b = (a + (words - b)) % words

-- One turn of the loops: a level up.
abbrev pub next_level : Skill → Skill
next_level sk = record { level = u32 (sk.level + 1); tries = 0; percent = 0 }

-- The skill behind the loop, the tries that remain for it, and what the next level takes.
pub record Advance : Type 0 where
  pub skill : Skill
  pub remaining : ℕ
  pub next : ℕ

-- The loop of both; none means that the fuel ran out.
unfoldable pub advance : ℕ → ℕ → (ℕ → ℕ) → Skill → (count next : ℕ) → Option Advance
advance zero words req sk count next =
    if ltb (wrapped words (sk.tries + count)) next
    then some (record { skill = sk; remaining = count; next = next })
    else none
advance (suc n) words req sk count next =
    let up = next_level sk in
    let after = req (u32 (up.level + 1)) in
    let rest =
      advance n words req up (difference words count (difference words next sk.tries)) after in
    if ltb (wrapped words (sk.tries + count)) next
    then some (record { skill = sk; remaining = count; next = next })
    else if ltb after next
    then some (record { skill = up; remaining = 0; next = after })
    else rest

-- Behind the loop: the tries are counted, and the percentage.
unfoldable pub settled : ℕ → Advance → Skill
unfolding get_percent_level
settled words a =
    let tries = wrapped words (a.skill.tries + a.remaining) in
    record { level = a.skill.level; tries = tries; percent = u32 (get_percent_level tries a.next) }

-- The body of both functions, for a count that is not 0 before the rates multiply it.
unfoldable pub spend : ℕ → ℕ → (ℕ → ℕ) → (ℕ → ℕ) → Skill → ℕ → Option Skill
unfolding advance settled
spend n words req rate sk count =
    let next = req (u32 (sk.level + 1)) in
    if count == 0
    then some sk
    else if ltb next (req sk.level)
    then some sk
    else elim (advance n words req sk (rate count) next) [
      | none ↦ none
      | some a ↦ some (settled words a)
    ]

-- `addSkillAdvance` and `addManaSpent`, with what the rates make of a count.
unfoldable pub add_skill_advance : ℕ → (ℕ → ℕ) → (ℕ → ℕ) → Skill → ℕ → Option Skill
unfolding spend
add_skill_advance n req rate sk count = spend n 0x1_0000_0000 req rate sk count

unfoldable pub add_mana_spent : ℕ → (ℕ → ℕ) → (ℕ → ℕ) → Skill → ℕ → Option Skill
unfolding spend
add_mana_spent n req rate sk count = spend n 0x1_0000_0000_0000_0000 req rate sk count
