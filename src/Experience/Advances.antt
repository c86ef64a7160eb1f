-- ===== src/Experience/Advances.antt =====
-- The tries that levels take are paid, and no others.
use darghos_tfs04_86_v.Base.{
  ℕ, zero, suc, ◌+◌, ◌-◌, ◌%◌, ◌≤◌, ◌<◌, ◌≡◌, refl, ◌∙◌, ap, true, false, Option, some, ltb, u32,
  arith, Bool-cases, inl, inr, ◌==◌, ==_iff,
}
use native.Mathlib.Nat.{mod-eq_of_lt, add-mod_right}
use darghos_tfs04_86_v.Experience.Skills.{
  Skill, wrapped, difference, Advance, advance, settled, spend,
}

-- What the levels behind a level take together.
abbrev pub taken : (ℕ → ℕ) → ℕ → ℕ → ℕ
taken req lv zero = 0
taken req lv (suc k) = req (lv + 1) + taken req (lv + 1) k

-- The skill and what is remaining of a count, after some levels.
pub record IsPaid (req : ℕ → ℕ) (sk : Skill) (count : ℕ) (a : Advance) : Type 0 where
  pub levels : ℕ
  pub level : a.skill.level ≡ sk.level + levels
  pub paid : a.skill.tries + a.remaining + taken req sk.level levels ≡ sk.tries + count
  pub next : a.next ≡ req (a.skill.level + 1)
  pub not_next : a.skill.tries + a.remaining < a.next

-- A difference that is not negative does not wrap around.
difference-sub : (words a b : ℕ) → a < words → b ≤ a → difference words a b ≡ a - b
difference-sub words a b h k =
    let e : a + (words - b) ≡ (a - b) + words = omega (arith, h, k) in
    ap (λ (t : ℕ). t % words) e ∙ add-mod_right (a - b) words ∙ mod-eq_of_lt (omega (arith, h))

turn :
    (words tries count next : ℕ)
    → tries + count < words
    → tries ≤ next
    → ltb (wrapped words (tries + count)) next ≡ false
    → (difference words count (difference words next tries) ≡ tries + count - next)
      × (next ≤ tries + count)
turn words tries count next h l more =
    let whole : wrapped words (tries + count) ≡ tries + count = mod-eq_of_lt h in
    let le : next ≤ tries + count = ground (arith, whole) in
    let inner = difference-sub words next tries (omega (arith, h)) l in
    let outer = difference-sub words count (next - tries) (omega (arith, h)) (omega (arith, le)) in
    (ap (difference words count) inner ∙ outer ∙ omega (arith, l, le), le)

abbrev IsPaying : (ℕ → ℕ) → Skill → ℕ → Option Advance → Type 0
IsPaying req sk count o = (a : Advance) × (o ≡ some a) × IsPaid req sk count a

-- A skill that has paid for its levels.
abbrev pub IsAdvanced : (ℕ → ℕ) → Skill → ℕ → Option Skill → Type 0
IsAdvanced req sk count o =
    (q : Skill) × (levels : ℕ) × (o ≡ some q)
    × (q.level ≡ sk.level + levels)
    × (q.tries + taken req sk.level levels ≡ sk.tries + count)
    × (q.tries < req (q.level + 1))

-- What the loop comes to, for requirements that do not fall from a level up to another.
module _ (words : ℕ) (req : ℕ → ℕ) (low top : ℕ)
    (rising : (lv : ℕ) → low ≤ lv → lv < top → req lv ≤ req (lv + 1)) where
  stays-IsPaid :
      (sk : Skill) (count : ℕ)
      → sk.tries + count < words
      → ltb (wrapped words (sk.tries + count)) (req (sk.level + 1)) ≡ true
      → IsPaid req sk count (record { skill = sk; remaining = count; next = req (sk.level + 1) })
  stays-IsPaid sk count h stays =
      let whole : wrapped words (sk.tries + count) ≡ sk.tries + count = mod-eq_of_lt h in
      record {
        levels = 0;
        level = omega arith;
        paid = omega arith;
        next = refl;
        not_next = ground (arith, whole);
      }

  rises-IsPaid :
      (sk : Skill) (count remaining : ℕ) (a : Advance)
      → remaining ≡ sk.tries + count - req (sk.level + 1)
      → req (sk.level + 1) ≤ sk.tries + count
      → IsPaid req (record { level = sk.level + 1; tries = 0; percent = 0 }) remaining a
      → IsPaid req sk count a
  rises-IsPaid sk count remaining a e le r = record {
    levels = suc r.levels;
    level = omega (arith, r.level);
    paid = omega (arith, r.paid, e, le);
    next = r.next;
    not_next = r.not_next;
  }

  advance-stays :
      (n : ℕ) (sk : Skill) (count next : ℕ)
      → ltb (wrapped words (sk.tries + count)) next ≡ true
      → advance n words req sk count next
        ≡ some (record { skill = sk; remaining = count; next = next })
  unfolding advance
  advance-stays zero sk count next e = rw (advance, e) refl
  advance-stays (suc n) sk count next e = rw (advance, e) refl

  advance-rises :
      (n : ℕ) (sk : Skill) (count remaining : ℕ)
      → sk.level + 2 < 0xFFFF_FFFF
      → low ≤ sk.level
      → sk.level + 1 < top
      → ltb (wrapped words (sk.tries + count)) (req (sk.level + 1)) ≡ false
      → difference words count (difference words (req (sk.level + 1)) sk.tries) ≡ remaining
      → advance (suc n) words req sk count (req (sk.level + 1))
        ≡ advance n words req
            (record { level = sk.level + 1; tries = 0; percent = 0 })
            remaining
            (req (sk.level + 1 + 1))
  unfolding advance
  advance-rises n sk count remaining f i t e d =
      let step : u32 (sk.level + 1) ≡ sk.level + 1 = omega (arith, f) in
      let step2 : u32 (sk.level + 1 + 1) ≡ sk.level + 1 + 1 = omega (arith, f) in
      let more : ltb (req (sk.level + 1 + 1)) (req (sk.level + 1)) ≡ false =
        ground (arith, i, t, rising (sk.level + 1) (omega (arith, i)) t) in
      rw (advance, e, step, step2, more, d) refl

  -- A level that the tries pay is not the last one.
  below_last : (lv total : ℕ) → lv ≤ top → req lv ≤ total → total < req top → lv < top
  below_last lv total t le c = elim (Bool-cases (lv == top)) [
    | inl last ↦ absurd (omega (arith, le, c, ap req ((==_iff lv top).0 last)))
    | inr other ↦ ground (arith, t, other, ==_iff lv top)
  ]

  advance-IsPaid :
      (n : ℕ) (sk : Skill) (count : ℕ)
      → sk.tries + count < words
      → sk.tries ≤ req (sk.level + 1)
      → low ≤ sk.level
      → sk.level < top
      → sk.tries + count < req top
      → top + 2 < 0xFFFF_FFFF
      → top ≤ n + sk.level + 1
      → IsPaying req sk count (advance n words req sk count (req (sk.level + 1)))
  advance-IsPaid zero sk count h l i t c f g =
      let last : top ≡ sk.level + 1 = omega (arith, t, g) in
      let stays : ltb (wrapped words (sk.tries + count)) (req (sk.level + 1)) ≡ true =
        ground (arith, mod-eq_of_lt h, c, ap req last) in
      (_, advance-stays zero sk count (req (sk.level + 1)) stays, stays-IsPaid sk count h stays)
  advance-IsPaid (suc n) sk count h l i t c f g =
      elim (Bool-cases (ltb (wrapped words (sk.tries + count)) (req (sk.level + 1)))) [
        | inl stays ↦ (
          _,
          advance-stays (suc n) sk count (req (sk.level + 1)) stays,
          stays-IsPaid sk count h stays,
        )
        | inr rises ↦
            let (remaining, le) = turn words sk.tries count (req (sk.level + 1)) h l rises in
            let before_top = below_last (sk.level + 1) (sk.tries + count) (omega (arith, t)) le c in
            let rest =
              advance-IsPaid n (record { level = sk.level + 1; tries = 0; percent = 0 })
                (sk.tries + count - req (sk.level + 1)) (omega (arith, h)) (omega arith)
                (omega (arith, i)) before_top (omega (arith, c)) f (omega (arith, g)) in
            (
              rest.0,
              advance-rises n sk count _ (omega (arith, f, t)) i before_top rises remaining
                  ∙ rest.1,
              rises-IsPaid sk count _ rest.0 refl le rest.2,
            )
      ]

  settled-tries :
      (sk : Skill) (count : ℕ) (a : Advance)
      → sk.tries + count < words
      → IsPaid req sk count a
      → ((settled words a).level ≡ a.skill.level)
        × ((settled words a).tries ≡ a.skill.tries + a.remaining)
  unfolding settled
  settled-tries sk count a h r = (refl, mod-eq_of_lt (omega (arith, h, r.paid)))

  spend-advance :
      (n : ℕ) (rate : ℕ → ℕ) (sk : Skill) (count : ℕ) (a : Advance)
      → (count == 0) ≡ false
      → sk.level + 2 < 0xFFFF_FFFF
      → req sk.level ≤ req (sk.level + 1)
      → advance n words req sk (rate count) (req (sk.level + 1)) ≡ some a
      → spend n words req rate sk count ≡ some (settled words a)
  unfolding spend
  spend-advance n rate sk count a e f up h =
      let step : u32 (sk.level + 1) ≡ sk.level + 1 = omega (arith, f) in
      let more : ltb (req (sk.level + 1)) (req sk.level) ≡ false = ground (arith, up) in
      rw (spend, e, step, more, h) refl

-- What the next levels take does not fall from the player's level up to a level `top`, and the tries,
-- with the new ones, do not pay `top` at once. For a count above 0, with the rates' product in the range
-- of the words and tries that do not exceed what the next level takes, `addSkillAdvance`, whose words
-- have 32 bits, and `addManaSpent`, where they have 64, end within as many turns as there are levels to
-- `top`: the tries before and the new ones pay what the levels gained take, what is left counts towards
-- the next level, and is not enough for it.
pub spend-IsPaid :
    (words : ℕ) (req : ℕ → ℕ) (top n : ℕ) (rate : ℕ → ℕ) (sk : Skill) (count : ℕ)
    → ((lv : ℕ) → sk.level ≤ lv → lv < top → req lv ≤ req (lv + 1))
    → sk.level < top
    → top + 2 < 0xFFFF_FFFF
    → sk.tries + rate count < req top
    → 0 < count
    → sk.tries + rate count < words
    → sk.tries ≤ req (sk.level + 1)
    → top ≤ n + sk.level + 1
    → IsAdvanced req sk (rate count) (spend n words req rate sk count)
spend-IsPaid words req top n rate sk count rising t f c some_count h l g =
    let (a, e, r) =
      advance-IsPaid words req sk.level top rising n sk (rate count) h l (omega arith) t c f g in
    let (level, tries) = settled-tries words req sk.level top rising sk (rate count) a h r in
    (
      settled words a,
      r.levels,
      spend-advance words req sk.level top rising n rate sk count a (ground arith)
          (omega (arith, f, t)) (rising sk.level (omega arith) t) e,
      omega (arith, level, r.level),
      omega (arith, tries, r.paid),
      omega (arith, tries, r.not_next, r.next, ap (λ lv. req (lv + 1)) level),
    )
