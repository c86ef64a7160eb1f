-- ===== src/Party/Shared.antt =====
-- The shared experience of party.cpp: who may share, and the two flags of the party.
use darghos_tfs04_86_v.Base.{
  ℕ, ◌+◌, Bool, true, false, not, ◌&&◌, ◌||◌, Option, none, some, List, [], ◌∷◌, ltb, leb, ◌==◌,
  if◌then◌else◌, u32, all, is_empty,
}
use darghos_tfs04_86_v.Position.{are_in_range}
use darghos_tfs04_86_v.Party.{CountBlock, Party, Players, Env}

-- `pointMap.find`.
unfoldable pub find_points : ℕ → List (ℕ × CountBlock) → Option CountBlock
find_points p [] = none
find_points p ((q, b) ∷ ps) = if p == q then some b else find_points p ps

-- The loop over the members in `canEnableSharedExperience` and `canUseSharedExperience`.
unfoldable pub highest_level : Players → ℕ → List ℕ → ℕ
highest_level players highest [] = highest
highest_level players highest (m ∷ ms) =
    highest_level players (if ltb highest (players m).level then (players m).level else highest) ms

-- The player has dealt damage or healed recently. The clock does not fall below the tick.
is_active : Env → Option CountBlock → Bool
is_active env none = false
is_active env (some b) = leb env.now (b.ticks + env.activity)

-- `Party::canUseSharedExperience`; a highest level of 0 is replaced by that of the party.
unfoldable pub can_use_shared_experience : Env → Players → Party → ℕ → ℕ → Bool
unfolding is_active
can_use_shared_experience env players party p highest =
    let top =
      if highest == 0
      then highest_level players (players party.leader).level party.members
      else highest in
    not (players p).removed
    && not (
        ltb (players p).level (env.min_level top)
        || not (are_in_range env.radius (players party.leader).position (players p).position))
    && is_active env (find_points p party.points)

-- `Party::canEnableSharedExperience`.
unfoldable pub can_enable_shared_experience : Env → Players → Party → Bool
can_enable_shared_experience env players party =
    let top = highest_level players (players party.leader).level party.members in
    not (is_empty party.members)
    && all (λ m. can_use_shared_experience env players party m top) party.members
    && can_use_shared_experience env players party party.leader top

abbrev pub bool_eq : Bool → Bool → Bool
bool_eq true b = b
bool_eq false b = not b

-- `Party::updateSharedExperience`.
unfoldable pub update_shared_experience : Env → Players → Party → Party
update_shared_experience env players party =
    let result = can_enable_shared_experience env players party in
    if not party.shared_exp_active
    then party
    else if bool_eq result party.shared_exp_enabled
    then party
    else record party { shared_exp_enabled = result }

-- `Party::setSharedExperience`. Switching it off leaves `sharedExpEnabled` as it was.
unfoldable pub set_shared_experience : Env → Players → Party → ℕ → Bool → Party × Bool
set_shared_experience env players party p active =
    let on = record party { shared_exp_active = true } in
    if (players p).removed || not (p == party.leader)
    then (party, false)
    else if bool_eq party.shared_exp_active active
    then (party, true)
    else if active
    then (record on { shared_exp_enabled = can_enable_shared_experience env players on }, true)
    else (record party { shared_exp_active = false }, true)

unfoldable pub put_points : ℕ → CountBlock → List (ℕ × CountBlock) → List (ℕ × CountBlock)
put_points p b [] = (p, b) ∷ []
put_points p b ((q, c) ∷ ps) = if p == q then (q, b) ∷ ps else (q, c) ∷ put_points p b ps

unfoldable pub erase_points : ℕ → List (ℕ × CountBlock) → List (ℕ × CountBlock)
erase_points p [] = []
erase_points p ((q, c) ∷ ps) = if p == q then ps else (q, c) ∷ erase_points p ps

unfoldable pub healed : Env → ℕ → Option CountBlock → CountBlock
healed env n none = record { total_heal = n; total_damage = 0; ticks = env.now }
healed env n (some b) = record b { total_heal = u32 (b.total_heal + n); ticks = env.now }

unfoldable pub damaged : Env → ℕ → Option CountBlock → CountBlock
damaged env n none = record { total_heal = 0; total_damage = n; ticks = env.now }
damaged env n (some b) = record b { total_damage = u32 (b.total_damage + n); ticks = env.now }

-- `Party::addPlayerHealedMember`.
unfoldable pub add_player_healed_member : Env → Players → Party → ℕ → ℕ → Party
unfolding healed
add_player_healed_member env players party p n =
    if n == 0
    then party
    else update_shared_experience env players (record party {
      points = put_points p (healed env n (find_points p party.points)) party.points;
    })

-- `Party::addPlayerDamageMonster`.
unfoldable pub add_player_damage_monster : Env → Players → Party → ℕ → ℕ → Party
unfolding damaged
add_player_damage_monster env players party p n =
    if n == 0
    then party
    else update_shared_experience env players (record party {
      points = put_points p (damaged env n (find_points p party.points)) party.points;
    })

-- `Party::clearPlayerPoints`.
unfoldable pub clear_player_points : Env → Players → Party → ℕ → Party
clear_player_points env players party p = elim (find_points p party.points) [
  | none ↦ party
  | some b ↦
      update_shared_experience env players (record party { points = erase_points p party.points })
]
