-- ===== src/Party/Sharing.antt =====
-- The shared experience: when the flag is up to date, and what it promises.
use darghos_tfs04_86_v.Base.{
  ℕ, ◌≡◌, ◌≢◌, ◌≤◌, ◌⊎◌, refl, Bool, true, false, not, ◌&&◌, ◌||◌, Option, none, some, List, [],
  ◌∷◌, mem, ◌==◌, ltb, arith, ==_iff, Bool-cases, Option-cases, inl, inr, all, if◌then◌else◌,
  remove, update, distinct, sym, ap, ◌∙◌,
}
use darghos_tfs04_86_v.Position.{are_in_range}
use darghos_tfs04_86_v.Party.{
  Party, Players, Env, is_player_member, is_player_invited, set_party, can_disband,
}
use darghos_tfs04_86_v.Party.Shared.{
  highest_level, can_use_shared_experience, can_enable_shared_experience, update_shared_experience,
  clear_player_points, add_player_healed_member, add_player_damage_monster, bool_eq, find_points,
  erase_points,
}
use darghos_tfs04_86_v.Party.Methods.{pass_leadership, join, leave, drop_player}
use darghos_tfs04_86_v.Party.Inv.{belongs, on_roster, Agrees}
use darghos_tfs04_86_v.Party.Safety.Leave.{leave-Kept}

-- While sharing is switched on, the flag tells whether it is possible now.
abbrev pub IsUpToDate : Env → Players → Option Party → Type 0
IsUpToDate env players none = Unit {0}
IsUpToDate env players (some party) =
    (party.shared_exp_active ≡ false)
    ⊎ (party.shared_exp_enabled ≡ can_enable_shared_experience env players party)

bool_eq_sound : (a b : Bool) → bool_eq a b ≡ true → a ≡ b
bool_eq_sound true b h = ground arith
bool_eq_sound false b h = ground arith

can_enable_flag :
    (env : Env) (players : Players) (party : Party) (b : Bool)
    → can_enable_shared_experience env players (record party { shared_exp_enabled = b })
      ≡ can_enable_shared_experience env players party
unfolding can_enable_shared_experience can_use_shared_experience
can_enable_flag env players party b = refl

update_shared-IsUpToDate :
    (env : Env) (players : Players) (party : Party)
    → IsUpToDate env players (some (update_shared_experience env players party))
unfolding update_shared_experience
update_shared-IsUpToDate env players party =
    let result = can_enable_shared_experience env players party in
    ground (
      arith,
      can_enable_flag env players party result,
      bool_eq_sound result party.shared_exp_enabled,
    )

clear_points-IsUpToDate :
    (env : Env) (players : Players) (party : Party) (p : ℕ)
    → IsUpToDate env players (some party)
    → IsUpToDate env players (some (clear_player_points env players party p))
unfolding clear_player_points
clear_points-IsUpToDate env players party p h = elim (Option-cases (find_points p party.points)) [
  | inl none_here ↦ rw (none_here, clear_player_points) h
  | inr (b, e) ↦
      rw (e, clear_player_points)
        (update_shared-IsUpToDate env players
          (record party { points = erase_points p party.points }))
]

-- When the leadership has been passed on, the flag of the party is up to date: sharing is switched
-- off, or the flag says whether the party with its new leader can share.
pub pass_leadership-IsUpToDate :
    (env : Env) (players : Players) (party : Party) (p : ℕ)
    → (pass_leadership env players party p).1 ≡ true
    → IsUpToDate env players (some (pass_leadership env players party p).0)
unfolding pass_leadership
pass_leadership-IsUpToDate env players party p h =
    elim (Bool-cases (not (is_player_member players party (some p) false) || p == party.leader)) [
      | inl refused ↦ absurd (ground arith)
      | inr passed ↦ rw passed (
          update_shared-IsUpToDate env players
            (record party { members = party.leader ∷ remove p party.members; leader = p }))
    ]

-- When a player has joined, the flag of the party is up to date: sharing is switched off, or the
-- flag says whether the party with its new member can share.
pub join-IsUpToDate :
    (env : Env) (players : Players) (this : ℕ) (party : Party) (p : ℕ)
    → (join env players this party p).2 ≡ true
    → IsUpToDate env (join env players this party p).0 (some (join env players this party p).1)
unfolding join
join-IsUpToDate env players this party p h =
    elim (Bool-cases (
      is_player_member players party (some p) false
      || not (is_player_invited players party (some p) false))) [
        | inl refused ↦ absurd (ground arith)
        | inr joins ↦ rw joins (update_shared-IsUpToDate env _ _)
      ]

drop_player-IsUpToDate :
    (env : Env) (players : Players) (this p : ℕ) (r : Party × Bool)
    → IsUpToDate env (drop_player env players this p r).0 (drop_player env players this p r).1
unfolding drop_player
drop_player-IsUpToDate env players this p (party, missing_leader) =
    let released = update players p (set_party none (players p)) in
    let dropped = record party {
      members = remove p party.members;
      invites = remove p party.invites;
    } in
    let cleared =
      clear_player_points env released (update_shared_experience env released dropped) p in
    elim (Bool-cases (missing_leader || can_disband cleared)) [
      | inl gone ↦ rw gone tt
      | inr stays ↦ rw stays (
          clear_points-IsUpToDate env released (update_shared_experience env released dropped) p
            (update_shared-IsUpToDate env released dropped))
    ]

-- A party that stays leaves the players as they were, but for the pointer of the one who left.
drop_player_stays :
    (env : Env) (players : Players) (this p : ℕ) (r : Party × Bool) (left : Party)
    → (drop_player env players this p r).1 ≡ some left
    → (drop_player env players this p r).0 ≡ update players p (set_party none (players p))
unfolding drop_player
drop_player_stays env players this p (party, missing_leader) left e =
    let released = update players p (set_party none (players p)) in
    let dropped = record party {
      members = remove p party.members;
      invites = remove p party.invites;
    } in
    let cleared =
      clear_player_points env released (update_shared_experience env released dropped) p in
    elim (Bool-cases (missing_leader || can_disband cleared)) [
      | inl gone ↦ absurd (let no = rw gone at e in cc)
      | inr stays ↦ rw stays refl
    ]

leave_stays :
    (env : Env) (players : Players) (this : ℕ) (party left : Party) (p : ℕ)
    → (leave env players this party p).2 ≡ true
    → (leave env players this party p).1 ≡ some left
    → (leave env players this party p).0 ≡ update players p (set_party none (players p))
unfolding leave
leave_stays env players this party left p h e =
    elim (Bool-cases
      (not (is_player_member players party (some p) false) && not (p == party.leader))) [
        | inl stranger ↦ absurd (ground arith)
        | inr own ↦ rw own (drop_player_stays env players this p _ left (rw own at e))
      ]

-- When a player has left a party that agrees with the players' pointers, either the party is deleted,
-- or those on its roster are exactly the others who were on it, and its flag is up to date: sharing
-- is switched off, or the flag says whether the party without that player can share.
pub leave-IsUpToDate :
    (env : Env) (players : Players) (this : ℕ) (party : Party) (p : ℕ)
    → Agrees this players (some party)
    → ((q : ℕ) → distinct (players q).invitations ≡ true)
    → (leave env players this party p).2 ≡ true
    → IsUpToDate env (leave env players this party p).0 (leave env players this party p).1
      × ((left : Party) (q : ℕ)
          → (leave env players this party p).1 ≡ some left
          → on_roster (some left) q ≡ (not (q == p) && on_roster (some party) q))
unfolding leave set_party
leave-IsUpToDate env players this party p agrees d h = (
  elim (Bool-cases
      (not (is_player_member players party (some p) false) && not (p == party.leader))) [
        | inl stranger ↦ absurd (ground arith)
        | inr own ↦ rw own (drop_player-IsUpToDate env players this p _)
      ],
  λ left q e.
      let after = (leave-Kept env this players party p agrees d).agrees.roster q in
      ap (λ o. on_roster o q) (sym e)
      ∙ after
      ∙ ap (λ ps. belongs this (ps q).party) (leave_stays env players this party left p h e)
      ∙ ground (arith, agrees.roster q, ==_iff q p),
)

-- After healing or damage with points above 0 the flag of the party is up to date: sharing is
-- switched off, or the flag says whether the party with these points can share.
pub add_points-IsUpToDate :
    (env : Env) (players : Players) (party : Party) (p n : ℕ)
    → n ≢ 0
    → IsUpToDate env players (some (add_player_healed_member env players party p n))
      × IsUpToDate env players (some (add_player_damage_monster env players party p n))
unfolding add_player_healed_member add_player_damage_monster
add_points-IsUpToDate env players party p n h = elim (Bool-cases (n == 0)) [
  | inl zero_points ↦ absurd (h ((==_iff n 0).0 zero_points))
  | inr some_points ↦
      rw some_points
        (update_shared-IsUpToDate env players _, update_shared-IsUpToDate env players _)
]

highest_level-le :
    (players : Players) (highest : ℕ) (ms : List ℕ)
    → (highest ≤ highest_level players highest ms)
      × ((p : ℕ) → mem p ms ≡ true → (players p).level ≤ highest_level players highest ms)
unfolding highest_level
highest_level-le players highest [] = (omega arith, λ p m. cc)
highest_level-le players highest (m ∷ ms) =
    let next = if ltb highest (players m).level then (players m).level else highest in
    let (above, members) = highest_level-le players next ms in
    (ground arith, λ p h. ground (arith, members p, ==_iff p m))

all-mem : (f : ℕ → Bool) (xs : List ℕ) (p : ℕ) → all f xs ≡ true → mem p xs ≡ true → f p ≡ true
all-mem f [] p h m = cc
all-mem f (x ∷ xs) p h m = ground (arith, all-mem f xs p, ==_iff p x)

-- What it takes for one player to share: present, of the level asked for, and near the leader.
can_use-facts :
    (env : Env) (players : Players) (party : Party) (p highest : ℕ)
    → highest ≢ 0
    → can_use_shared_experience env players party p highest ≡ true
    → ((players p).removed ≡ false)
      × (env.min_level highest ≤ (players p).level)
      × (are_in_range env.radius (players party.leader).position (players p).position ≡ true)
unfolding can_use_shared_experience
can_use-facts env players party p highest h e = ground arith

roster_can_use :
    (env : Env) (players : Players) (party : Party) (p : ℕ)
    → can_enable_shared_experience env players party ≡ true
    → on_roster (some party) p ≡ true
    → can_use_shared_experience env players party p
        (highest_level players (players party.leader).level party.members)
      ≡ true
unfolding can_enable_shared_experience
roster_can_use env players party p e hp =
    let top = highest_level players (players party.leader).level party.members in
    ground (
      arith,
      ==_iff p party.leader,
      all-mem (λ m. can_use_shared_experience env players party m top) party.members p,
    )

roster_level-le :
    (players : Players) (party : Party) (p : ℕ)
    → on_roster (some party) p ≡ true
    → (players p).level ≤ highest_level players (players party.leader).level party.members
roster_level-le players party p hp =
    let (leads, follows) = highest_level-le players (players party.leader).level party.members in
    ground (arith, leads, follows p, ==_iff p party.leader)

-- If a party can share experience, the leader's level being above 0 and the level that is asked for
-- growing with the highest level, then any two players of it, the leader included, can hunt together: each
-- is present, near the leader, and of the level that the other's level asks for.
pub can_enable_shared_experience-levels :
    (env : Env) (players : Players) (party : Party) (p q : ℕ)
    → ((a b : ℕ) → a ≤ b → env.min_level a ≤ env.min_level b)
    → (players party.leader).level ≢ 0
    → can_enable_shared_experience env players party ≡ true
    → on_roster (some party) p ≡ true
    → on_roster (some party) q ≡ true
    → ((players p).removed ≡ false)
      × (are_in_range env.radius (players party.leader).position (players p).position ≡ true)
      × (env.min_level (players q).level ≤ (players p).level)
can_enable_shared_experience-levels env players party p q grows h e hp hq =
    let top = highest_level players (players party.leader).level party.members in
    let leads = (highest_level-le players (players party.leader).level party.members).0 in
    let (here, level, near) =
      can_use-facts env players party p top (omega (arith, leads))
        (roster_can_use env players party p e hp) in
    (
      here,
      near,
      omega (arith, grows (players q).level top (roster_level-le players party q hq), level),
    )
