-- ===== src/Party/Points.antt =====
-- What the party counts of each player.
use darghos_tfs04_86_v.Base.{
  ℕ, ◌≡◌, ◌≢◌, refl, some, List, [], ◌∷◌, ◌==◌, ==_iff, arith, Bool-cases, inl, inr, if◌then◌else◌,
}
use darghos_tfs04_86_v.Party.{CountBlock, Party, Players, Env}
use darghos_tfs04_86_v.Party.Shared.{
  find_points, put_points, healed, damaged, update_shared_experience, add_player_healed_member,
  add_player_damage_monster,
}

find-put :
    (p q : ℕ) (b : CountBlock) (ps : List (ℕ × CountBlock))
    → find_points q (put_points p b ps) ≡ (if q == p then some b else find_points q ps)
unfolding find_points put_points
find-put p q b [] = refl
find-put p q b ((r, c) ∷ ps) = ground (arith, find-put p q b ps, ==_iff q p, ==_iff q r, ==_iff p r)

update_shared-points :
    (env : Env) (players : Players) (party : Party)
    → (update_shared_experience env players party).points ≡ party.points
unfolding update_shared_experience
update_shared-points env players party = ground arith

-- Points above 0 go to the player's total of their kind, modulo 2^32, with the time; the other
-- total and the other players' counts stay.
pub add_points-find :
    (env : Env) (players : Players) (party : Party) (p q n : ℕ)
    → n ≢ 0
    → (find_points q (add_player_healed_member env players party p n).points ≡ (
        if q == p
        then some (healed env n (find_points p party.points))
        else find_points q party.points))
      × (find_points q (add_player_damage_monster env players party p n).points ≡ (
          if q == p
          then some (damaged env n (find_points p party.points))
          else find_points q party.points))
unfolding add_player_healed_member add_player_damage_monster
add_points-find env players party p q n h = elim (Bool-cases (n == 0)) [
  | inl zero_points ↦ absurd (h ((==_iff n 0).0 zero_points))
  | inr some_points ↦ (
    rw (some_points, update_shared-points env players) (find-put p q _ party.points),
    rw (some_points, update_shared-points env players) (find-put p q _ party.points),
  )
]
