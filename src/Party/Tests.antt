-- ===== src/Party/Tests.antt =====
-- A world of ten players, and what the theorems say of it.
use darghos_tfs04_86_v.Base.{
  ℕ, ◌≡◌, refl, true, false, not, ◌&&◌, ◌||◌, none, some, List, [], ◌∷◌, mem, ◌*◌, ◌+◌, ◌/◌, ◌==◌,
  ==_iff, if◌then◌else◌, arith,
}
use darghos_tfs04_86_v.Position.{Position}
use darghos_tfs04_86_v.Party.{
  CountBlock, Party, Player, Players, Env, World, new_party, set_party, add_party_invitation,
  remove_party_invitation, is_player_invited, is_player_member, can_disband,
}
use darghos_tfs04_86_v.Party.Shared.{find_points, update_shared_experience, clear_player_points}
use darghos_tfs04_86_v.Party.Methods.{
  pass_leadership, join, leave, drop_player, disband, leader_leaves, invite_player,
}
use darghos_tfs04_86_v.Party.Handlers.{
  player_invite_to_party, player_join_party, player_leave_party, invite_in, found_party,
  is_inviting,
}
use darghos_tfs04_86_v.Party.Inv.{Inv, Agrees, on_roster}
use darghos_tfs04_86_v.Party.Safety.{Request, invites, joins, leaves, run, run-Inv}
use darghos_tfs04_86_v.Party.SelfInvite.{self_invite_dangles}
use darghos_tfs04_86_v.Party.Sharing.{IsUpToDate, leave-IsUpToDate}

abbrev home : Position
home = record { x = 100; y = 100; z = 7 }

abbrev newcomer : Player
newcomer = record {
  removed = false;
  in_fight = false;
  not_gain_in_fight = false;
  level = 20;
  position = home;
  guid = 0;
  party = none;
  invitations = [];
}

abbrev start : World
start = record { players = λ p. newcomer; parties = λ this. none; next = 0 }

-- The radius is 30, 30, 1 and the least level is two thirds of the highest.
abbrev env : Env
env = record {
  now = 1000;
  min_level = λ top. (top * 2 + 2) / 3;
  radius = record { x = 30; y = 30; z = 1 };
  activity = 120000;
}

start-Inv : Inv start
start-Inv = record {
  agrees = λ this. record {
    roster = λ p. refl;
    invited = λ p. refl;
    apart = λ p. refl;
    shape = refl;
    present = λ p r. cc;
  };
  invitations_distinct = λ p. refl;
  fresh = λ this h. refl;
}

abbrev requests : List (Env × Request)
requests = (env, invites 1 2) ∷ (env, joins 2 1) ∷ (env, invites 1 3) ∷ (env, leaves 1 false) ∷ []

run-Inv_example : Inv (run start requests)
run-Inv_example = run-Inv start requests refl start-Inv

abbrev farewell : List (Env × Request)
farewell = (env, invites 1 2) ∷ (env, joins 2 1) ∷ (env, leaves 1 false) ∷ []

deleted : (run start farewell).parties 0 ≡ none
unfolding run player_invite_to_party player_join_party player_leave_party is_inviting invite_in
    found_party invite_player is_player_invited is_player_member new_party set_party
    add_party_invitation remove_party_invitation join leave drop_player leader_leaves disband
    can_disband update_shared_experience clear_player_points find_points
deleted = refl

after_requests : on_roster ((run start requests).parties 0) 2 ≡ true
unfolding run player_invite_to_party player_join_party player_leave_party is_inviting invite_in
    found_party invite_player is_player_invited is_player_member new_party set_party
    add_party_invitation remove_party_invitation join leave drop_player leader_leaves disband
    can_disband update_shared_experience clear_player_points find_points pass_leadership
after_requests = refl

self_invite_dangles_example :
    let left = (player_leave_party env (player_invite_to_party start 4 4).0 4 false).0 in
    (left.parties 0 ≡ none) × (mem 0 (left.players 4).invitations ≡ true)
self_invite_dangles_example = self_invite_dangles env start 4 false start-Inv refl refl refl

abbrev block : CountBlock
block = record { total_heal = 5; total_damage = 0; ticks = 900 }

-- Player 1 leads, player 2 is a member, player 3 is invited.
abbrev hunting : Party
hunting = record {
  members = 2 ∷ [];
  invites = 3 ∷ [];
  leader = 1;
  shared_exp_active = true;
  shared_exp_enabled = true;
  points = (1, block) ∷ (2, block) ∷ [];
}

abbrev players : Players
players p = record newcomer {
  party = if p == 1 || p == 2 then some 0 else none;
  invitations = if p == 3 then 0 ∷ [] else [];
}

hunting-Agrees : Agrees 0 players (some hunting)
hunting-Agrees = record {
  roster = λ p. ground arith;
  invited = λ p. ground arith;
  apart = λ p. ground (arith, ==_iff p 1, ==_iff p 2, ==_iff p 3);
  shape = refl;
  present = λ p r. refl;
}

leave-IsUpToDate_example :
    IsUpToDate env (leave env players 0 hunting 2).0 (leave env players 0 hunting 2).1
    × ((left : Party) (q : ℕ)
        → (leave env players 0 hunting 2).1 ≡ some left
        → on_roster (some left) q ≡ (not (q == 2) && on_roster (some hunting) q))
unfolding leave is_player_member
leave-IsUpToDate_example =
    leave-IsUpToDate env players 0 hunting 2 hunting-Agrees (λ q. ground arith) refl
