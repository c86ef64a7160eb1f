-- ===== src/Party/Methods.antt =====
-- The methods of `Party` that change its members. Each takes the players, the party's address and
-- its content, and returns them; a party that deleted itself is `none`.
use darghos_tfs04_86_v.Base.{
  ℕ, Bool, true, false, not, ◌&&◌, ◌||◌, Option, none, some, List, [], ◌∷◌, ◌++◌, remove, update,
  for_each, ◌==◌, if◌then◌else◌, is_empty,
}
use darghos_tfs04_86_v.Party.{
  Party, Players, Env, is_player_member, is_player_invited, set_party, add_party_invitation,
  remove_party_invitation, can_disband,
}
use darghos_tfs04_86_v.Party.Shared.{update_shared_experience, clear_player_points}

-- `Party::disband`: the players after it; the party is gone.
unfoldable pub disband : Players → ℕ → Party → Players
disband players this party =
    let released = update players party.leader (set_party none (players party.leader)) in
    for_each (set_party none) party.members
      (for_each (remove_party_invitation this) party.invites released)

-- `Party::passLeadership`.
unfoldable pub pass_leadership : Env → Players → Party → ℕ → Party × Bool
pass_leadership env players party p =
    if not (is_player_member players party (some p) false) || p == party.leader
    then (party, false)
    else (
      update_shared_experience env players
          (record party { members = party.leader ∷ remove p party.members; leader = p }),
      true,
    )

-- The start of `leave` for the leader: the party, and whether it is left without one.
unfoldable pub leader_leaves : Env → Players → Party → List ℕ → Party × Bool
leader_leaves env players party [] = (party, true)
leader_leaves env players party (m ∷ ms) =
    if is_empty ms && is_empty party.invites
    then (party, true)
    else ((pass_leadership env players party m).0, false)

-- The rest of `leave`.
unfoldable pub drop_player : Env → Players → ℕ → ℕ → Party × Bool → Players × Option Party
drop_player env players this p (party, missing_leader) =
    let dropped = record party {
      members = remove p party.members;
      invites = remove p party.invites;
    } in
    let released = update players p (set_party none (players p)) in
    let cleared =
      clear_player_points env released (update_shared_experience env released dropped) p in
    if missing_leader || can_disband cleared
    then (disband released this cleared, none)
    else (released, some cleared)

-- `Party::leave`.
unfoldable pub leave : Env → Players → ℕ → Party → ℕ → Players × Option Party × Bool
leave env players this party p =
    let (after, left) = drop_player env players this p (
      if party.leader == p
      then leader_leaves env players party party.members
      else (party, false)) in
    if not (is_player_member players party (some p) false) && not (p == party.leader)
    then (players, some party, false)
    else (after, left, true)

-- `Party::join`.
unfoldable pub join : Env → Players → ℕ → Party → ℕ → Players × Party × Bool
join env players this party p =
    let joined =
      update players p (remove_party_invitation this (set_party (some this) (players p))) in
    if is_player_member players party (some p) false
      || not (is_player_invited players party (some p) false)
    then (players, party, false)
    else (
      joined,
      update_shared_experience env joined
          (record party { members = party.members ++ p ∷ []; invites = remove p party.invites }),
      true,
    )

-- `Party::removeInvite`.
unfoldable pub remove_invite : Players → ℕ → Party → ℕ → Players × Option Party × Bool
remove_invite players this party p =
    let left = record party { invites = remove p party.invites } in
    let released = update players p (remove_party_invitation this (players p)) in
    if not (is_player_invited players party (some p) false)
    then (players, some party, false)
    else if can_disband left
    then (disband released this left, none, true)
    else (released, some left, true)

-- `Party::revokeInvitation`.
unfoldable pub revoke_invitation : Players → ℕ → Party → ℕ → Players × Option Party
revoke_invitation players this party p =
    let (after, left, done) = remove_invite players this party p in
    if (players p).removed then (players, some party) else (after, left)

-- `Party::invitePlayer`.
unfoldable pub invite_player : Players → ℕ → Party → ℕ → Players × Party × Bool
invite_player players this party p =
    if is_player_invited players party (some p) true then (players, party, false) else (
      update players p (add_party_invitation this (players p)),
      record party { invites = party.invites ++ p ∷ [] },
      true,
    )
