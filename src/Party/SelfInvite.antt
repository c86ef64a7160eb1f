-- ===== src/Party/SelfInvite.antt =====
-- A player without a party who invites themselves and leaves: `leave` takes the leader off the list
-- of invitations but not the party off the leader's list.
use darghos_tfs04_86_v.Base.{
  ℕ, ◌≡◌, Bool, true, false, not, ◌&&◌, none, some, [], ◌∷◌, mem, mem-append, arith, ==_self,
}
use darghos_tfs04_86_v.Party.{
  Party, Player, Env, World, new_party, set_party, add_party_invitation, is_player_invited,
  is_player_member,
}
use darghos_tfs04_86_v.Party.Shared.{update_shared_experience, clear_player_points, find_points}
use darghos_tfs04_86_v.Party.Methods.{disband, leader_leaves, drop_player, leave, invite_player}
use darghos_tfs04_86_v.Party.Handlers.{
  is_inviting, invite_in, found_party, player_invite_to_party, player_leave_party,
}
use darghos_tfs04_86_v.Party.Inv.{Inv}

abbrev own_party : ℕ → Party
own_party p = record (new_party p) { invites = p ∷ [] }

abbrev own_player : World → ℕ → Player
own_player w p = add_party_invitation w.next (set_party (some w.next) (w.players p))

module _ (w : World) (p : ℕ) (here : (w.players p).removed ≡ false)
    (alone : (w.players p).party ≡ none) where
  after_invite :
      ((player_invite_to_party w p p).0.parties w.next ≡ some (own_party p))
      × ((player_invite_to_party w p p).0.players p ≡ own_player w p)
  unfolding player_invite_to_party invite_in found_party invite_player is_inviting is_player_invited
      new_party set_party add_party_invitation
  after_invite = ground (arith, ==_self p, ==_self w.next)

leave_own :
    (env : Env) (w : World) (p : ℕ) (forced : Bool) (this : ℕ) (player : Player)
    → w.parties this ≡ some (own_party p)
    → w.players p ≡ player
    → player.party ≡ some this
    → player.removed ≡ false
    → (player.in_fight && not forced) ≡ false
    → ((player_leave_party env w p forced).0.parties this ≡ none)
      × (((player_leave_party env w p forced).0.players p).invitations ≡ player.invitations)
unfolding player_leave_party leave leader_leaves drop_player disband is_player_member new_party
    set_party update_shared_experience clear_player_points find_points
leave_own env w p forced this player stored e mine here calm =
    ground (arith, ==_self p, ==_self this)

-- If a player without a party invites themselves, and leaves the party that this founds, the leaving
-- not being forbidden by a fight, then the party is deleted and the player still has a pointer to it
-- among the invitations.
pub self_invite_dangles :
    (env : Env) (w : World) (p : ℕ) (forced : Bool)
    → Inv w
    → (w.players p).removed ≡ false
    → (w.players p).party ≡ none
    → ((w.players p).in_fight && not forced) ≡ false
    → let left = (player_leave_party env (player_invite_to_party w p p).0 p forced).0 in
      (left.parties w.next ≡ none) × (mem w.next (left.players p).invitations ≡ true)
unfolding add_party_invitation set_party
self_invite_dangles env w p forced v here alone calm =
    let (stored, player) = after_invite w p here alone in
    let (gone, kept) =
      leave_own env (player_invite_to_party w p p).0 p forced w.next (own_player w p) stored player
        (ground arith) (ground arith) (ground arith) in
    (
      gone,
      ground
          (arith, kept, mem-append w.next (w.players p).invitations (w.next ∷ []), ==_self w.next),
    )
