-- ===== src/Party.antt =====
-- party.h, party.cpp, the party parts of player.cpp, and the handlers of game.cpp that call them.
-- A player is named by its identifier, which stands for the pointer too; a party by a number that
-- stands for its address, and a deleted party is `none` in the store. What is sent to the clients
-- (icons, text messages, the party's chat channel) changes no state here and is left out.
pub mod Shared
pub mod Methods
pub mod Handlers
pub mod Points
pub mod Inv
pub mod Safety
pub mod Sharing
pub mod SelfInvite
mod Tests
use darghos_tfs04_86_v.Base.{
  ℕ, Bool, true, false, not, ◌&&◌, ◌||◌, Option, none, some, List, [], ◌∷◌, ◌++◌, mem, remove,
  is_empty, if◌then◌else◌,
}
use darghos_tfs04_86_v.Position.{Position}

-- What a party counts of a player. The totals are 32-bit patterns.
pub record CountBlock : Type 0 where
  pub total_heal : ℕ
  pub total_damage : ℕ
  pub ticks : ℕ

pub record Party : Type 0 where
  pub members : List ℕ
  pub invites : List ℕ
  pub leader : ℕ
  pub shared_exp_active : Bool
  pub shared_exp_enabled : Bool
  pub points : List (ℕ × CountBlock)

-- What the party code reads and writes of a player. `removed` also holds of an absent player,
-- since each handler treats the two alike.
pub record Player : Type 0 where
  pub removed : Bool
  pub in_fight : Bool
  pub not_gain_in_fight : Bool
  pub level : ℕ
  pub position : Position
  pub guid : ℕ
  pub party : Option ℕ
  pub invitations : List ℕ

abbrev pub Players : Type 0
Players = ℕ → Player

-- The clock and the configuration. `min_level` is the product of the highest level and the
-- `double` PARTY_DIFFERENCE, rounded up.
pub record Env : Type 0 where
  pub now : ℕ
  pub min_level : ℕ → ℕ
  pub radius : Position
  pub activity : ℕ

pub record World : Type 0 where
  pub players : Players
  pub parties : ℕ → Option Party
  pub next : ℕ

-- `Party::Party`; the caller sets the leader's party.
unfoldable pub new_party : ℕ → Party
new_party leader = record {
  members = [];
  invites = [];
  leader = leader;
  shared_exp_active = false;
  shared_exp_enabled = false;
  points = [];
}

-- `Party::isPlayerMember`, for a pointer that may be null.
unfoldable pub is_player_member : Players → Party → Option ℕ → Bool → Bool
is_player_member players party none result = result
is_player_member players party (some p) result =
    if (players p).removed then result else mem p party.members

-- `Party::isPlayerInvited`.
unfoldable pub is_player_invited : Players → Party → Option ℕ → Bool → Bool
is_player_invited players party none result = result
is_player_invited players party (some p) result =
    if (players p).removed then result else mem p party.invites

unfoldable pub set_party : Option ℕ → Player → Player
set_party party p = record p { party = party }

-- `Player::addPartyInvitation`; its result is not used.
unfoldable pub add_party_invitation : ℕ → Player → Player
add_party_invitation party p =
    if mem party p.invitations then p else record p { invitations = p.invitations ++ party ∷ [] }

-- `Player::removePartyInvitation`; its result is not used.
unfoldable pub remove_party_invitation : ℕ → Player → Player
remove_party_invitation party p = record p { invitations = remove party p.invitations }

unfoldable pub can_disband : Party → Bool
can_disband party = is_empty party.members && is_empty party.invites
