-- ===== src/Chat.antt =====
-- The chat channels of chat.cpp and the handlers of game.cpp that open, close and share them. A player
-- is named by the identifier, which stands for the pointer too; owners and invitations are by the
-- GUID, which stays the same from one login to the next. What is sent to the clients, the scripts'
-- events and the remote manager change no state here and are left out.
pub mod Users
pub mod Handlers
pub mod Inv
pub mod Kept
pub mod Comings
pub mod Leaving
pub mod Opening
pub mod Safety
mod Tests
use darghos_tfs04_86_v.Base.{
  ℕ, zero, suc, ◌+◌, Bool, true, false, not, ◌&&◌, ◌||◌, Option, none, some, List, [], ◌∷◌, ◌++◌,
  ◌==◌, if◌then◌else◌, mem, remove, update,
}
use darghos_tfs04_86_v.Base.Maps.{lookup, insert, erase}

-- A channel; `owner` is 0 and `invites` is empty in all but private ones.
pub record ChatChannel : Type 0 where
  pub users : List ℕ
  pub owner : ℕ
  pub invites : List ℕ

-- `access` says of a channel of the file channels.xml whether the player may use it, by its flags,
-- its access and its vocations.
pub record Player : Type 0 where
  pub removed : Bool
  pub guid : ℕ
  pub premium : Bool
  pub guild_id : ℕ
  pub party : Option ℕ
  pub access : ℕ → Bool

-- The four maps of `Chat`.
pub record Chat : Type 0 where
  pub normal_channels : ℕ → Option ChatChannel
  pub party_channels : ℕ → Option ChatChannel
  pub guild_channels : ℕ → Option ChatChannel
  pub private_channels : List (ℕ × ChatChannel)

-- A pointer to a channel: which map, and the key there.
pub data Place : Type 0 where
  normal : ℕ → Place
  of_party : ℕ → Place
  of_guild : ℕ → Place
  private : ℕ → Place

abbrev pub channel_guild : ℕ
channel_guild = 0

abbrev pub channel_party : ℕ
channel_party = 1

abbrev pub channel_private : ℕ
channel_private = 0xFFFF

-- `getId`.
abbrev pub id_of : Place → ℕ
id_of (normal i) = i
id_of (of_party p) = channel_party
id_of (of_guild g) = channel_guild
id_of (private i) = i

unfoldable pub channel_at : Chat → Place → Option ChatChannel
channel_at c (normal i) = c.normal_channels i
channel_at c (of_party p) = c.party_channels p
channel_at c (of_guild g) = c.guild_channels g
channel_at c (private i) = lookup i c.private_channels

-- The channel there is another one.
unfoldable pub set_channel : Place → ChatChannel → Chat → Chat
set_channel (normal i) ch c = record c { normal_channels = update c.normal_channels i (some ch) }
set_channel (of_party p) ch c = record c { party_channels = update c.party_channels p (some ch) }
set_channel (of_guild g) ch c = record c { guild_channels = update c.guild_channels g (some ch) }
set_channel (private i) ch c = record c { private_channels = insert i ch c.private_channels }

-- `PrivateChatChannel::isInvited`.
unfoldable pub is_invited : ChatChannel → ℕ → Bool
is_invited ch guid = guid == ch.owner || mem guid ch.invites

abbrev pub pointer_to : Place → Option ChatChannel → Option Place
pointer_to place none = none
pointer_to place (some ch) = some place

-- `Chat::getChannel` from the normal channels on.
unfoldable pub get_by_id : Chat → Player → ℕ → Option Place
unfolding is_invited
get_by_id c player i = elim (c.normal_channels i) [
  | some ch ↦ if player.access i then some (normal i) else none
  | none ↦ elim (lookup i c.private_channels) [
    | none ↦ none
    | some ch ↦ if is_invited ch player.guid then some (private i) else none
  ]
]

-- `Chat::getChannel`.
unfoldable pub get_channel : Chat → Player → ℕ → Option Place
unfolding get_by_id
get_channel c player i =
    if player.removed
    then none
    else if i == channel_guild
    then pointer_to (of_guild player.guild_id) (c.guild_channels player.guild_id)
    else if i == channel_party
    then elim player.party [ none ↦ none | some p ↦ pointer_to (of_party p) (c.party_channels p) ]
    else get_by_id c player i

-- `Chat::getPrivateChannel`: the first one that the player owns.
unfoldable pub find_owned : ℕ → List (ℕ × ChatChannel) → Option ℕ
find_owned guid [] = none
find_owned guid ((i, ch) ∷ m) = if ch.owner == guid then some i else find_owned guid m

unfoldable pub get_private_channel : Chat → Player → Option ℕ
unfolding find_owned
get_private_channel c player =
    if player.removed then none else find_owned player.guid c.private_channels
