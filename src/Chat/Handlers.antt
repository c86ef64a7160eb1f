-- ===== src/Chat/Handlers.antt =====
-- Chat::createChannel, and the handlers of game.cpp.
use darghos_tfs04_86_v.Base.{
  ℕ, zero, suc, Bool, true, false, not, ◌||◌, Option, none, some, List, [], if◌then◌else◌, update,
}
use darghos_tfs04_86_v.Base.Maps.{lookup, insert}
use darghos_tfs04_86_v.Chat.{
  ChatChannel, Player, Chat, private, channel_private, channel_at, set_channel, get_channel,
  get_private_channel,
}
use darghos_tfs04_86_v.Chat.Users.{
  is_none, add_user, invite_player, exclude_player, add_user_to_channel, remove_user_from_channel,
  remove_user_from_all_channels,
}

-- The loop that looks for a free identifier from `i` on.
unfoldable pub free_slot : ℕ → ℕ → List (ℕ × ChatChannel) → Option ℕ
free_slot zero i m = none
free_slot (suc n) i m =
    let rest = free_slot n (suc i) m in if is_none (lookup i m) then some i else rest

-- The new channel, if there is a free identifier.
unfoldable pub put_channel : Chat → Player → Option ℕ → Chat × Option ℕ
put_channel c player none = (c, none)
put_channel c player (some i) =
    let ch : ChatChannel = record { users = []; owner = player.guid; invites = [] } in
    (record c { private_channels = insert i ch c.private_channels }, some i)

-- `Chat::createChannel` of a private channel; the identifiers go from 100 to 9999.
unfoldable pub create_private : Chat → Player → Chat × Option ℕ
unfolding get_channel get_private_channel free_slot put_channel
create_private c player =
    if player.removed || not (is_none (get_channel c player channel_private))
    then (c, none)
    else if not player.premium || not (is_none (get_private_channel c player))
    then (c, none)
    else put_channel c player (free_slot 9900 100 c.private_channels)

-- The players and the chat. An absent player is removed, since each handler treats the two alike.
pub record World : Type 0 where
  pub players : ℕ → Player
  pub chat : Chat

abbrev pub with_chat : World → Chat × Bool → World × Bool
with_chat w r = (record w { chat = r.0 }, r.1)

unfoldable pub enter_new : World → Chat → ℕ → Option ℕ → World × Bool
unfolding add_user
enter_new w c k none = (record w { chat = c }, false)
enter_new w c k (some i) = with_chat w (add_user w.players c (private i) k)

unfoldable pub player_create_private_channel : World → ℕ → World × Bool
unfolding create_private enter_new
player_create_private_channel w k =
    let player = w.players k in
    if player.removed || not player.premium
    then (w, false)
    else let (c, made) = create_private w.chat player in enter_new w c k made

-- A change of the private channel that the player owns.
unfoldable pub change_own : World → ℕ → (ChatChannel → ChatChannel) → World × Bool
unfolding get_private_channel channel_at set_channel
change_own w k f = elim (get_private_channel w.chat (w.players k)) [
  | none ↦ (w, false)
  | some i ↦ elim (lookup i w.chat.private_channels) [
    | none ↦ (w, false)
    | some ch ↦ (record w { chat = set_channel (private i) (f ch) w.chat }, true)
  ]
]

-- The other player is found by name; `removed` is the answer that there is none.
unfoldable pub player_channel_invite : World → (k invited : ℕ) → World × Bool
unfolding change_own invite_player
player_channel_invite w k invited =
    if (w.players k).removed || (w.players invited).removed
    then (w, false)
    else change_own w k (λ ch. invite_player w.players ch k invited)

unfoldable pub player_channel_exclude : World → (k excluded : ℕ) → World × Bool
unfolding change_own exclude_player
player_channel_exclude w k excluded =
    if (w.players k).removed || (w.players excluded).removed
    then (w, false)
    else change_own w k (λ ch. exclude_player w.players ch k excluded)

unfoldable pub player_open_channel : World → ℕ → ℕ → World × Bool
unfolding add_user_to_channel
player_open_channel w k i =
    if (w.players k).removed
    then (w, false)
    else with_chat w (add_user_to_channel w.players w.chat k i)

-- The handler returns true whatever the chat answers.
unfoldable pub player_close_channel : World → ℕ → ℕ → World × Bool
unfolding remove_user_from_channel
player_close_channel w k i =
    if (w.players k).removed
    then (w, false)
    else (record w { chat = (remove_user_from_channel w.players w.chat k i).0 }, true)

-- At logout, before the player is removed; none where an erased iterator is followed.
unfoldable pub on_creature_disappear : World → ℕ → Option World
unfolding remove_user_from_all_channels
on_creature_disappear w k = elim (remove_user_from_all_channels w.players w.chat k) [
  | none ↦ none
  | some c ↦
      some (record {
        players = update w.players k (record (w.players k) { removed = true });
        chat = c;
      })
]

-- A player enters under an identifier that is not in use, with a GUID that no player in the game has.
unfoldable pub enter : World → ℕ → Player → World
enter w k player =
    if (w.players k).removed then record w { players = update w.players k player } else w
