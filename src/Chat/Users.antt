-- ===== src/Chat/Users.antt =====
-- The users and the invited players of a channel: the methods of ChatChannel, PrivateChatChannel and
-- Chat that change them.
use darghos_tfs04_86_v.Base.{
  ℕ, Bool, true, false, not, ◌||◌, Option, none, some, List, [], ◌∷◌, ◌++◌, ◌==◌, if◌then◌else◌,
  mem, remove,
}
use darghos_tfs04_86_v.Base.Maps.{lookup, erase}
use darghos_tfs04_86_v.Chat.{
  ChatChannel, Player, Chat, Place, channel_guild, channel_party, id_of, channel_at, set_channel,
  get_channel,
}

abbrev pub is_none {ℓ} : {A : Type ℓ} → Option A → Bool
is_none none = true
is_none (some a) = false

-- `ChatChannel::addUser`, of the channel at `place`.
unfoldable pub add_user : (ℕ → Player) → Chat → Place → ℕ → Chat × Bool
unfolding channel_at set_channel get_channel
add_user players c place k = elim (channel_at c place) [
  | none ↦ (c, false)
  | some ch ↦
      if mem k ch.users
      then (c, false)
      else if is_none (get_channel c (players k) (id_of place))
      then (c, false)
      else (set_channel place (record ch { users = ch.users ++ k ∷ [] }) c, true)
]

-- `ChatChannel::removeUser`.
unfoldable pub without_user : (ℕ → Player) → ChatChannel → ℕ → ChatChannel × Bool
without_user players ch k =
    if (players k).removed
    then (ch, false)
    else if not (mem k ch.users)
    then (ch, false)
    else (record ch { users = remove k ch.users }, true)

-- `PrivateChatChannel::addInvited` and `removeInvited`.
unfoldable pub add_invited : ChatChannel → ℕ → ChatChannel × Bool
add_invited ch guid =
    if mem guid ch.invites
    then (ch, false)
    else (record ch { invites = ch.invites ++ guid ∷ [] }, true)

unfoldable pub remove_invited : ChatChannel → ℕ → ChatChannel × Bool
remove_invited ch guid =
    if mem guid ch.invites
    then (record ch { invites = remove guid ch.invites }, true)
    else (ch, false)

-- `PrivateChatChannel::invitePlayer` and `excludePlayer`, by the player `p`.
unfoldable pub invite_player : (ℕ → Player) → ChatChannel → (p invited : ℕ) → ChatChannel
unfolding add_invited
invite_player players ch p invited =
    if p == invited then ch else (add_invited ch (players invited).guid).0

unfoldable pub exclude_player : (ℕ → Player) → ChatChannel → (p excluded : ℕ) → ChatChannel
unfolding remove_invited without_user
exclude_player players ch p excluded =
    let (ch', found) = remove_invited ch (players excluded).guid in
    if p == excluded || not found then ch else (without_user players ch' excluded).0

-- `Chat::deleteChannel`.
unfoldable pub delete_channel : Chat → Player → ℕ → Chat
delete_channel c player i =
    if i == channel_guild
    then record c {
      guild_channels = λ g. if g == player.guild_id then none else c.guild_channels g;
    }
    else if i == channel_party
    then record c {
      party_channels = λ p. elim player.party [
        | none ↦ c.party_channels p
        | some own ↦ if p == own then none else c.party_channels p
      ];
    }
    else record c { private_channels = erase i c.private_channels }

-- `Chat::addUserToChannel`.
unfoldable pub add_user_to_channel : (ℕ → Player) → Chat → ℕ → ℕ → Chat × Bool
unfolding add_user get_channel
add_user_to_channel players c k i = elim (get_channel c (players k) i) [
  | none ↦ (c, false)
  | some place ↦ add_user players c place k
]

-- `Chat::removeUserFromChannel`.
unfoldable pub remove_user_at : (ℕ → Player) → Chat → ℕ → ℕ → Place → Chat × Bool
unfolding channel_at set_channel without_user delete_channel
remove_user_at players c k i place = elim (channel_at c place) [
  | none ↦ (c, false)
  | some ch ↦
      let (ch', done) = without_user players ch k in
      if not done
      then (c, false)
      else let c' = set_channel place ch' c in
        (if ch'.owner == (players k).guid then delete_channel c' (players k) i else c', true)
]

unfoldable pub remove_user_from_channel : (ℕ → Player) → Chat → ℕ → ℕ → Chat × Bool
unfolding remove_user_at get_channel
remove_user_from_channel players c k i = elim (get_channel c (players k) i) [
  | none ↦ (c, false)
  | some place ↦ remove_user_at players c k i place
]

-- The loop of `Chat::removeUserFromAllChannels` over the private channels. A channel that the player
-- owns is deleted, which erases its entry from the map. The increment of an iterator whose entry is
-- not in the map any more is undefined, and none stands for whatever happens then.
unfoldable pub leave_private :
    (ℕ → Player) → ℕ → List (ℕ × ChatChannel) → Option (List (ℕ × ChatChannel))
unfolding without_user
leave_private players k [] = some []
leave_private players k ((i, ch) ∷ m) =
    let ch' = (without_user players ch k).0 in
    let entries = (i, ch') ∷ m in
    let after = if ch'.owner == (players k).guid then erase i entries else entries in
    if is_none (lookup i after)
    then none
    else elim (leave_private players k m) [ none ↦ none | some rest ↦ some ((i, ch') ∷ rest) ]

abbrev pub leave_each : (ℕ → Player) → ℕ → Option ChatChannel → Option ChatChannel
leave_each players k none = none
leave_each players k (some ch) = some (without_user players ch k).0

unfoldable pub remove_user_from_all_channels : (ℕ → Player) → Chat → ℕ → Option Chat
unfolding leave_private without_user
remove_user_from_all_channels players c k =
    if (players k).removed then some c else elim (leave_private players k c.private_channels) [
      | none ↦ none
      | some m ↦ some (record {
        normal_channels = λ i. leave_each players k (c.normal_channels i);
        party_channels = λ p. leave_each players k (c.party_channels p);
        guild_channels = λ g. leave_each players k (c.guild_channels g);
        private_channels = m;
      })
    ]
