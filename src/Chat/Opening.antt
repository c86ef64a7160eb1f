-- ===== src/Chat/Opening.antt =====
-- What a player who opens a private channel gets.
use darghos_tfs04_86_v.Base.{
  ℕ, zero, suc, ◌+◌, ◌≤◌, ◌<◌, ◌≡◌, ◌∙◌, ◌⊎◌, refl, sym, ap, Bool, true, false, not, ◌||◌, Option,
  none, some, List, [], ◌∷◌, ◌==◌, ==_iff, if◌then◌else◌, arith, Bool-cases, Option-cases, inl, inr,
  if_elim, subst,
}
use darghos_tfs04_86_v.Base.Maps.{lookup, insert, lookup-insert}
use darghos_tfs04_86_v.Chat.{
  ChatChannel, Player, Chat, private, channel_at, set_channel, get_channel, get_by_id, is_invited,
  channel_guild, channel_party, channel_private, get_private_channel,
}
use darghos_tfs04_86_v.Chat.Users.{is_none, add_user}
use darghos_tfs04_86_v.Chat.Handlers.{
  World, free_slot, put_channel, create_private, enter_new, player_create_private_channel,
}
use darghos_tfs04_86_v.Chat.Inv.{owns}
use darghos_tfs04_86_v.Chat.Comings.{IsCreated, create_private-Creates, free_slot_lem}

-- The player had no private channel, and now has one at a free identifier from 100 to 9999, where
-- nobody else is; all other private channels are as before.
pub record IsOpened (w after : World) (k : ℕ) : Type 0 where
  pub slot : ℕ
  pub lower : 100 ≤ slot
  pub upper : slot < 10000
  pub free : lookup slot w.chat.private_channels ≡ none
  pub alone : (j : ℕ) → owns (lookup j w.chat.private_channels) (w.players k).guid ≡ false
  pub channels :
      (j : ℕ)
      → lookup j after.chat.private_channels ≡ (
          if j == slot
          then some (record { users = k ∷ []; owner = (w.players k).guid; invites = [] })
          else lookup j w.chat.private_channels)

abbrev pub Opens : World → ℕ → World × Bool → Type 0
Opens w k r = (r.1 ≡ false) ⊎ IsOpened w r.0 k

abbrev fresh : ℕ → ChatChannel
fresh guid = record { users = []; owner = guid; invites = [] }

add_first :
    (players : ℕ → Player) (c : Chat) (i g k j : ℕ)
    → (add_user players c (private i) k).1 ≡ true
    → lookup i c.private_channels ≡ some (fresh g)
    → lookup j (add_user players c (private i) k).0.private_channels ≡ (
        if j == i
        then some (record { users = k ∷ []; owner = g; invites = [] })
        else lookup j c.private_channels)
unfolding add_user channel_at set_channel
add_first players c i g k j h e = ground (
  arith,
  h,
  e,
  lookup-insert j i (record { users = k ∷ []; owner = g; invites = [] }) c.private_channels,
)

enter_new-Opens :
    (w : World) (k : ℕ) (r : Chat × Option ℕ)
    → (r ≡ (w.chat, none)) ⊎ IsCreated w.chat (w.players k) r
    → Opens w k (enter_new w r.0 k r.1)
unfolding enter_new
enter_new-Opens w k r (inl e) = inl (ground (arith, e))
enter_new-Opens w k r (inr new) =
    subst (λ x. Opens w k (enter_new w x.0 k x.1)) (sym new.result)
      (elim (Bool-cases (add_user w.players c (private new.slot) k).1) [
        | inr refused ↦ inl refused
        | inl done ↦ inr (record {
          slot = new.slot;
          lower = new.lower;
          upper = new.upper;
          free = new.free;
          alone = new.alone;
          channels = λ j. ground (
            arith,
            add_first w.players c new.slot (w.players k).guid k j done,
            lookup-insert j new.slot (fresh (w.players k).guid) w.chat.private_channels,
            lookup-insert new.slot new.slot (fresh (w.players k).guid) w.chat.private_channels,
            ==_iff new.slot new.slot,
          );
        })
      ])
  where
    c : Chat
    c = record (w.chat) {
      private_channels = insert new.slot (fresh (w.players k).guid) w.chat.private_channels;
    }

-- A request for a private channel is refused, or it gives the player, who had none, a channel at a
-- free identifier from 100 to 9999 with the player as its owner and its only user, and changes no
-- other private channel.
pub player_create_private_channel-Opens :
    (w : World) (k : ℕ) → Opens w k (player_create_private_channel w k)
unfolding player_create_private_channel
player_create_private_channel-Opens w k =
    if_elim (Opens w k) ((w.players k).removed || not (w.players k).premium) _ _ (λ _. inl refl)
      (λ ok.
        enter_new-Opens w k (create_private w.chat (w.players k))
          (create_private-Creates w.chat (w.players k) (ground (arith, ok))))

free_slot_found :
    (n i : ℕ) (m : List (ℕ × ChatChannel)) (j : ℕ)
    → lookup j m ≡ none
    → i ≤ j
    → j < i + n
    → (s : ℕ) × (free_slot n i m ≡ some s)
unfolding free_slot
free_slot_found zero i m j e h k = absurd (omega (arith, h, k))
free_slot_found (suc n) i m j e h k = elim (Option-cases (lookup i m)) [
  | inl free ↦ (i, rw (free_slot, free) refl)
  | inr (ch, taken) ↦
      rw (free_slot, taken)
        (free_slot_found n (suc i) m j e (ground (arith, e, taken, h, ==_iff i j))
          (omega (arith, k)))
]

-- The player joins the new channel where no channel of the file has its identifier.
joins_new :
    (w : World) (k i : ℕ)
    → (w.players k).removed ≡ false
    → (i == channel_guild) ≡ false
    → (i == channel_party) ≡ false
    → w.chat.normal_channels i ≡ none
    → (enter_new w (put_channel w.chat (w.players k) (some i)).0 k (some i)).1 ≡ true
unfolding enter_new put_channel add_user channel_at get_channel get_by_id is_invited
joins_new w k i here g p e = ground (
  arith,
  here,
  g,
  p,
  e,
  lookup-insert i i (fresh (w.players k).guid) w.chat.private_channels,
  ==_iff i i,
  ==_iff (w.players k).guid (w.players k).guid,
)

nothing_shared :
    (c : Chat) (player : Player)
    → c.normal_channels channel_private ≡ none
    → lookup channel_private c.private_channels ≡ none
    → is_none (get_channel c player channel_private) ≡ true
unfolding get_channel get_by_id
nothing_shared c player e h = ground (arith, e, h)

create_private_found :
    (c : Chat) (player : Player) (s : ℕ)
    → player.removed ≡ false
    → player.premium ≡ true
    → is_none (get_channel c player channel_private) ≡ true
    → get_private_channel c player ≡ none
    → free_slot 9900 100 c.private_channels ≡ some s
    → create_private c player ≡ put_channel c player (some s)
unfolding create_private
create_private_found c player s here prem none_shared own e =
    if_elim (λ r. r ≡ put_channel c player (some s))
      (player.removed || not (is_none (get_channel c player channel_private))) _ _
      (λ n. absurd (ground (arith, n, here, none_shared)))
      λ _.
        if_elim (λ r. r ≡ put_channel c player (some s))
          (not player.premium || not (is_none (get_private_channel c player))) _ _
          (λ n. absurd (ground (arith, n, prem, own))) (λ _. ap (put_channel c player) e)

admitted : (a b : Bool) → a ≡ false → b ≡ true → (a || not b) ≡ false
admitted a b h k = ground arith

not_special : (s i : ℕ) → 100 ≤ s → i < 100 → (s == i) ≡ false
not_special s i h k = ground arith

-- A premium player in the game who has no private channel gets one, where one of the identifiers from
-- 100 to 9999 is not taken by a private channel, the file of channels has none of its own at these or
-- at CHANNEL_PRIVATE, and no private channel stands at CHANNEL_PRIVATE.
pub player_create_private_channel_succeeds :
    (w : World) (k j : ℕ)
    → (w.players k).removed ≡ false
    → (w.players k).premium ≡ true
    → get_private_channel w.chat (w.players k) ≡ none
    → ((i : ℕ) → 100 ≤ i → i < 10000 → w.chat.normal_channels i ≡ none)
    → w.chat.normal_channels channel_private ≡ none
    → lookup channel_private w.chat.private_channels ≡ none
    → lookup j w.chat.private_channels ≡ none
    → 100 ≤ j
    → j < 10000
    → (player_create_private_channel w k).1 ≡ true
unfolding player_create_private_channel
player_create_private_channel_succeeds w k j here prem own quiet unshared shared free low high =
    let (s, e) = free_slot_found 9900 100 w.chat.private_channels j free low high in
    let range = free_slot_lem 9900 100 w.chat.private_channels s e in
    let none_shared = nothing_shared w.chat (w.players k) unshared shared in
    let new = create_private_found w.chat (w.players k) s here prem none_shared own e in
    rw (admitted (w.players k).removed (w.players k).premium here prem) (
      ap (λ r. (enter_new w r.0 k r.1).1) new
      ∙ joins_new w k s here (not_special s 0 range.1 (omega arith))
          (not_special s 1 range.1 (omega arith)) (quiet s range.1 (omega (arith, range.2))))
