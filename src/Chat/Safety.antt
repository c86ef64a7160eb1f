-- ===== src/Chat/Safety.antt =====
-- Every request to the chat keeps the private channels private.
use darghos_tfs04_86_v.Base.{
  ℕ, ◌≡◌, ◌∙◌, refl, ap, Bool, false, ◌||◌, Option, none, some, ◌==◌, arith, Option-cases, inl, inr,
  if_elim,
}
use darghos_tfs04_86_v.Base.Maps.{lookup}
use darghos_tfs04_86_v.Chat.{
  ChatChannel, Player, Chat, Place, set_channel, get_channel, get_private_channel,
}
use darghos_tfs04_86_v.Chat.Users.{
  invite_player, exclude_player, add_user_to_channel, remove_user_from_channel,
}
use darghos_tfs04_86_v.Chat.Handlers.{
  World, player_create_private_channel, change_own, player_channel_invite, player_channel_exclude,
  player_open_channel, player_close_channel, on_creature_disappear, enter,
}
use darghos_tfs04_86_v.Chat.Inv.{Inv, Fits, insert-Inv}
use darghos_tfs04_86_v.Chat.Kept.{
  ChatInv, invited_player-Fits, excluded-Fits, get_channel-invited, add_user-Inv,
  remove_user_at-Inv,
}
use darghos_tfs04_86_v.Chat.Comings.{player_create_private_channel-Inv}
use darghos_tfs04_86_v.Chat.Leaving.{on_creature_disappear-Inv, enter-Inv}

abbrev pub WorldInv : World → Type 0
WorldInv w = Inv w.players w.chat.private_channels

abbrev FirstInv : World × Bool → Type 0
FirstInv r = WorldInv r.0

change_at-Inv :
    (w : World) (k : ℕ) (f : ChatChannel → ChatChannel) (i : ℕ) (o : Option ChatChannel)
    → WorldInv w
    → get_private_channel w.chat (w.players k) ≡ some i
    → lookup i w.chat.private_channels ≡ o
    → ((ch : ChatChannel) → o ≡ some ch → Fits w.players ch (f ch))
    → WorldInv (change_own w k f).0
unfolding change_own set_channel
change_at-Inv w k f i none v own e g = rw (change_own, own, e) v
change_at-Inv w k f i (some ch) v own e g =
    rw (change_own, own, e)
      (insert-Inv w.players w.chat.private_channels i ch (f ch) v e (g ch refl))

change_own-Inv :
    (w : World) (k : ℕ) (f : ChatChannel → ChatChannel)
    → WorldInv w
    → ((i : ℕ) (ch : ChatChannel)
        → lookup i w.chat.private_channels ≡ some ch
        → Fits w.players ch (f ch))
    → WorldInv (change_own w k f).0
unfolding change_own
change_own-Inv w k f v g = elim (Option-cases (get_private_channel w.chat (w.players k))) [
  | inl nothing ↦ rw (change_own, nothing) v
  | inr (i, own) ↦ change_at-Inv w k f i _ v own refl (g i)
]

player_channel_invite-Inv :
    (w : World) (k x : ℕ) → WorldInv w → WorldInv (player_channel_invite w k x).0
unfolding player_channel_invite
player_channel_invite-Inv w k x v =
    if_elim FirstInv ((w.players k).removed || (w.players x).removed) _ _ (λ _. v)
      λ _.
        change_own-Inv w k (λ ch. invite_player w.players ch k x) v
          (λ i ch e. invited_player-Fits w.players w.chat.private_channels i ch v e k x)

player_channel_exclude-Inv :
    (w : World) (k x : ℕ) → WorldInv w → WorldInv (player_channel_exclude w k x).0
unfolding player_channel_exclude
player_channel_exclude-Inv w k x v =
    if_elim FirstInv ((w.players k).removed || (w.players x).removed) _ _ (λ _. v)
      λ here.
        change_own-Inv w k (λ ch. exclude_player w.players ch k x) v
          (λ i ch e.
            excluded-Fits w.players w.chat.private_channels i ch v e k x (ground (arith, here)))

open_at-Inv :
    (players : ℕ → Player) (c : Chat) (k i : ℕ) (o : Option Place)
    → ChatInv players c
    → (players k).removed ≡ false
    → get_channel c (players k) i ≡ o
    → ChatInv players (add_user_to_channel players c k i).0
unfolding add_user_to_channel
open_at-Inv players c k i none v here e = rw (add_user_to_channel, e) v
open_at-Inv players c k i (some place) v here e =
    rw (add_user_to_channel, e)
      (add_user-Inv players c place k v here
        (λ j ch p at. get_channel-invited c (players k) i j ch (e ∙ ap some p) at))

player_open_channel-Inv :
    (w : World) (k i : ℕ) → WorldInv w → WorldInv (player_open_channel w k i).0
unfolding player_open_channel
player_open_channel-Inv w k i v =
    if_elim FirstInv (w.players k).removed _ _ (λ _. v)
      (λ here. open_at-Inv w.players w.chat k i _ v here refl)

close_at-Inv :
    (players : ℕ → Player) (c : Chat) (k i : ℕ) (o : Option Place)
    → ChatInv players c
    → get_channel c (players k) i ≡ o
    → ChatInv players (remove_user_from_channel players c k i).0
unfolding remove_user_from_channel
close_at-Inv players c k i none v e = rw (remove_user_from_channel, e) v
close_at-Inv players c k i (some place) v e =
    rw (remove_user_from_channel, e) (remove_user_at-Inv players c k i place _ v refl)

player_close_channel-Inv :
    (w : World) (k i : ℕ) → WorldInv w → WorldInv (player_close_channel w k i).0
unfolding player_close_channel
player_close_channel-Inv w k i v =
    if_elim FirstInv (w.players k).removed _ _ (λ _. v)
      (λ _. close_at-Inv w.players w.chat k i _ v refl)

-- What may happen to the chat. A player in the game leaves it only where the source does, without
-- following an erased entry; a player who enters has a GUID that nobody in the game has.
pub data Step : World → World → Type 0 where
  creates : (w : World) (k : ℕ) → Step w (player_create_private_channel w k).0
  invites : (w : World) (k x : ℕ) → Step w (player_channel_invite w k x).0
  excludes : (w : World) (k x : ℕ) → Step w (player_channel_exclude w k x).0
  opens : (w : World) (k i : ℕ) → Step w (player_open_channel w k i).0
  closes : (w : World) (k i : ℕ) → Step w (player_close_channel w k i).0
  leaves :
      (w after : World) (k : ℕ)
      → (w.players k).removed ≡ false
      → on_creature_disappear w k ≡ some after
      → Step w after
  enters :
      (w : World) (k : ℕ) (player : Player)
      → player.removed ≡ false
      → ((j : ℕ) → (w.players j).removed ≡ false → ((w.players j).guid == player.guid) ≡ false)
      → Step w (enter w k player)

pub data Reach (s : World) : World → Type 0 where
  here : Reach s s
  later : {t u : World} → Reach s t → Step t u → Reach s u

Step-WorldInv : {w after : World} → Step w after → WorldInv w → WorldInv after
Step-WorldInv (creates w k) v = player_create_private_channel-Inv w k v
Step-WorldInv (invites w k x) v = player_channel_invite-Inv w k x v
Step-WorldInv (excludes w k x) v = player_channel_exclude-Inv w k x v
Step-WorldInv (opens w k i) v = player_open_channel-Inv w k i v
Step-WorldInv (closes w k i) v = player_close_channel-Inv w k i v
Step-WorldInv (leaves w after k h e) v = on_creature_disappear-Inv w after k v h e
Step-WorldInv (enters w k player h new) v = enter-Inv w k player v h new

-- In every state of the chat that can be reached from one where it holds, whatever the players create,
-- open, close, share and withdraw, whoever enters with a GUID that nobody in the game has, so without
-- ALLOW_CLONES, and whoever leaves without a private channel of the own: the users of a private channel are players in the game, and each is its owner or invited at that
-- time; nobody owns two private channels; and no user and no invitation is listed twice.
pub Reach-WorldInv : {s t : World} → WorldInv s → Reach s t → WorldInv t
Reach-WorldInv v here = v
Reach-WorldInv v (later r st) = Step-WorldInv st (Reach-WorldInv v r)
