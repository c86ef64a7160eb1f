-- ===== src/Chat/Kept.antt =====
-- Each change of a channel leaves one that may stand in its place.
use darghos_tfs04_86_v.Base.{
  ℕ, ◌≡◌, refl, Bool, true, false, not, Option, none, some, List, [], ◌∷◌, ◌++◌, ◌==◌, ==_iff, mem,
  arith, mem-append, mem-remove, distinct-remove, distinct-push, if_elim,
}
use darghos_tfs04_86_v.Base.Maps.{lookup}
use darghos_tfs04_86_v.Chat.{
  ChatChannel, Player, Chat, Place, normal, of_party, of_guild, private, channel_guild,
  channel_party, is_invited, channel_at, set_channel, get_by_id, get_channel,
}
use darghos_tfs04_86_v.Chat.Users.{
  is_none, add_user, without_user, remove_invited, invite_player, exclude_player, delete_channel,
  remove_user_at,
}
use darghos_tfs04_86_v.Chat.Inv.{Inv, Fits, insert-Inv, erase-Inv}

module _ (players : ℕ → Player) (m : List (ℕ × ChatChannel)) (i : ℕ) (ch : ChatChannel)
    (v : Inv players m) (e : lookup i m ≡ some ch) where
  pub invited_player-Fits : (p x : ℕ) → Fits players ch (invite_player players ch p x)
  unfolding invite_player is_invited
  invited_player-Fits p x = record {
    owner = ground arith;
    present = λ k h. ground (arith, e, v.present i k);
    allowed = λ k h.
        ground
          (arith, e, v.allowed i k, mem-append (players k).guid ch.invites ((players x).guid ∷ []));
    shape = ground (arith, e, v.shape i, distinct-push (players x).guid ch.invites);
  }

  without_user-Fits : (x : ℕ) → Fits players ch (without_user players ch x).0
  unfolding without_user is_invited
  without_user-Fits x = record {
    owner = ground arith;
    present = λ k h. ground (arith, e, v.present i k, v.shape i, mem-remove k x ch.users);
    allowed = λ k h. ground (arith, e, v.allowed i k, v.shape i, mem-remove k x ch.users);
    shape = ground (arith, e, v.shape i, distinct-remove x ch.users);
  }

  -- Who is excluded is taken out of the users too, and no other player has this GUID.
  pub excluded-Fits :
      (p x : ℕ) → (players x).removed ≡ false → Fits players ch (exclude_player players ch p x)
  unfolding exclude_player remove_invited without_user is_invited
  excluded-Fits p x here = record {
    owner = ground arith;
    present = λ k h. ground (arith, e, here, v.present i k, v.shape i, mem-remove k x ch.users);
    allowed = λ k h. ground (
      arith,
      e,
      here,
      v.allowed i k,
      v.present i k,
      v.shape i,
      mem-remove k x ch.users,
      mem-remove (players k).guid (players x).guid ch.invites,
      v.guids k x,
      ==_iff k x,
    );
    shape = ground (
      arith,
      e,
      here,
      v.shape i,
      distinct-remove x ch.users,
      distinct-remove (players x).guid ch.invites,
    );
  }

  joined-Fits :
      (x : ℕ)
      → (players x).removed ≡ false
      → mem x ch.users ≡ false
      → is_invited ch (players x).guid ≡ true
      → Fits players ch (record ch { users = ch.users ++ x ∷ [] })
  unfolding is_invited
  joined-Fits x here new asked = record {
    owner = refl;
    present =
        λ k h. ground (arith, e, here, v.present i k, mem-append k ch.users (x ∷ []), ==_iff k x);
    allowed = λ k h.
        ground (arith, e, asked, h, v.allowed i k, mem-append k ch.users (x ∷ []), ==_iff k x);
    shape = ground (arith, e, v.shape i, new, distinct-push x ch.users);
  }

-- A pointer to a private channel is handed only to its owner and to those invited.
get_by_id-invited :
    (c : Chat) (player : Player) (i j : ℕ) (ch : ChatChannel)
    → get_by_id c player i ≡ some (private j)
    → lookup j c.private_channels ≡ some ch
    → is_invited ch player.guid ≡ true
unfolding get_by_id is_invited
get_by_id-invited c player i j ch h e = ground (arith, h, e)

pub get_channel-invited :
    (c : Chat) (player : Player) (i j : ℕ) (ch : ChatChannel)
    → get_channel c player i ≡ some (private j)
    → lookup j c.private_channels ≡ some ch
    → is_invited ch player.guid ≡ true
unfolding get_channel
get_channel-invited c player i j ch h e = ground (arith, h, e, get_by_id-invited c player i j ch)

-- The invariant of a chat.
abbrev pub ChatInv : (ℕ → Player) → Chat → Type 0
ChatInv players c = Inv players c.private_channels

abbrev Result : (ℕ → Player) → Chat × Bool → Type 0
Result players r = ChatInv players r.0

add_private-Inv :
    (players : ℕ → Player) (c : Chat) (i k : ℕ) (o : Option ChatChannel)
    → ChatInv players c
    → (players k).removed ≡ false
    → lookup i c.private_channels ≡ o
    → ((ch : ChatChannel) → o ≡ some ch → is_invited ch (players k).guid ≡ true)
    → ChatInv players (add_user players c (private i) k).0
unfolding add_user channel_at set_channel
add_private-Inv players c i k none v here e f = rw (add_user, e) v
add_private-Inv players c i k (some ch) v here e f =
    rw (add_user, e)
      (if_elim (Result players) (mem k ch.users) _ _ (λ _. v)
        λ new.
          if_elim (Result players) (is_none (get_channel c (players k) i)) _ _ (λ _. v)
            λ _.
              insert-Inv players c.private_channels i ch _ v e
                (joined-Fits players c.private_channels i ch v e k here new (f ch refl)))

pub add_user-Inv :
    (players : ℕ → Player) (c : Chat) (place : Place) (k : ℕ)
    → ChatInv players c
    → (players k).removed ≡ false
    → ((i : ℕ) (ch : ChatChannel)
        → place ≡ private i
        → lookup i c.private_channels ≡ some ch
        → is_invited ch (players k).guid ≡ true)
    → ChatInv players (add_user players c place k).0
unfolding add_user channel_at set_channel
add_user-Inv players c (normal i) k v here f = ground (arith, v)
add_user-Inv players c (of_party p) k v here f = ground (arith, v)
add_user-Inv players c (of_guild g) k v here f = ground (arith, v)
add_user-Inv players c (private i) k v here f =
    add_private-Inv players c i k (lookup i c.private_channels) v here refl (λ ch e. f i ch refl e)

delete_channel-Inv :
    (players : ℕ → Player) (c : Chat) (player : Player) (i : ℕ)
    → ChatInv players c
    → ChatInv players (delete_channel c player i)
unfolding delete_channel
delete_channel-Inv players c player i v =
    if_elim (ChatInv players) (i == channel_guild) _ _ (λ _. v)
      λ _.
        if_elim (ChatInv players) (i == channel_party) _ _ (λ _. v)
          λ _. erase-Inv players c.private_channels i v

-- A channel with a user less, in its place.
set_less-Inv :
    (players : ℕ → Player) (c : Chat) (place : Place) (k : ℕ) (ch : ChatChannel)
    → ChatInv players c
    → channel_at c place ≡ some ch
    → ChatInv players (set_channel place (without_user players ch k).0 c)
unfolding channel_at set_channel
set_less-Inv players c (normal i) k ch v e = v
set_less-Inv players c (of_party p) k ch v e = v
set_less-Inv players c (of_guild g) k ch v e = v
set_less-Inv players c (private i) k ch v e =
    insert-Inv players c.private_channels i ch _ v e
      (without_user-Fits players c.private_channels i ch v e k)

pub remove_user_at-Inv :
    (players : ℕ → Player) (c : Chat) (k i : ℕ) (place : Place) (o : Option ChatChannel)
    → ChatInv players c
    → channel_at c place ≡ o
    → ChatInv players (remove_user_at players c k i place).0
unfolding remove_user_at
remove_user_at-Inv players c k i place none v e = rw (remove_user_at, e) v
remove_user_at-Inv players c k i place (some ch) v e =
    let ch' = (without_user players ch k).0 in
    let v' = set_less-Inv players c place k ch v e in
    rw (remove_user_at, e)
      (if_elim (Result players) (not (without_user players ch k).1) _ _ (λ _. v)
        λ _.
          if_elim (ChatInv players) (ch'.owner == (players k).guid) _ _
            (λ _. delete_channel-Inv players (set_channel place ch' c) (players k) i v') (λ _. v'))
