-- ===== src/Chat/Comings.antt =====
-- New private channels, and players who enter and leave.
use darghos_tfs04_86_v.Base.{
  ℕ, zero, suc, ◌+◌, ◌≤◌, ◌<◌, ◌≡◌, refl, sym, Bool, true, false, not, ◌||◌, Option, none, some,
  List, [], ◌∷◌, ==_iff, arith, Option-cases, inl, inr, if_elim, subst, ◌⊎◌,
}
use darghos_tfs04_86_v.Base.Maps.{lookup, insert, lookup-insert}
use darghos_tfs04_86_v.Chat.{
  ChatChannel, Player, Chat, private, is_invited, get_channel, find_owned, get_private_channel,
  channel_private,
}
use darghos_tfs04_86_v.Chat.Users.{is_none, add_user}
use darghos_tfs04_86_v.Chat.Handlers.{
  World, free_slot, create_private, put_channel, enter_new, player_create_private_channel,
}
use darghos_tfs04_86_v.Chat.Inv.{owns, Inv}
use darghos_tfs04_86_v.Chat.Kept.{ChatInv, add_user-Inv}

-- A free identifier is one of those that are tried.
pub free_slot_lem :
    (n i : ℕ) (m : List (ℕ × ChatChannel)) (j : ℕ)
    → free_slot n i m ≡ some j
    → (lookup j m ≡ none) × (i ≤ j) × (j < i + n)
unfolding free_slot
free_slot_lem zero i m j e = absurd (cc)
free_slot_lem (suc n) i m j e = elim (Option-cases (lookup i m)) [
  | inl free ↦ ground (arith, e, free)
  | inr (ch, taken) ↦ ground (arith, e, taken, free_slot_lem n (suc i) m j)
]

-- Who owns no channel owns none.
pub find_owned-none :
    (guid : ℕ) (m : List (ℕ × ChatChannel))
    → find_owned guid m ≡ none
    → (i : ℕ) → owns (lookup i m) guid ≡ false
unfolding find_owned
find_owned-none guid [] h i = refl
find_owned-none guid ((j, ch) ∷ m) h i =
    ground (arith, h, find_owned-none guid m (ground (arith, h)) i)

new_channel-Inv :
    (players : ℕ → Player) (m : List (ℕ × ChatChannel)) (i g : ℕ)
    → Inv players m
    → lookup i m ≡ none
    → ((j : ℕ) → owns (lookup j m) g ≡ false)
    → Inv players (insert i (record { users = []; owner = g; invites = [] }) m)
new_channel-Inv players m i g v free alone =
    let ch : ChatChannel = record { users = []; owner = g; invites = [] } in
    record {
      single = λ a b x p q. ground (
        arith,
        lookup-insert a i ch m,
        lookup-insert b i ch m,
        v.single a b x,
        alone a,
        alone b,
        ==_iff a i,
        ==_iff b i,
        ==_iff g x,
      );
      present = λ a k x. ground (arith, lookup-insert a i ch m, v.present a k);
      allowed = λ a k x. ground (arith, lookup-insert a i ch m, v.allowed a k);
      shape = λ a. ground (arith, lookup-insert a i ch m, v.shape a);
      guids = v.guids;
    }

create_in-Inv :
    (players : ℕ → Player) (c : Chat) (k i : ℕ)
    → ChatInv players c
    → (players k).removed ≡ false
    → lookup i c.private_channels ≡ none
    → ((j : ℕ) → owns (lookup j c.private_channels) (players k).guid ≡ false)
    → let ch : ChatChannel = record { users = []; owner = (players k).guid; invites = [] } in
      ChatInv players
        (add_user players
          (record c { private_channels = insert i ch c.private_channels })
          (private i)
          k).0
unfolding is_invited
create_in-Inv players c k i v here free alone =
    let ch : ChatChannel = record { users = []; owner = (players k).guid; invites = [] } in
    add_user-Inv players (record c { private_channels = insert i ch c.private_channels })
      (private i) k (new_channel-Inv players c.private_channels i (players k).guid v free alone)
      here
      (λ j other p at. ground (
        arith,
        p,
        at,
        lookup-insert j i ch c.private_channels,
        ==_iff j i,
        ==_iff (players k).guid other.owner,
      ))

-- What a player who has no private channel gets, if anything: a free identifier in the range, and an
-- empty channel there that the player owns.
pub record IsCreated (c : Chat) (player : Player) (r : Chat × Option ℕ) : Type 0 where
  pub slot : ℕ
  pub free : lookup slot c.private_channels ≡ none
  pub lower : 100 ≤ slot
  pub upper : slot < 10000
  pub alone : (j : ℕ) → owns (lookup j c.private_channels) player.guid ≡ false
  pub result : r ≡ (
    record c {
      private_channels =
          insert slot (record { users = []; owner = player.guid; invites = [] }) c.private_channels;
    },
    some slot,
  )

abbrev pub Creates : Chat → Player → Chat × Option ℕ → Type 0
Creates c player r = (r ≡ (c, none)) ⊎ IsCreated c player r

create_at :
    (c : Chat) (player : Player) (o : Option ℕ)
    → player.removed ≡ false
    → is_none (get_private_channel c player) ≡ true
    → free_slot 9900 100 c.private_channels ≡ o
    → Creates c player (put_channel c player o)
unfolding put_channel get_private_channel
create_at c player none here own e = inl refl
create_at c player (some i) here own e =
    let (free, low, high) = free_slot_lem 9900 100 c.private_channels i e in
    inr (record {
      slot = i;
      free = free;
      lower = low;
      upper = high;
      alone = find_owned-none player.guid c.private_channels (ground (arith, here, own));
      result = refl;
    })

pub create_private-Creates :
    (c : Chat) (player : Player)
    → player.removed ≡ false
    → Creates c player (create_private c player)
unfolding create_private
create_private-Creates c player here =
    if_elim (Creates c player)
      (player.removed || not (is_none (get_channel c player channel_private))) _ _ (λ _. inl refl)
      λ _.
        if_elim (Creates c player)
          (not player.premium || not (is_none (get_private_channel c player))) _ _ (λ _. inl refl)
          (λ own. create_at c player _ here (ground (arith, own)) refl)

abbrev NewInv : World → ℕ → Chat × Option ℕ → Type 0
NewInv w k r = Inv w.players (enter_new w r.0 k r.1).0.chat.private_channels

enter_new-Inv :
    (w : World) (k : ℕ) (r : Chat × Option ℕ)
    → Inv w.players w.chat.private_channels
    → (w.players k).removed ≡ false
    → Creates w.chat (w.players k) r
    → NewInv w k r
unfolding enter_new
enter_new-Inv w k r v here (inl e) = subst (NewInv w k) (sym e) v
enter_new-Inv w k r v here (inr new) =
    subst (NewInv w k) (sym new.result)
      (create_in-Inv w.players w.chat k new.slot v here new.free new.alone)

abbrev FirstInv : World × Bool → Type 0
FirstInv r = Inv r.0.players r.0.chat.private_channels

enter_new-players :
    (w : World) (c : Chat) (k : ℕ) (o : Option ℕ) → (enter_new w c k o).0.players ≡ w.players
unfolding enter_new
enter_new-players w c k none = refl
enter_new-players w c k (some i) = refl

pub player_create_private_channel-Inv :
    (w : World) (k : ℕ)
    → Inv w.players w.chat.private_channels
    → FirstInv (player_create_private_channel w k)
unfolding player_create_private_channel
player_create_private_channel-Inv w k v =
    if_elim FirstInv ((w.players k).removed || not (w.players k).premium) _ _ (λ _. v)
      λ here.
        let r = create_private w.chat (w.players k) in
        rw (enter_new-players w r.0 k r.1) (
          enter_new-Inv w k r v (ground (arith, here))
            (create_private-Creates w.chat (w.players k) (ground (arith, here))))
