-- ===== src/Chat/Tests.antt =====
-- Two players, one of whom opens a private channel for the other.
use darghos_tfs04_86_v.Base.{ℕ, ◌≡◌, ◌⊎◌, refl, true, false, none, some, [], ◌∷◌, arith}
use darghos_tfs04_86_v.Base.Maps.{lookup}
use darghos_tfs04_86_v.Chat.{Player, get_private_channel}
use darghos_tfs04_86_v.Chat.Handlers.{
  World, player_create_private_channel, player_channel_invite, player_channel_exclude,
  player_open_channel, enter,
}
use darghos_tfs04_86_v.Chat.Safety.{
  WorldInv, Reach, here, later, creates, invites, excludes, opens, enters, Reach-WorldInv,
}
use darghos_tfs04_86_v.Chat.Opening.{
  IsOpened, player_create_private_channel-Opens, player_create_private_channel_succeeds,
}

abbrev nobody : Player
nobody = record {
  removed = true;
  guid = 0;
  premium = false;
  guild_id = 0;
  party = none;
  access = λ i. false;
}

abbrev person : ℕ → Player
person guid = record nobody { removed = false; guid = guid; premium = true }

abbrev empty_world : World
empty_world = record {
  players = λ k. nobody;
  chat = record {
    normal_channels = λ i. none;
    party_channels = λ p. none;
    guild_channels = λ g. none;
    private_channels = [];
  };
}

empty_world-WorldInv : WorldInv empty_world
empty_world-WorldInv = record {
  single = λ i j g x y. cc;
  present = λ i k x. cc;
  allowed = λ i k x. cc;
  shape = λ i. refl;
  guids = λ k j x y z. cc;
}

abbrev two_players : World
two_players = enter (enter empty_world 1 (person 11)) 2 (person 22)

two_players-Reach : Reach empty_world two_players
unfolding enter get_private_channel
two_players-Reach =
    later (later here (enters empty_world 1 (person 11) refl (λ j h. ground (arith, h))))
      (enters (enter empty_world 1 (person 11)) 2 (person 22) refl (λ j h. ground (arith, h)))

abbrev opened : World
opened = (player_create_private_channel two_players 1).0

abbrev shared : World
shared = (player_open_channel (player_channel_invite opened 1 2).0 2 100).0

shared_users :
    (lookup 100 shared.chat.private_channels
      ≡ some (record { users = 1 ∷ 2 ∷ []; owner = 11; invites = 22 ∷ [] }))
unfolding enter player_create_private_channel player_channel_invite player_open_channel
shared_users = refl

-- Who is not invited is not let in.
uninvited : (player_open_channel opened 2 100).1 ≡ false
unfolding enter player_create_private_channel player_open_channel
uninvited = refl

Reach-WorldInv_example : WorldInv (player_channel_exclude shared 1 2).0
Reach-WorldInv_example =
    Reach-WorldInv {s = empty_world} {t = (player_channel_exclude shared 1 2).0}
      empty_world-WorldInv
      (later
        (later (later (later two_players-Reach (creates two_players 1)) (invites opened 1 2))
          (opens (player_channel_invite opened 1 2).0 2 100))
        (excludes shared 1 2))

player_create_private_channel-Opens_example :
    ((player_create_private_channel two_players 1).1 ≡ false)
    ⊎ IsOpened two_players (player_create_private_channel two_players 1).0 1
player_create_private_channel-Opens_example = player_create_private_channel-Opens two_players 1

player_create_private_channel_succeeds_example :
    (player_create_private_channel two_players 1).1 ≡ true
unfolding enter get_private_channel
player_create_private_channel_succeeds_example =
    player_create_private_channel_succeeds two_players 1 100 refl refl refl (λ i h k. refl) refl
      refl refl (omega arith) (omega arith)
