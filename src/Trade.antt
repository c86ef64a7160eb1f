-- ===== src/Trade.antt =====
-- The trades between two players: the trade handlers of game.cpp, the sale of houses of talkaction.cpp,
-- and what player.cpp does to a trade when the player or an item moves. A player is named by the
-- identifier, which stands for the pointer too. The messages to the clients change no state here and are left out.
mod Items
pub mod Requests
pub mod Accepting
pub mod Changes
pub mod Inv
pub mod Starting
pub mod Asking
pub mod Ending
pub mod Forgetting
pub mod Transfer
pub mod Motion
pub mod Safety
pub mod Outcome
mod Tests
use darghos_tfs04_86_v.Base.{
  ℕ, Bool, true, false, ◌&&◌, ◌||◌, Option, none, some, List, [], ◌∷◌, ◌++◌, ◌==◌, if◌then◌else◌,
  update,
}
use darghos_tfs04_86_v.Position.{Position}
use darghos_tfs04_86_v.Trade.Items.{ItemMap, lookup, erase}

pub data TradeState : Type 0 where
  trade_none trade_initiated trade_accept trade_acknowledge trade_transfer : TradeState

abbrev pub is_none : TradeState → Bool
is_none trade_none = true
is_none trade_initiated = false
is_none trade_accept = false
is_none trade_acknowledge = false
is_none trade_transfer = false

abbrev pub is_initiated : TradeState → Bool
is_initiated trade_none = false
is_initiated trade_initiated = true
is_initiated trade_accept = false
is_initiated trade_acknowledge = false
is_initiated trade_transfer = false

abbrev pub is_accept : TradeState → Bool
is_accept trade_none = false
is_accept trade_initiated = false
is_accept trade_accept = true
is_accept trade_acknowledge = false
is_accept trade_transfer = false

abbrev pub is_acknowledge : TradeState → Bool
is_acknowledge trade_none = false
is_acknowledge trade_initiated = false
is_acknowledge trade_accept = false
is_acknowledge trade_acknowledge = true
is_acknowledge trade_transfer = false

abbrev pub is_transfer : TradeState → Bool
is_transfer trade_none = false
is_transfer trade_initiated = false
is_transfer trade_accept = false
is_transfer trade_acknowledge = false
is_transfer trade_transfer = true

-- The arguments of `Game::playerRequestTrade`.
pub record TradeRequest : Type 0 where
  pub player : ℕ
  pub trade_player : ℕ
  pub pos : Position
  pub stackpos : ℕ
  pub sprite_id : ℕ

-- `present`: the game's list of players has the player. `walk_task` is the request that is made
-- again when the player has come near the item.
pub record Player : Type 0 where
  pub present : Bool
  pub removed : Bool
  pub position : Position
  pub trade_state : TradeState
  pub trade_partner : Option ℕ
  pub trade_item : Option ℕ
  pub walk_task : Option TradeRequest

-- `trade_items` is the map of the items that are offered, with who offers them. `refs` counts the
-- calls of `addRef` for an item, and `to_release` is the list of `Game::freeThing`. `auto_walks` are
-- the players that the dispatcher is told to move, and `moves` the items given to a player by
-- `internalMoveItem`, in order.
pub record World : Type 0 where
  pub players : ℕ → Player
  pub trade_items : ItemMap
  pub refs : ℕ → ℕ
  pub to_release : List ℕ
  pub auto_walks : List ℕ
  pub moves : List (ℕ × ℕ)

-- Is this pointer the one at `p`?
abbrev pub points : Option ℕ → ℕ → Bool
points none p = false
points (some q) p = q == p

unfoldable pub set_player : ℕ → Player → World → World
set_player p player w = record w { players = update w.players p player }

-- An item that is in the map is released and taken out.
unfoldable pub release_item : ℕ → World → World
release_item i w = elim (lookup i w.trade_items) [
  | none ↦ w
  | some owner ↦ record w {
    to_release = w.to_release ++ i ∷ [];
    trade_items = erase i w.trade_items;
  }
]

-- The pointer to the item may be null.
unfoldable pub forget_item : Option ℕ → World → World
unfolding release_item
forget_item none w = w
forget_item (some i) w = release_item i w

unfoldable pub idle : Player → Player
idle player = record player { trade_state = trade_none; trade_item = none; trade_partner = none }
