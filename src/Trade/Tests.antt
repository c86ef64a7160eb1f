-- ===== src/Trade/Tests.antt =====
-- Two players who trade, and what the theorems say of them.
use darghos_tfs04_86_v.Base.{ℕ, ◌≡◌, refl, true, false, none, some, List, [], ◌∷◌}
use darghos_tfs04_86_v.Position.{Position, are_in_range}
use darghos_tfs04_86_v.Trade.{World, Player, TradeRequest, trade_none}
use darghos_tfs04_86_v.Trade.Requests.{Env, player_request_trade}
use darghos_tfs04_86_v.Trade.Accepting.{Answers, player_accept_trade}
use darghos_tfs04_86_v.Trade.Changes.{on_creature_move, on_creature_disappear, enter}
use darghos_tfs04_86_v.Trade.Inv.{Inv}
use darghos_tfs04_86_v.Trade.Safety.{Event, requests, accepts, moves_to, leaves, enters, run}

abbrev square : ℕ → Position
square x = record { x = x; y = 100; z = 7 }

abbrev nobody : Player
nobody = record {
  present = false;
  removed = true;
  position = square 0;
  trade_state = trade_none;
  trade_partner = none;
  trade_item = none;
  walk_task = none;
}

abbrev empty_world : World
empty_world = record {
  players = λ k. nobody;
  trade_items = [];
  refs = λ i. 0;
  to_release = [];
  auto_walks = [];
  moves = [];
}

abbrev backpack : ℕ → Env
backpack i = record {
  can_throw = true;
  throw_anywhere = false;
  thing = some (record {
    item = i;
    client_id = 7;
    pickupable = true;
    loaded_from_map = false;
    unique_id = 0;
    action_id = 0;
    position = square 101;
  });
  path = false;
  is_container = λ j. true;
  is_holding = λ c j. false;
  holding_count = λ j. 3;
  events = true ∷ [];
}

abbrev request : ℕ → ℕ → TradeRequest
request p q = record { player = p; trade_player = q; pos = square 101; stackpos = 1; sprite_id = 7 }

abbrev willing : Answers
willing = record {
  can_throw = true;
  throw_anywhere = false;
  events = [];
  room_at_partner = true;
  room_at_player = true;
  removable_of_partner = true;
  removable_of_player = true;
  moves_to_partner = true;
  moves_to_player = false;
}

-- Two players come in, and each offers an item.
abbrev offers : List Event
offers =
    enters 1 (square 100)
    ∷ enters 2 (square 102)
    ∷ requests (request 1 2) (backpack 10)
    ∷ requests (request 2 1) (backpack 20)
    ∷ []

abbrev both_offer : World
both_offer = run empty_world offers

both_offer_items :
    ((both_offer.players 1).trade_item ≡ some 10) × ((both_offer.players 2).trade_item ≡ some 20)
unfolding run player_request_trade are_in_range enter
both_offer_items = (refl, refl)

-- The second player walks away, which closes the trade, and the first one leaves.
abbrev story : List Event
story =
    enters 1 (square 100)
    ∷ enters 2 (square 102)
    ∷ requests (request 1 2) (backpack 10)
    ∷ accepts 1 willing
    ∷ moves_to 2 (square 200) (λ i. square 200)
    ∷ leaves 1
    ∷ []

story_end :
    (((run empty_world story).players 2).trade_partner ≡ none)
    × ((run empty_world story).to_release ≡ 10 ∷ [])
    × ((run empty_world story).trade_items ≡ [])
unfolding run player_request_trade are_in_range enter player_accept_trade on_creature_move
    on_creature_disappear
story_end = (refl, refl, refl)

-- The first one accepts.
abbrev offers_and_accept : List Event
offers_and_accept =
    enters 1 (square 100)
    ∷ enters 2 (square 102)
    ∷ requests (request 1 2) (backpack 10)
    ∷ requests (request 2 1) (backpack 20)
    ∷ accepts 1 willing
    ∷ []
