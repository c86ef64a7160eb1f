-- ===== src/Trade/Requests.antt =====
-- Game::playerRequestTrade and Game::internalStartTrade, and TalkAction::houseSell of talkaction.cpp.
use darghos_tfs04_86_v.Base.{
  ℕ, ◌+◌, Bool, true, false, not, ◌&&◌, ◌||◌, Option, none, some, List, [], ◌∷◌, ◌++◌, ◌==◌, ltb,
  if◌then◌else◌, any, all, u32, update,
}
use darghos_tfs04_86_v.Position.{Position, are_in_range}
use darghos_tfs04_86_v.Trade.Items.{insert}
use darghos_tfs04_86_v.Trade.{
  TradeRequest, World, points, is_none, is_acknowledge, trade_initiated, trade_acknowledge,
  set_player,
}

-- What `internalGetThing` finds, if it is an item: its address, and what the handler asks of it.
pub record Offer : Type 0 where
  pub item : ℕ
  pub client_id : ℕ
  pub pickupable : Bool
  pub loaded_from_map : Bool
  pub unique_id : ℕ
  pub action_id : ℕ
  pub position : Position

-- The answers of the map, of the items and of the scripts. `throw_anywhere` is the player's flag;
-- `is_holding c i` is the answer of the container `c`.
pub record Env : Type 0 where
  pub can_throw : Bool
  pub throw_anywhere : Bool
  pub thing : Option Offer
  pub path : Bool
  pub is_container : ℕ → Bool
  pub is_holding : ℕ → ℕ → Bool
  pub holding_count : ℕ → ℕ
  pub events : List Bool

abbrev pub two_squares : Position
two_squares = record { x = 2; y = 2; z = 0 }

abbrev pub three_squares : Position
three_squares = record { x = 3; y = 3; z = 0 }

abbrev pub one_square : Position
one_square = record { x = 1; y = 1; z = 0 }

-- The item, or one in it or around it, is offered already.
unfoldable pub is_traded : Env → ℕ → ℕ × ℕ → Bool
is_traded e item entry =
    item == entry.0
    || e.is_container item && e.is_holding item entry.0
    || e.is_container entry.0 && e.is_holding entry.0 item

-- The player's side of a trade that starts.
unfoldable pub offer : World → ℕ → ℕ → ℕ → World
unfolding set_player
offer w p q item =
    let player = record (w.players p) {
      trade_partner = some q;
      trade_item = some item;
      trade_state = trade_initiated;
    } in
    record (set_player p player w) {
      refs = update w.refs item (w.refs item + 1);
      trade_items = insert item p w.trade_items;
    }

unfoldable pub ask_partner : World → ℕ → ℕ → World
unfolding set_player
ask_partner w p q =
    if is_none (w.players q).trade_state
    then set_player q
        (record (w.players q) { trade_state = trade_acknowledge; trade_partner = some p }) w
    else w

unfoldable pub internal_start_trade : World → ℕ → ℕ → ℕ → World × Bool
unfolding offer ask_partner
internal_start_trade w p q item =
    let player = w.players p in
    let partner = w.players q in
    if not (is_none player.trade_state)
      && not (is_acknowledge player.trade_state && points player.trade_partner q)
    then (w, false)
    else if not (is_none partner.trade_state) && not (points partner.trade_partner p)
    then (w, false)
    else (ask_partner (offer w p q item) p q, true)

-- The player walks to the item, and asks again with the next walk task.
unfoldable pub walk_to_item : World → TradeRequest → World
unfolding set_player
walk_to_item w r =
    record (set_player r.player (record (w.players r.player) { walk_task = some r }) w) {
      auto_walks = w.auto_walks ++ r.player ∷ [];
    }

-- The handler from the item on.
unfoldable pub request_item : World → TradeRequest → Env → Option Offer → World × Bool
unfolding is_traded internal_start_trade walk_to_item
request_item w r e none = (w, false)
request_item w r e (some o) =
    let here = (w.players r.player).position in
    if not (o.client_id == r.sprite_id)
      || not o.pickupable
      || o.loaded_from_map
        && (not (o.unique_id == 0) || not (o.action_id == 0) && e.is_container o.item)
    then (w, false)
    else if ltb o.position.z here.z
    then (w, false)
    else if ltb here.z o.position.z
    then (w, false)
    else if not (are_in_range one_square o.position here)
    then if e.path then (walk_to_item w r, true) else (w, false)
    else if any (is_traded e o.item) w.trade_items
    then (w, false)
    else if e.is_container o.item && ltb 100 (u32 (e.holding_count o.item + 1))
    then (w, false)
    else if not (all (λ answer. answer) e.events)
    then (w, false)
    else internal_start_trade w r.player r.trade_player o.item

unfoldable pub player_request_trade : World → TradeRequest → Env → World × Bool
unfolding request_item
player_request_trade w r e =
    let player = w.players r.player in
    let partner = w.players r.trade_player in
    if not player.present || player.removed
    then (w, false)
    else if not partner.present || r.trade_player == r.player
    then (w, false)
    else if not (are_in_range two_squares partner.position player.position)
    then (w, false)
    else if not e.can_throw && not e.throw_anywhere
    then (w, false)
    else request_item w r e e.thing

-- `TalkAction::houseSell`, for a new item that stands for the house. `allowed` says whether the tests on
-- the house, the name, the partner and the rent are passed.
unfoldable pub house_sell : World → Bool → (p q item : ℕ) → World × Bool
unfolding internal_start_trade
house_sell w allowed p q item =
    if not allowed || not (w.players p).present || not (w.players q).present
    then (w, false)
    else if q == p
    then (w, false)
    else if not (are_in_range three_squares (w.players q).position (w.players p).position)
    then (w, false)
    else ((internal_start_trade w p q item).0, false)
