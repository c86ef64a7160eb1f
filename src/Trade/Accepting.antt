-- ===== src/Trade/Accepting.antt =====
-- Game::playerAcceptTrade and Game::internalCloseTrade.
use darghos_tfs04_86_v.Base.{
  ℕ, Bool, true, false, not, ◌&&◌, ◌||◌, Option, none, some, List, [], ◌∷◌, ◌++◌, if◌then◌else◌,
  all,
}
use darghos_tfs04_86_v.Trade.{
  World, TradeState, trade_accept, trade_transfer, is_initiated, is_acknowledge, is_accept,
  is_transfer, set_player, forget_item, idle,
}

-- The answers of the map, of the scripts, and of the items' cylinders: whether the partner has
-- room for the player's item and the reverse, whether each item may be taken away, and whether the
-- calls of `internalMoveItem` move the items.
pub record Answers : Type 0 where
  pub can_throw : Bool
  pub throw_anywhere : Bool
  pub events : List Bool
  pub room_at_partner : Bool
  pub room_at_player : Bool
  pub removable_of_partner : Bool
  pub removable_of_player : Bool
  pub moves_to_partner : Bool
  pub moves_to_player : Bool

unfoldable pub set_trade_state : ℕ → TradeState → World → World
unfolding set_player
set_trade_state p state w = set_player p (record (w.players p) { trade_state = state }) w

-- Both sides are idle again.
unfoldable pub end_trade : World → ℕ → ℕ → World
unfolding set_player idle
end_trade w p q =
    let w' = set_player p (idle (w.players p)) w in set_player q (idle (w'.players q)) w'

-- What a call of `internalMoveItem` moves.
abbrev pub made : Bool → ℕ × ℕ → List (ℕ × ℕ)
made true move = move ∷ []
made false move = []

unfoldable pub internal_move_item : Bool → ℕ → ℕ → World → World
internal_move_item answer i p w = record w { moves = w.moves ++ made answer (i, p) }

-- The items change hands. What the two moves answer is ignored: one of them may fail. `internalAddItem` refuses an item that is not there.
unfoldable pub swap_items : World → Answers → ℕ → ℕ → (item1 item2 : Option ℕ) → World × Bool
unfolding internal_move_item
swap_items w a p q none item2 = (w, false)
swap_items w a p q (some i) none = (w, false)
swap_items w a p q (some i) (some j) =
    if a.room_at_partner && a.room_at_player
    then if a.removable_of_player && a.removable_of_partner
      then (
        internal_move_item a.moves_to_player j p (internal_move_item a.moves_to_partner i q w),
        true,
      )
      else (w, false)
    else (w, false)

-- From the state TRADE_TRANSFER on.
unfoldable pub transfer : World → Answers → ℕ → ℕ → World × Bool
unfolding set_trade_state forget_item swap_items end_trade
transfer w a p q =
    let item1 = (w.players p).trade_item in
    let item2 = (w.players q).trade_item in
    let w1 = set_trade_state q trade_transfer (set_trade_state p trade_transfer w) in
    let w2 = forget_item item2 (forget_item item1 w1) in
    let (w3, success) = swap_items w2 a p q item1 item2 in (end_trade w3 p q, success)

unfoldable pub accept_from : World → Answers → ℕ → Option ℕ → World × Bool
unfolding set_trade_state transfer
accept_from w a p none = (w, false)
accept_from w a p (some q) =
    if not a.can_throw && not a.throw_anywhere
    then (w, false)
    else let w' = set_trade_state p trade_accept w in
      if not (is_accept (w'.players q).trade_state)
      then (w', false)
      else if not (all (λ answer. answer) a.events)
      then (w', false)
      else transfer w' a p q

unfoldable pub player_accept_trade : World → Answers → ℕ → World × Bool
unfolding accept_from
player_accept_trade w a p =
    let player = w.players p in
    if not player.present
      || player.removed
      || not (is_acknowledge player.trade_state) && not (is_initiated player.trade_state)
    then (w, false)
    else accept_from w a p player.trade_partner

-- One side of a trade is cancelled.
unfoldable pub cancel_side : World → ℕ → World
unfolding forget_item set_player idle
cancel_side w p = set_player p (idle (w.players p)) (forget_item (w.players p).trade_item w)

unfoldable pub close_with : World → ℕ → Option ℕ → World
unfolding cancel_side
close_with w p none = if is_transfer (w.players p).trade_state then w else cancel_side w p
close_with w p (some q) =
    if is_transfer (w.players q).trade_state || is_transfer (w.players p).trade_state
    then w
    else cancel_side (cancel_side w p) q

unfoldable pub internal_close_trade : World → ℕ → World
unfolding close_with
internal_close_trade w p = close_with w p (w.players p).trade_partner

unfoldable pub player_close_trade : World → ℕ → World × Bool
unfolding internal_close_trade
player_close_trade w p =
    if not (w.players p).present || (w.players p).removed
    then (w, false)
    else (internal_close_trade w p, true)

-- The item that `Game::playerLookInTrade` describes, if any.
unfoldable pub look_in_trade : World → ℕ → Bool → Option ℕ
look_in_trade w p counter =
    if not (w.players p).present || (w.players p).removed
    then none
    else elim (w.players p).trade_partner [
      | none ↦ none
      | some q ↦ if counter then (w.players q).trade_item else (w.players p).trade_item
    ]
