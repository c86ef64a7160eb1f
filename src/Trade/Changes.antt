-- ===== src/Trade/Changes.antt =====
-- What player.cpp does to a trade when the player moves, leaves or enters, and when an item moves. The
-- containers around an item are an argument, the innermost first.
use darghos_tfs04_86_v.Base.{
  ℕ, Bool, true, false, not, ◌&&◌, ◌||◌, Option, none, some, List, ◌==◌, if◌then◌else◌, mem,
}
use darghos_tfs04_86_v.Position.{Position, are_in_range}
use darghos_tfs04_86_v.Trade.{Player, World, trade_none, is_transfer, set_player}
use darghos_tfs04_86_v.Trade.Requests.{one_square, two_squares}
use darghos_tfs04_86_v.Trade.Accepting.{internal_close_trade}

-- An item that is moved, the containers around it, and what it is asked: is it a container, does
-- it hold an item.
pub record Item : Type 0 where
  pub item : ℕ
  pub around : List ℕ
  pub is_container : Bool
  pub is_holding : ℕ → Bool

-- Is the item that is offered `item`, or a container around it?
abbrev pub touches : Option ℕ → Item → Bool
touches none i = false
touches (some t) i = t == i.item || mem t i.around

-- The loop ends at the first container that is offered.
unfoldable pub check_trade_state : World → ℕ → Item → World
unfolding internal_close_trade
check_trade_state w p i =
    if not (is_transfer (w.players p).trade_state) && touches (w.players p).trade_item i
    then internal_close_trade w p
    else w

abbrev pub holds : (ℕ → Bool) → Option ℕ → Bool
holds f none = false
holds f (some t) = f t

-- `onRemoveTileItem` is the same code.
unfoldable pub on_remove_inventory_item : World → ℕ → Item → World
unfolding check_trade_state internal_close_trade
on_remove_inventory_item w p i =
    if is_transfer (w.players p).trade_state
    then w
    else let w' = check_trade_state w p i in
      if i.is_container && holds i.is_holding (w'.players p).trade_item
      then internal_close_trade w' p
      else w'

unfoldable pub on_update_inventory_item : World → ℕ → Item → Bool → World
unfolding on_remove_inventory_item check_trade_state
on_update_inventory_item w p old same =
    let w' = if same then w else on_remove_inventory_item w p old in
    if is_transfer (w'.players p).trade_state then w' else check_trade_state w' p old

-- An item leaves the container; `inside t` is the container's answer whether it holds `t`, and not
-- as one of its own items.
unfoldable pub on_remove_container_item : World → ℕ → (inside : ℕ → Bool) → Item → World
unfolding check_trade_state internal_close_trade
on_remove_container_item w p inside i =
    if is_transfer (w.players p).trade_state
    then w
    else let w' = check_trade_state w p i in
      if holds inside (w'.players p).trade_item then internal_close_trade w' p else w'

unfoldable pub on_update_container_item : World → ℕ → (inside : ℕ → Bool) → Item → Bool → World
unfolding on_remove_container_item check_trade_state
on_update_container_item w p inside old same =
    let w' = if same then w else on_remove_container_item w p inside old in
    if is_transfer (w'.players p).trade_state then w' else check_trade_state w' p old

abbrev pub item_away : (ℕ → Position) → Position → Option ℕ → Bool
item_away place here none = false
item_away place here (some t) = not (are_in_range one_square (place t) here)

abbrev pub partner_away : (ℕ → Player) → Position → Option ℕ → Bool
partner_away players here none = false
partner_away players here (some q) = not (are_in_range two_squares (players q).position here)

-- The player has a new position, and `place` gives the items' positions from now on.
unfoldable pub on_creature_move : World → ℕ → Position → (ℕ → Position) → World
unfolding set_player internal_close_trade
on_creature_move w p here place =
    let w' = set_player p (record (w.players p) { position = here }) w in
    let player = w'.players p in
    if not (is_transfer player.trade_state)
      && (item_away place here player.trade_item
          || partner_away w'.players here player.trade_partner)
    then internal_close_trade w' p
    else w'

-- A trade is closed before the player is taken off the game's list.
unfoldable pub on_creature_disappear : World → ℕ → World
unfolding set_player internal_close_trade
on_creature_disappear w p =
    let w' : World = elim (w.players p).trade_partner [
      | none ↦ w
      | some q ↦ internal_close_trade w p
    ] in
    set_player p (record (w'.players p) { present = false; removed = true }) w'

-- A new `Player` under an identifier that is not in use.
unfoldable pub enter : World → ℕ → Position → World
unfolding set_player
enter w p here =
    if (w.players p).present
    then w
    else set_player p
        (record {
          present = true;
          removed = false;
          position = here;
          trade_state = trade_none;
          trade_partner = none;
          trade_item = none;
          walk_task = none;
        })
        w
