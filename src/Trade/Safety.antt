-- ===== src/Trade/Safety.antt =====
-- Every request of a player, and every change around a trade, keeps the invariant.
use darghos_tfs04_86_v.Base.{ℕ, ◌≡◌, refl, Bool, true, List, [], ◌∷◌, if◌then◌else◌, arith, ==_iff}
use darghos_tfs04_86_v.Position.{Position}
use darghos_tfs04_86_v.Trade.Items.{lookup}
use darghos_tfs04_86_v.Trade.{World, TradeRequest, set_player, trade_accept}
use darghos_tfs04_86_v.Trade.Requests.{Env, player_request_trade, house_sell}
use darghos_tfs04_86_v.Trade.Accepting.{
  Answers, set_trade_state, player_accept_trade, player_close_trade,
}
use darghos_tfs04_86_v.Trade.Changes.{
  Item, check_trade_state, on_remove_inventory_item, on_update_inventory_item,
  on_remove_container_item, on_update_container_item, on_creature_move, on_creature_disappear,
  enter,
}
use darghos_tfs04_86_v.Trade.Inv.{Inv, is_some, Alike, Alike-Inv}

accepting-Alike :
    (w : World) (p : ℕ)
    → Inv w
    → is_some (w.players p).trade_partner ≡ true
    → Alike w (set_trade_state p trade_accept w)
unfolding set_trade_state set_player
accepting-Alike w p v h = record {
  partner = λ k. ground (arith, ==_iff k p);
  item = λ k. ground (arith, ==_iff k p);
  is_present = λ k. ground (arith, ==_iff k p);
  table = refl;
  same_refs = refl;
  same_release = refl;
  states = λ k. ground (arith, h, v.fitting k, ==_iff k p);
}

pub accepting-Inv :
    (w : World) (p : ℕ)
    → Inv w
    → is_some (w.players p).trade_partner ≡ true
    → Inv (set_trade_state p trade_accept w)
unfolding set_trade_state set_player
accepting-Inv w p v h = Alike-Inv w _ (λ k. ground (arith, ==_iff k p)) v (accepting-Alike w p v h)

abbrev FirstInv : World × Bool → Type 0
FirstInv r = Inv r.0

-- What may happen to a trade: the requests of players, and the changes around them. The item that stands
-- for a house is new: it is not on offer.
pub data Event : Type 0 where
  requests : TradeRequest → Env → Event
  sells_house : Bool → (p q item : ℕ) → Event
  accepts : ℕ → Answers → Event
  closes : ℕ → Event
  adds_item : ℕ → Item → Event
  removes_item : ℕ → Item → Event
  updates_item : ℕ → Item → Bool → Event
  removes_content : ℕ → (ℕ → Bool) → Item → Event
  updates_content : ℕ → (ℕ → Bool) → Item → Bool → Event
  moves_to : ℕ → Position → (ℕ → Position) → Event
  leaves : ℕ → Event
  enters : ℕ → Position → Event

unfoldable pub happen : World → Event → World
happen w (requests r e) = (player_request_trade w r e).0
happen w (sells_house allowed p q item) =
    if is_some (lookup item w.trade_items) then w else (house_sell w allowed p q item).0
happen w (accepts p a) = (player_accept_trade w a p).0
happen w (closes p) = (player_close_trade w p).0
happen w (adds_item p i) = check_trade_state w p i
happen w (removes_item p i) = on_remove_inventory_item w p i
happen w (updates_item p i same) = on_update_inventory_item w p i same
happen w (removes_content p f i) = on_remove_container_item w p f i
happen w (updates_content p f i same) = on_update_container_item w p f i same
happen w (moves_to p here place) = on_creature_move w p here place
happen w (leaves p) = on_creature_disappear w p
happen w (enters p here) = enter w p here

unfoldable pub run : World → List Event → World
unfolding happen
run w [] = w
run w (e ∷ es) = run (happen w e) es
