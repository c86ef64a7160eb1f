-- ===== src/Trade/Asking.antt =====
-- The request for a trade, with all its guards, and the invariant.
use darghos_tfs04_86_v.Base.{
  ℕ, ◌+◌, ◌≡◌, refl, Bool, true, false, not, ◌&&◌, ◌||◌, Option, none, some, ◌==◌, arith, ==_iff,
  Bool-cases, inl, inr, if_elim, any, all, ltb, u32,
}
use darghos_tfs04_86_v.Position.{Position, are_in_range}
use darghos_tfs04_86_v.Trade.Items.{lookup, lookup-any}
use darghos_tfs04_86_v.Trade.{World, TradeRequest, points, is_none, is_acknowledge, set_player}
use darghos_tfs04_86_v.Trade.Requests.{
  Env, Offer, one_square, two_squares, three_squares, house_sell, internal_start_trade, is_traded,
  request_item, walk_to_item, player_request_trade,
}
use darghos_tfs04_86_v.Trade.Inv.{Inv, Alike, Alike-Inv}
use darghos_tfs04_86_v.Trade.Starting.{start-Started, Started-Inv}

-- Two players in the game, near each other, and an item that nobody offers.
record CanMeet (w : World) (p q : ℕ) : Type 0 where
  two : (q == p) ≡ false
  here : (w.players p).present ≡ true
  there : (w.players q).present ≡ true
  close : are_in_range three_squares (w.players q).position (w.players p).position ≡ true

-- Two squares are within three.
pub wider :
    (c d : Position) → are_in_range two_squares c d ≡ true → are_in_range three_squares c d ≡ true
unfolding are_in_range
wider c d h = ground (arith, h)

internal_start_trade-Inv :
    (w : World) (p q item : ℕ)
    → Inv w
    → CanMeet w p q
    → lookup item w.trade_items ≡ none
    → Inv (internal_start_trade w p q item).0
unfolding internal_start_trade
internal_start_trade-Inv w p q item v c new =
    elim (Bool-cases (
      not (is_none (w.players p).trade_state)
      && not (is_acknowledge (w.players p).trade_state && points (w.players p).trade_partner q))) [
        | inl busy ↦ rw (internal_start_trade, busy) v
        | inr free ↦
            elim (Bool-cases (
              not (is_none (w.players q).trade_state)
              && not (points (w.players q).trade_partner p))) [
                | inl busy ↦ rw (internal_start_trade, free, busy) v
                | inr partner_free ↦
                    rw (internal_start_trade, free, partner_free)
                      (Started-Inv w _ p q item v
                        (record {
                          two = c.two;
                          here = c.here;
                          there = c.there;
                          close = c.close;
                          new = new;
                          free = ground arith;
                          partner_free = ground arith;
                        })
                        (start-Started w p q item c.two))
              ]
      ]

walk_to_item-Alike : (w : World) (r : TradeRequest) → Inv w → Alike w (walk_to_item w r)
unfolding walk_to_item set_player
walk_to_item-Alike w r v = record {
  partner = λ k. ground (arith, ==_iff k r.player);
  item = λ k. ground (arith, ==_iff k r.player);
  is_present = λ k. ground (arith, ==_iff k r.player);
  table = refl;
  same_refs = refl;
  same_release = refl;
  states = λ k. ground (arith, v.fitting k, ==_iff k r.player);
}

walk_to_item-position :
    (w : World) (r : TradeRequest) (k : ℕ)
    → ((walk_to_item w r).players k).position ≡ (w.players k).position
unfolding walk_to_item set_player
walk_to_item-position w r k = ground (arith, ==_iff k r.player)

untraded :
    (w : World) (e : Env) (item : ℕ)
    → any (is_traded e item) w.trade_items ≡ false
    → lookup item w.trade_items ≡ none
unfolding is_traded
untraded w e item h = lookup-any item (is_traded e item) w.trade_items (λ entry s. ground arith) h

abbrev FirstInv : World × Bool → Type 0
FirstInv r = Inv r.0

request_item-Inv :
    (w : World) (r : TradeRequest) (e : Env) (o : Option Offer)
    → Inv w
    → CanMeet w r.player r.trade_player
    → Inv (request_item w r e o).0
unfolding request_item
request_item-Inv w r e none v c = v
request_item-Inv w r e (some o) v c =
    if_elim FirstInv
      (not (o.client_id == r.sprite_id)
        || not o.pickupable
        || o.loaded_from_map
          && (not (o.unique_id == 0) || not (o.action_id == 0) && e.is_container o.item))
      _ _ (λ _. v)
      λ _.
        if_elim FirstInv (ltb o.position.z (w.players r.player).position.z) _ _ (λ _. v)
          λ _.
            if_elim FirstInv (ltb (w.players r.player).position.z o.position.z) _ _ (λ _. v)
              λ _.
                elim (Bool-cases
                  (not (are_in_range one_square o.position (w.players r.player).position))) [
                    | inl far ↦ rw far (
                        ground (
                          arith,
                          v,
                          Alike-Inv w (walk_to_item w r) (walk_to_item-position w r) v
                              (walk_to_item-Alike w r v),
                        ))
                    | inr at_hand ↦ rw at_hand (
                        if_elim FirstInv (any (is_traded e o.item) w.trade_items) _ _ (λ _. v)
                          λ free.
                            if_elim FirstInv
                              (e.is_container o.item && ltb 100 (u32 (e.holding_count o.item + 1)))
                              _ _ (λ _. v)
                              λ _.
                                if_elim FirstInv (not (all (λ answer. answer) e.events)) _ _
                                  (λ _. v)
                                  λ _.
                                    internal_start_trade-Inv w r.player r.trade_player o.item v c
                                      (untraded w e o.item free))
                  ]

pub player_request_trade-Inv :
    (w : World) (r : TradeRequest) (e : Env) → Inv w → Inv (player_request_trade w r e).0
unfolding player_request_trade
player_request_trade-Inv w r e v =
    if_elim FirstInv (not (w.players r.player).present || (w.players r.player).removed) _ _ (λ _. v)
      λ here.
        if_elim FirstInv (not (w.players r.trade_player).present || r.trade_player == r.player) _ _
          (λ _. v)
          λ there.
            if_elim FirstInv
              (not (
                are_in_range two_squares (w.players r.trade_player).position
                  (w.players r.player).position))
              _ _ (λ _. v)
              λ close.
                if_elim FirstInv (not e.can_throw && not e.throw_anywhere) _ _ (λ _. v)
                  λ _. request_item-Inv w r e e.thing v (record {
                    two = ground arith;
                    here = ground arith;
                    there = ground arith;
                    close = wider _ _ (ground arith);
                  })

pub house_sell-Inv :
    (w : World) (allowed : Bool) (p q item : ℕ)
    → lookup item w.trade_items ≡ none
    → Inv w
    → Inv (house_sell w allowed p q item).0
unfolding house_sell
house_sell-Inv w allowed p q item new v =
    if_elim FirstInv (not allowed || not (w.players p).present || not (w.players q).present) _ _
      (λ _. v)
      λ here.
        if_elim FirstInv (q == p) _ _ (λ _. v)
          λ two.
            if_elim FirstInv
              (not (are_in_range three_squares (w.players q).position (w.players p).position)) _ _
              (λ _. v)
              λ close.
                internal_start_trade-Inv w p q item v
                  (record {
                    two = two;
                    here = ground (arith, here);
                    there = ground (arith, here);
                    close = ground (arith, close);
                  })
                  new
