-- ===== src/Trade/Transfer.antt =====
-- An accepted trade: what is moved, and how the trade ends.
use darghos_tfs04_86_v.Base.{
  ℕ, ◌+◌, ◌≡◌, refl, Bool, true, false, ◌&&◌, ◌||◌, Option, none, some, List, [], ◌++◌,
  if◌then◌else◌, arith, ==_iff, append_assoc,
}
use darghos_tfs04_86_v.Trade.Items.{lookup, count}
use darghos_tfs04_86_v.Trade.{World, points, set_player, forget_item, trade_transfer}
use darghos_tfs04_86_v.Trade.Accepting.{
  Answers, made, set_trade_state, end_trade, swap_items, transfer,
}
use darghos_tfs04_86_v.Trade.Inv.{Inv, Ended, is_some}
use darghos_tfs04_86_v.Trade.Forgetting.{
  forget_both, forget_item_rest, offer-IsListed, offers_apart,
}

-- The items of both are there, both have room, and both items may be taken away.
abbrev pub can_swap : Answers → (item1 item2 : Option ℕ) → Bool
can_swap a item1 item2 =
    is_some item1
    && is_some item2
    && (a.room_at_partner && a.room_at_player)
    && (a.removable_of_player && a.removable_of_partner)

-- The first item goes to `q`, and the second to `p`, where these moves do not fail.
abbrev pub swapped : Answers → ℕ → ℕ → (item1 item2 : Option ℕ) → List (ℕ × ℕ)
swapped a p q none item2 = []
swapped a p q (some i) none = []
swapped a p q (some i) (some j) = made a.moves_to_partner (i, q) ++ made a.moves_to_player (j, p)

swap_items_lem :
    (w : World) (a : Answers) (p q : ℕ) (i j : Option ℕ)
    → swap_items w a p q i j ≡ (
        if can_swap a i j
        then (record w { moves = w.moves ++ swapped a p q i j }, true)
        else (w, false))
unfolding swap_items
swap_items_lem w a p q none j = refl
swap_items_lem w a p q (some i) none = refl
swap_items_lem w a p q (some i) (some j) =
    ground
      (arith, append_assoc w.moves (made a.moves_to_partner (i, q)) (made a.moves_to_player (j, p)))

swap_items_rest :
    (w : World) (a : Answers) (p q : ℕ) (i j : Option ℕ)
    → ((swap_items w a p q i j).0.players ≡ w.players)
      × ((swap_items w a p q i j).0.trade_items ≡ w.trade_items)
      × ((swap_items w a p q i j).0.refs ≡ w.refs)
      × ((swap_items w a p q i j).0.to_release ≡ w.to_release)
swap_items_rest w a p q i j = ground (arith, swap_items_lem w a p q i j)

-- Both are in transfer.
marked : World → ℕ → ℕ → World
unfolding set_trade_state set_player
marked w p q = set_trade_state q trade_transfer (set_trade_state p trade_transfer w)

-- And both items are forgotten.
taken : World → ℕ → ℕ → World
unfolding marked
taken w p q =
    forget_item (w.players q).trade_item (forget_item (w.players p).trade_item (marked w p q))

taken_rest :
    (w : World) (p q : ℕ)
    → ((taken w p q).players ≡ (marked w p q).players) × ((taken w p q).refs ≡ w.refs)
unfolding taken
taken_rest w p q = ground (
  arith,
  forget_item_rest (marked w p q) (w.players p).trade_item,
  forget_item_rest (forget_item (w.players p).trade_item (marked w p q)) (w.players q).trade_item,
)

module _ (w : World) (a : Answers) (p q : ℕ) (v : Inv w)
    (e : (w.players p).trade_partner ≡ some q) where
  left_items :
      (i : ℕ)
      → (lookup i (taken w p q).trade_items ≡ (
          if points (w.players p).trade_item i || points (w.players q).trade_item i
          then none
          else lookup i w.trade_items))
        × (count i (taken w p q).to_release
            ≡ count i w.to_release
              + (if points (w.players p).trade_item i then 1 else 0)
              + (if points (w.players q).trade_item i then 1 else 0))
  unfolding taken
  left_items i =
      forget_both (marked w p q) (w.players p).trade_item (w.players q).trade_item i
        (offer-IsListed w p v) (offer-IsListed w q v) (λ j. offers_apart w p q j v e)

  pub transfer-Ended : Ended w (transfer w a p q).0 p q
  unfolding transfer taken marked end_trade
  transfer-Ended =
      let rest =
        swap_items_rest (taken w p q) a p q (w.players p).trade_item (w.players q).trade_item in
      record {
        players = λ k. ground (arith, rest, taken_rest w p q, ==_iff k p, ==_iff k q);
        traded = λ i. ground (arith, rest, left_items i);
        refs = λ i. ground (arith, rest, taken_rest w p q);
        released = λ i. ground (arith, rest, left_items i);
      }

forget_item-moves : (w : World) (o : Option ℕ) → (forget_item o w).moves ≡ w.moves
unfolding forget_item
forget_item-moves w none = refl
forget_item-moves w (some i) = ground arith

taken-moves : (w : World) (p q : ℕ) → (taken w p q).moves ≡ w.moves
unfolding taken marked
taken-moves w p q = ground (
  arith,
  forget_item-moves (marked w p q) (w.players p).trade_item,
  forget_item-moves (forget_item (w.players p).trade_item (marked w p q)) (w.players q).trade_item,
)

-- A transfer succeeds where the items can be swapped, and then it gives both away.
pub transfer_lem :
    (w : World) (a : Answers) (p q : ℕ)
    → let i = (w.players p).trade_item in
      let j = (w.players q).trade_item in
      ((transfer w a p q).1 ≡ can_swap a i j)
      × ((transfer w a p q).0.moves
          ≡ (if can_swap a i j then w.moves ++ swapped a p q i j else w.moves))
unfolding transfer taken marked end_trade set_trade_state set_player
transfer_lem w a p q = ground (
  arith,
  taken-moves w p q,
  swap_items_lem (taken w p q) a p q (w.players p).trade_item (w.players q).trade_item,
)
