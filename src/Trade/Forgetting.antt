-- ===== src/Trade/Forgetting.antt =====
-- What is left when items are taken out of the map, and when one side of a trade is cancelled.
use darghos_tfs04_86_v.Base.{
  ℕ, ◌+◌, ◌≡◌, refl, true, false, ◌&&◌, ◌||◌, Option, none, some, ◌==◌, if◌then◌else◌, arith,
  Option-cases, inl, inr, ==_iff,
}
use darghos_tfs04_86_v.Position.{Position}
use darghos_tfs04_86_v.Trade.Items.{lookup, count, lookup-erase, count-push}
use darghos_tfs04_86_v.Trade.{World, points, idle, forget_item, set_player}
use darghos_tfs04_86_v.Trade.Accepting.{cancel_side}
use darghos_tfs04_86_v.Trade.Inv.{InvAt, is_some}

-- Of an item that is in the map, if it is an item at all.
abbrev pub IsListed : World → Option ℕ → Type 0
IsListed w none = Unit {0}
IsListed w (some i) = is_some (lookup i w.trade_items) ≡ true

-- What `forget_item` leaves.
pub record Forgotten (w after : World) (item : Option ℕ) : Type 0 where
  pub traded :
      (i : ℕ)
      → lookup i after.trade_items ≡ (if points item i then none else lookup i w.trade_items)
  pub released :
      (i : ℕ) → count i after.to_release ≡ count i w.to_release + (if points item i then 1 else 0)

pub forget_item-Forgotten :
    (w : World) (item : Option ℕ) → IsListed w item → Forgotten w (forget_item item w) item
unfolding forget_item
forget_item-Forgotten w none h = record { traded = λ i. refl; released = λ i. omega arith }
forget_item-Forgotten w (some j) h = record {
  traded = λ i. ground (arith, lookup-erase i j w.trade_items);
  released = λ i. ground (arith, count-push i j w.to_release);
}

pub forget_item_rest :
    (w : World) (item : Option ℕ)
    → ((forget_item item w).players ≡ w.players) × ((forget_item item w).refs ≡ w.refs)
unfolding forget_item
forget_item_rest w none = (refl, refl)
forget_item_rest w (some j) = ground arith

-- Two partners' items are both in the map, and they are not the same.
pub offer-IsListed :
    {place : ℕ → Position} (w : World) (p : ℕ) → InvAt place w → IsListed w (w.players p).trade_item
offer-IsListed w p v = elim (Option-cases (w.players p).trade_item) [
  | inl nothing ↦ rw nothing tt
  | inr (i, e) ↦ rw e (ground (arith, v.offered p i))
]

pub offers_apart :
    {place : ℕ → Position} (w : World) (p q i : ℕ)
    → InvAt place w
    → (w.players p).trade_partner ≡ some q
    → (points (w.players p).trade_item i && points (w.players q).trade_item i) ≡ false
offers_apart w p q i v e = ground (arith, v.offered p i, v.offered q i, v.apart p)

pub IsListed-Forgotten :
    (w after : World) (a b : Option ℕ)
    → Forgotten w after a
    → IsListed w b
    → ((i : ℕ) → (points a i && points b i) ≡ false)
    → IsListed after b
IsListed-Forgotten w after a none f k d = tt
IsListed-Forgotten w after a (some j) f k d = ground (arith, f.traded j, d j)

-- What is left of two items.
pub forget_both :
    (w : World) (a b : Option ℕ) (i : ℕ)
    → IsListed w a
    → IsListed w b
    → ((j : ℕ) → (points a j && points b j) ≡ false)
    → let after = forget_item b (forget_item a w) in
      (lookup i after.trade_items
        ≡ (if points a i || points b i then none else lookup i w.trade_items))
      × (count i after.to_release
          ≡ count i w.to_release + (if points a i then 1 else 0) + (if points b i then 1 else 0))
forget_both w a b i ha hb d =
    let f = forget_item-Forgotten w a ha in
    let g =
      forget_item-Forgotten (forget_item a w) b
        (IsListed-Forgotten w (forget_item a w) a b f hb d) in
    (ground (arith, f.traded i, g.traded i), omega (arith, f.released i, g.released i))

pub cancel_side-players :
    (w : World) (p k : ℕ)
    → (cancel_side w p).players k ≡ (if k == p then idle (w.players k) else w.players k)
unfolding cancel_side set_player idle
cancel_side-players w p k = ground (arith, forget_item_rest w (w.players p).trade_item, ==_iff k p)

pub cancel_side-Forgotten :
    (w : World) (p : ℕ)
    → IsListed w (w.players p).trade_item
    → Forgotten w (cancel_side w p) (w.players p).trade_item
unfolding cancel_side set_player
cancel_side-Forgotten w p h =
    let f = forget_item-Forgotten w (w.players p).trade_item h in
    record { traded = f.traded; released = f.released }

pub cancel_side-refs : (w : World) (p : ℕ) → (cancel_side w p).refs ≡ w.refs
unfolding cancel_side set_player
cancel_side-refs w p = (forget_item_rest w (w.players p).trade_item).1
