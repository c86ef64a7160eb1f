-- ===== src/Trade/Starting.antt =====
-- A trade that starts, or is answered by the partner, leaves the invariant.
use darghos_tfs04_86_v.Base.{
  ℕ, ◌+◌, ◌≡◌, true, false, ◌&&◌, ◌||◌, none, some, ◌==◌, if◌then◌else◌, arith, ==_iff,
}
use darghos_tfs04_86_v.Position.{are_in_range}
use darghos_tfs04_86_v.Trade.Items.{lookup, count, lookup-insert}
use darghos_tfs04_86_v.Trade.{
  World, points, is_none, is_acknowledge, set_player, trade_initiated, trade_acknowledge,
}
use darghos_tfs04_86_v.Trade.Requests.{three_squares, offer, ask_partner}
use darghos_tfs04_86_v.Trade.Inv.{Inv, are_in_range_comm, fits, is_some}

-- Who may trade: two in the game, near each other, with an item that is not offered yet, and each
-- free for the other.
pub record MayStart (w : World) (p q item : ℕ) : Type 0 where
  pub two : (q == p) ≡ false
  pub here : (w.players p).present ≡ true
  pub there : (w.players q).present ≡ true
  pub close : are_in_range three_squares (w.players q).position (w.players p).position ≡ true
  pub new : lookup item w.trade_items ≡ none
  pub free :
      (is_none (w.players p).trade_state
        || is_acknowledge (w.players p).trade_state && points (w.players p).trade_partner q)
      ≡ true
  pub partner_free :
      (is_none (w.players q).trade_state || points (w.players q).trade_partner p) ≡ true

-- What the players are afterwards.
pub record Started (w after : World) (p q item : ℕ) : Type 0 where
  pub players :
      (k : ℕ)
      → after.players k ≡ (
          if k == p
          then record (w.players p) {
            trade_partner = some q;
            trade_item = some item;
            trade_state = trade_initiated;
          }
          else if k == q && is_none (w.players q).trade_state
          then record (w.players q) { trade_state = trade_acknowledge; trade_partner = some p }
          else w.players k)
  pub table :
      (i : ℕ) → lookup i after.trade_items ≡ (if i == item then some p else lookup i w.trade_items)
  pub refs : (i : ℕ) → after.refs i ≡ (if i == item then w.refs i + 1 else w.refs i)
  pub released : after.to_release ≡ w.to_release

pub start-Started :
    (w : World) (p q item : ℕ)
    → (q == p) ≡ false
    → Started w (ask_partner (offer w p q item) p q) p q item
unfolding ask_partner offer set_player
start-Started w p q item d = record {
  players = λ k. ground (arith, ==_iff k p, ==_iff k q);
  table = λ i. ground (arith, lookup-insert i item p w.trade_items);
  refs = λ i. ground (arith, ==_iff i item);
  released = ground arith;
}

module _ (w after : World) (p q item : ℕ) (v : Inv w) (m : MayStart w p q item)
    (s : Started w after p q item) where
  Started-both :
      (a b : ℕ)
      → points (after.players a).trade_partner b ≡ points (after.players b).trade_partner a
  Started-both a b = ground (
    arith,
    s.players a,
    s.players b,
    m.two,
    m.free,
    m.partner_free,
    v.fitting p,
    v.fitting q,
    v.both a b,
    v.both a p,
    v.both a q,
    v.both b p,
    v.both b q,
    v.both p q,
  )

  Started-apart : (a : ℕ) → points (after.players a).trade_partner a ≡ false
  Started-apart a = ground (arith, s.players a, m.two, v.apart a, ==_iff a p, ==_iff a q)

  Started-fitting :
      (a : ℕ)
      → fits
          (after.players a).trade_state
          (after.players a).trade_partner
          (after.players a).trade_item
        ≡ true
  Started-fitting a = ground (arith, s.players a, v.fitting a, v.fitting q)

  Started-offered :
      (a i : ℕ) → points (after.players a).trade_item i ≡ points (lookup i after.trade_items) a
  Started-offered a i = ground (
    arith,
    s.players a,
    s.table i,
    m.new,
    m.free,
    v.offered a i,
    v.offered p i,
    v.offered q i,
    v.offered a item,
    v.offered p item,
    v.fitting p,
    ==_iff i item,
    ==_iff a p,
    ==_iff a q,
  )

  Started-balanced :
      (i : ℕ)
      → after.refs i
        ≡ count i after.to_release + (if is_some (lookup i after.trade_items) then 1 else 0)
  Started-balanced i =
      ground (arith, s.refs i, s.table i, s.released, v.balanced i, m.new, ==_iff i item)

  Started-present :
      (a : ℕ) → is_some (after.players a).trade_partner ≡ true → (after.players a).present ≡ true
  Started-present a h =
      ground (arith, s.players a, m.here, m.there, v.present a, ==_iff a p, ==_iff a q)

  Started-near :
      (a b : ℕ)
      → points (after.players a).trade_partner b ≡ true
      → are_in_range three_squares (after.players b).position (after.players a).position ≡ true
  Started-near a b h = ground (
    arith,
    s.players a,
    s.players b,
    m.close,
    v.near a b,
    v.near p q,
    v.near q p,
    ==_iff a p,
    ==_iff a q,
    ==_iff b p,
    ==_iff b q,
    are_in_range_comm three_squares (w.players p).position (w.players q).position,
  )

  pub Started-Inv : Inv after
  Started-Inv = record {
    both = Started-both;
    apart = Started-apart;
    fitting = Started-fitting;
    offered = Started-offered;
    balanced = Started-balanced;
    present = Started-present;
    near = Started-near;
  }
