-- ===== src/Trade/Inv.antt =====
-- The invariant of all trades, and what it means that a trade ends.
use darghos_tfs04_86_v.Base.{
  ℕ, ◌+◌, ◌≡◌, refl, Bool, true, false, not, ◌&&◌, ◌||◌, Option, none, some, ◌==◌, if◌then◌else◌,
  arith, ◌∙◌, sym, ap, subst,
}
use darghos_tfs04_86_v.Position.{Position, are_in_range, distance}
use darghos_tfs04_86_v.Trade.Items.{lookup, count}
use darghos_tfs04_86_v.Trade.{
  World, TradeState, trade_none, trade_initiated, trade_accept, trade_acknowledge, trade_transfer,
  points, idle,
}
use darghos_tfs04_86_v.Trade.Requests.{three_squares}

abbrev pub is_some {ℓ} : {A : Type ℓ} → Option A → Bool
is_some none = false
is_some (some a) = true

-- What the state says of the partner and the item. Between two requests no trade is in transfer.
abbrev pub fits : TradeState → (partner item : Option ℕ) → Bool
fits trade_none partner item = not (is_some partner) && not (is_some item)
fits trade_initiated partner item = is_some partner && is_some item
fits trade_accept partner item = is_some partner
fits trade_acknowledge partner item = is_some partner && not (is_some item)
fits trade_transfer partner item = false

-- Partners point to each other, nobody trades with themselves, the state tells what is there, an
-- item is in the map with the one player who offers it, each reference to an item is released or
-- still needed, who trades is in the game, and partners stand within three squares, where `place`
-- says where each player stands.
pub record InvAt (place : ℕ → Position) (w : World) : Type 0 where
  pub both : (p q : ℕ) → points (w.players p).trade_partner q ≡ points (w.players q).trade_partner p
  pub apart : (p : ℕ) → points (w.players p).trade_partner p ≡ false
  pub fitting :
      (p : ℕ)
      → fits (w.players p).trade_state (w.players p).trade_partner (w.players p).trade_item ≡ true
  pub offered : (p i : ℕ) → points (w.players p).trade_item i ≡ points (lookup i w.trade_items) p
  pub balanced :
      (i : ℕ)
      → w.refs i ≡ count i w.to_release + (if is_some (lookup i w.trade_items) then 1 else 0)
  pub present : (p : ℕ) → is_some (w.players p).trade_partner ≡ true → (w.players p).present ≡ true
  pub near :
      (p q : ℕ)
      → points (w.players p).trade_partner q ≡ true
      → are_in_range three_squares (place q) (place p) ≡ true

abbrev pub Inv : World → Type 0
Inv w = InvAt (λ k. (w.players k).position) w

-- The trade of `p` and `q` has ended: both are idle, their items are out of the map and released,
-- once each, and nothing else has changed.
pub record Ended (w after : World) (p q : ℕ) : Type 0 where
  pub players :
      (k : ℕ) → after.players k ≡ (if k == p || k == q then idle (w.players k) else w.players k)
  pub traded :
      (i : ℕ)
      → lookup i after.trade_items ≡ (
          if points (w.players p).trade_item i || points (w.players q).trade_item i
          then none
          else lookup i w.trade_items)
  pub refs : (i : ℕ) → after.refs i ≡ w.refs i
  pub released :
      (i : ℕ)
      → count i after.to_release
        ≡ count i w.to_release
          + (if points (w.players p).trade_item i then 1 else 0)
          + (if points (w.players q).trade_item i then 1 else 0)

-- What the invariant reads is the same, but for the states, which still fit.
pub record Alike (w after : World) : Type 0 where
  pub partner : (k : ℕ) → (after.players k).trade_partner ≡ (w.players k).trade_partner
  pub item : (k : ℕ) → (after.players k).trade_item ≡ (w.players k).trade_item
  pub is_present : (k : ℕ) → (after.players k).present ≡ (w.players k).present
  pub table : after.trade_items ≡ w.trade_items
  pub same_refs : after.refs ≡ w.refs
  pub same_release : after.to_release ≡ w.to_release
  pub states :
      (k : ℕ)
      → fits
          (after.players k).trade_state
          (after.players k).trade_partner
          (after.players k).trade_item
        ≡ true

pub Alike-InvAt :
    (place : ℕ → Position) (w after : World) → InvAt place w → Alike w after → InvAt place after
Alike-InvAt place w after v a = record {
  both = λ p q. rw (a.partner p, a.partner q) (v.both p q);
  apart = λ p. rw (a.partner p) (v.apart p);
  fitting = a.states;
  offered = λ p i. rw (a.item p, a.table) (v.offered p i);
  balanced = λ i. rw (a.table, a.same_refs, a.same_release) (v.balanced i);
  present = λ p h. a.is_present p ∙ v.present p (ap is_some (sym (a.partner p)) ∙ h);
  near = λ p q h. v.near p q (ap (λ o. points o q) (sym (a.partner p)) ∙ h);
}

-- Only the places of those who trade matter.
pub InvAt-place :
    (here there : ℕ → Position) (w : World)
    → ((k : ℕ) → is_some (w.players k).trade_partner ≡ true → here k ≡ there k)
    → InvAt here w
    → InvAt there w
InvAt-place here there w same v = record {
  both = v.both;
  apart = v.apart;
  fitting = v.fitting;
  offered = v.offered;
  balanced = v.balanced;
  present = v.present;
  near = λ p q h.
      subst (λ x. are_in_range three_squares x (there p) ≡ true)
        (same q (ground (arith, v.both p q)))
        (subst (λ x. are_in_range three_squares (here q) x ≡ true) (same p (ground arith))
          (v.near p q h));
}

pub Alike-Inv :
    (w after : World)
    → ((k : ℕ) → (after.players k).position ≡ (w.players k).position)
    → Inv w
    → Alike w after
    → Inv after
Alike-Inv w after same v a =
    InvAt-place (λ k. (w.players k).position) (λ k. (after.players k).position) after
      (λ k h. sym (same k)) (Alike-InvAt (λ k. (w.players k).position) w after v a)

distance_comm : (a b : ℕ) → distance a b ≡ distance b a
distance_comm a b = ground arith

pub are_in_range_comm : (r a b : Position) → are_in_range r a b ≡ are_in_range r b a
unfolding are_in_range
are_in_range_comm r a b =
    rw (distance_comm a.x b.x, distance_comm a.y b.y, distance_comm a.z b.z) refl
