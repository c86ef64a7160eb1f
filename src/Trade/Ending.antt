-- ===== src/Trade/Ending.antt =====
-- A trade that has ended leaves the invariant, and closing a trade ends it.
use darghos_tfs04_86_v.Base.{
  ℕ, ◌+◌, ◌≡◌, true, false, none, some, if◌then◌else◌, arith, Option-cases, inl, inr, ==_iff, subst,
  sym, ◌∙◌,
}
use darghos_tfs04_86_v.Position.{Position, are_in_range}
use darghos_tfs04_86_v.Trade.Items.{lookup, count}
use darghos_tfs04_86_v.Trade.{World, points, idle, forget_item, set_player}
use darghos_tfs04_86_v.Trade.Requests.{three_squares}
use darghos_tfs04_86_v.Trade.Accepting.{cancel_side, internal_close_trade}
use darghos_tfs04_86_v.Trade.Inv.{Inv, InvAt, InvAt-place, Ended, fits, is_some, Alike, Alike-InvAt}
use darghos_tfs04_86_v.Trade.Forgetting.{
  IsListed, Forgotten, IsListed-Forgotten, offer-IsListed, offers_apart, cancel_side-players,
  cancel_side-Forgotten, cancel_side-refs,
}

module _ (w after : World) (p q : ℕ) {place : ℕ → Position} (v : InvAt place w)
    (e : Ended w after p q) (partners : (w.players p).trade_partner ≡ some q) where
  Ended-both :
      (a b : ℕ)
      → points (after.players a).trade_partner b ≡ points (after.players b).trade_partner a
  unfolding idle
  Ended-both a b = ground (
    arith,
    e.players a,
    e.players b,
    v.both a b,
    v.both p b,
    v.both q b,
    v.both p a,
    v.both q a,
    v.both p q,
  )

  Ended-apart : (a : ℕ) → points (after.players a).trade_partner a ≡ false
  unfolding idle
  Ended-apart a = ground (arith, e.players a, v.apart a)

  Ended-fitting :
      (a : ℕ)
      → fits
          (after.players a).trade_state
          (after.players a).trade_partner
          (after.players a).trade_item
        ≡ true
  unfolding idle
  Ended-fitting a = ground (arith, e.players a, v.fitting a)

  Ended-offered :
      (a i : ℕ) → points (after.players a).trade_item i ≡ points (lookup i after.trade_items) a
  unfolding idle
  Ended-offered a i =
      ground (arith, e.players a, e.traded i, v.offered a i, v.offered p i, v.offered q i)

  Ended-balanced :
      (i : ℕ)
      → after.refs i
        ≡ count i after.to_release + (if is_some (lookup i after.trade_items) then 1 else 0)
  Ended-balanced i = ground (
    arith,
    e.refs i,
    e.traded i,
    e.released i,
    v.balanced i,
    v.offered p i,
    v.offered q i,
    v.both p q,
    v.apart p,
  )

  Ended-present :
      (a : ℕ) → is_some (after.players a).trade_partner ≡ true → (after.players a).present ≡ true
  unfolding idle
  Ended-present a h = ground (arith, e.players a, v.present a)

  Ended-near :
      (a b : ℕ)
      → points (after.players a).trade_partner b ≡ true
      → are_in_range three_squares (place b) (place a) ≡ true
  unfolding idle
  Ended-near a b h = ground (arith, e.players a, v.near a b)

  pub Ended-InvAt : InvAt place after
  Ended-InvAt = record {
    both = Ended-both;
    apart = Ended-apart;
    fitting = Ended-fitting;
    offered = Ended-offered;
    balanced = Ended-balanced;
    present = Ended-present;
    near = Ended-near;
  }

-- The partner's side after the player's.
module _ (w : World) (p q : ℕ) {place : ℕ → Position} (v : InvAt place w)
    (e : (w.players p).trade_partner ≡ some q) where
  partner_kept : ((cancel_side w p).players q).trade_item ≡ (w.players q).trade_item
  partner_kept = ground (arith, cancel_side-players w p q, v.apart p, ==_iff q p)

  second_side :
      Forgotten (cancel_side w p) (cancel_side (cancel_side w p) q) (w.players q).trade_item
  second_side =
      subst (Forgotten (cancel_side w p) (cancel_side (cancel_side w p) q)) partner_kept
        (cancel_side-Forgotten (cancel_side w p) q listed)
    where
      listed : IsListed (cancel_side w p) ((cancel_side w p).players q).trade_item
      listed = rw partner_kept (
          IsListed-Forgotten w (cancel_side w p) (w.players p).trade_item (w.players q).trade_item
            (cancel_side-Forgotten w p (offer-IsListed w p v)) (offer-IsListed w q v)
            (λ i. offers_apart w p q i v e))

  cancelled-Ended : Ended w (cancel_side (cancel_side w p) q) p q
  cancelled-Ended = record {
    players = λ k. ground (
      arith,
      cancel_side-players w p k,
      cancel_side-players (cancel_side w p) q k,
      v.apart p,
      ==_iff q p,
    );
    traded = λ i. ground (arith, first.traded i, second_side.traded i);
    refs = λ i. ground (arith, cancel_side-refs w p, cancel_side-refs (cancel_side w p) q);
    released = λ i. omega (arith, first.released i, second_side.released i);
  }
    where
      first : Forgotten w (cancel_side w p) (w.players p).trade_item
      first = cancel_side-Forgotten w p (offer-IsListed w p v)

  -- A request to close the trade ends it.
  pub internal_close_trade-Ended : Ended w (internal_close_trade w p) p q
  unfolding internal_close_trade
  internal_close_trade-Ended =
      rw (internal_close_trade, e) (ground (arith, cancelled-Ended, v.fitting p, v.fitting q))

-- Without a partner there is nothing to cancel.
internal_close_trade-Alike :
    {place : ℕ → Position} (w : World) (p : ℕ)
    → InvAt place w
    → (w.players p).trade_partner ≡ none
    → Alike w (internal_close_trade w p)
unfolding internal_close_trade set_player idle cancel_side forget_item
internal_close_trade-Alike w p v e = record {
  partner = λ k. ground (arith, e, ==_iff k p);
  item = λ k. ground (arith, e, v.fitting p, ==_iff k p);
  is_present = λ k. ground (arith, e, ==_iff k p);
  table = ground (arith, e, v.fitting p);
  same_refs = ground (arith, e, v.fitting p);
  same_release = ground (arith, e, v.fitting p);
  states = λ k. ground (arith, e, v.fitting p, v.fitting k, ==_iff k p);
}

pub internal_close_trade-InvAt :
    {place : ℕ → Position} (w : World) (p : ℕ)
    → InvAt place w
    → InvAt place (internal_close_trade w p)
internal_close_trade-InvAt {place} w p v = elim (Option-cases (w.players p).trade_partner) [
  | inl alone ↦ Alike-InvAt place w _ v (internal_close_trade-Alike w p v alone)
  | inr (q, e) ↦ Ended-InvAt w _ p q v (internal_close_trade-Ended w p q v e) e
]

-- Closing a trade moves nobody, and leaves the player without a partner.
pub internal_close_trade-position :
    {place : ℕ → Position} (w : World) (p : ℕ)
    → InvAt place w
    → (k : ℕ) → ((internal_close_trade w p).players k).position ≡ (w.players k).position
unfolding idle internal_close_trade cancel_side set_player forget_item
internal_close_trade-position w p v k = elim (Option-cases (w.players p).trade_partner) [
  | inl alone ↦ ground (arith, alone, ==_iff k p)
  | inr (q, e) ↦ ground (arith, (internal_close_trade-Ended w p q v e).players k)
]

pub internal_close_trade-partner :
    {place : ℕ → Position} (w : World) (p : ℕ)
    → InvAt place w
    → ((internal_close_trade w p).players p).trade_partner ≡ none
unfolding idle
internal_close_trade-partner w p v = elim (Option-cases (w.players p).trade_partner) [
  | inl alone ↦ (internal_close_trade-Alike w p v alone).partner p ∙ alone
  | inr (q, e) ↦ ground (arith, (internal_close_trade-Ended w p q v e).players p, ==_iff p p)
]

pub internal_close_trade-Inv : (w : World) (p : ℕ) → Inv w → Inv (internal_close_trade w p)
internal_close_trade-Inv w p v =
    InvAt-place (λ k. (w.players k).position) _ (internal_close_trade w p)
      (λ k h. sym (internal_close_trade-position w p v k)) (internal_close_trade-InvAt w p v)

pub Ended-Inv :
    (w after : World) (p q : ℕ)
    → Inv w
    → Ended w after p q
    → (w.players p).trade_partner ≡ some q
    → Inv after
unfolding idle
Ended-Inv w after p q v e h =
    InvAt-place (λ k. (w.players k).position) _ after (λ k _. ground (arith, e.players k))
      (Ended-InvAt w after p q v e h)
