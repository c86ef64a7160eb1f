-- ===== src/Trade/Motion.antt =====
-- Players who move, leave and enter, and the invariant.
use darghos_tfs04_86_v.Base.{
  ℕ, ◌≡◌, refl, true, false, not, ◌&&◌, ◌||◌, none, ◌==◌, if◌then◌else◌, arith, ==_iff, Bool-cases,
  Option-cases, inl, inr, if_elim,
}
use darghos_tfs04_86_v.Position.{Position, are_in_range}
use darghos_tfs04_86_v.Trade.{World, points, set_player, is_transfer}
use darghos_tfs04_86_v.Trade.Requests.{three_squares}
use darghos_tfs04_86_v.Trade.Asking.{wider}
use darghos_tfs04_86_v.Trade.Accepting.{internal_close_trade}
use darghos_tfs04_86_v.Trade.Changes.{
  on_creature_move, on_creature_disappear, enter, item_away, partner_away,
}
use darghos_tfs04_86_v.Trade.Inv.{Inv, InvAt, InvAt-place, are_in_range_comm, Alike-InvAt}
use darghos_tfs04_86_v.Trade.Ending.{
  internal_close_trade-Inv, internal_close_trade-InvAt, internal_close_trade-position,
  internal_close_trade-partner,
}

abbrev moved : World → ℕ → Position → World
moved w p here = set_player p (record (w.players p) { position = here }) w

moved-InvAt :
    (w : World) (p : ℕ) (here : Position)
    → Inv w
    → InvAt (λ k. (w.players k).position) (moved w p here)
unfolding set_player
moved-InvAt w p here v =
    Alike-InvAt (λ k. (w.players k).position) w (moved w p here) v
      (record {
        partner = λ k. ground (arith, ==_iff k p);
        item = λ k. ground (arith, ==_iff k p);
        is_present = λ k. ground (arith, ==_iff k p);
        table = refl;
        same_refs = refl;
        same_release = refl;
        states = λ k. ground (arith, v.fitting k, ==_iff k p);
      })

moved-position :
    (w : World) (p : ℕ) (here : Position) (k : ℕ)
    → ((moved w p here).players k).position ≡ (if k == p then here else (w.players k).position)
unfolding set_player
moved-position w p here k = ground (arith, ==_iff k p)

-- Too far away: the trade is closed.
closed-Inv :
    (w : World) (p : ℕ) (here : Position) → Inv w → Inv (internal_close_trade (moved w p here) p)
closed-Inv w p here v =
    let v' = moved-InvAt w p here v in
    InvAt-place (λ k. (w.players k).position) _ (internal_close_trade (moved w p here) p)
      (λ k h. ground (
        arith,
        internal_close_trade-position (moved w p here) p v' k,
        moved-position w p here k,
        internal_close_trade-partner (moved w p here) p v',
        ==_iff k p,
      ))
      (internal_close_trade-InvAt (moved w p here) p v')

-- Still near: the trade goes on.
module _ (w : World) (p : ℕ) (here : Position) (v : Inv w)
    (near : partner_away (moved w p here).players here ((moved w p here).players p).trade_partner
      ≡ false) where
  still_near :
      (a b : ℕ)
      → points ((moved w p here).players a).trade_partner b ≡ true
      → are_in_range three_squares
          ((moved w p here).players b).position
          ((moved w p here).players a).position
        ≡ true
  unfolding set_player
  still_near a b h = ground (
    arith,
    near,
    v.near a b,
    v.both a b,
    v.apart p,
    ==_iff a p,
    ==_iff b p,
    are_in_range_comm three_squares here (w.players a).position,
    wider (w.players a).position here,
    wider (w.players b).position here,
  )

  near-Inv : Inv (moved w p here)
  near-Inv =
      let v' = moved-InvAt w p here v in
      record {
        both = v'.both;
        apart = v'.apart;
        fitting = v'.fitting;
        offered = v'.offered;
        balanced = v'.balanced;
        present = v'.present;
        near = still_near;
      }

pub on_creature_move-Inv :
    (w : World) (p : ℕ) (here : Position) (place : ℕ → Position)
    → Inv w
    → Inv (on_creature_move w p here place)
unfolding on_creature_move
on_creature_move-Inv w p here place v =
    let player = (moved w p here).players p in
    if_elim Inv
      (not (is_transfer player.trade_state)
        && (item_away place here player.trade_item
            || partner_away (moved w p here).players here player.trade_partner))
      _ _ (λ _. closed-Inv w p here v)
      (λ stay. near-Inv w p here v (ground (arith, stay, (moved-InvAt w p here v).fitting p)))

-- A player without a partner leaves the game.
gone-Inv :
    (w : World) (p : ℕ)
    → Inv w
    → (w.players p).trade_partner ≡ none
    → Inv (set_player p (record (w.players p) { present = false; removed = true }) w)
unfolding set_player
gone-Inv w p v e = record {
  both = λ a b. ground (arith, v.both a b, ==_iff a p, ==_iff b p);
  apart = λ a. ground (arith, v.apart a, ==_iff a p);
  fitting = λ a. ground (arith, v.fitting a, ==_iff a p);
  offered = λ a i. ground (arith, v.offered a i, ==_iff a p);
  balanced = v.balanced;
  present = λ a h. ground (arith, v.present a, e, ==_iff a p);
  near = λ a b h. ground (arith, v.near a b, ==_iff a p, ==_iff b p);
}

pub on_creature_disappear-Inv : (w : World) (p : ℕ) → Inv w → Inv (on_creature_disappear w p)
unfolding on_creature_disappear
on_creature_disappear-Inv w p v = elim (Option-cases (w.players p).trade_partner) [
  | inl alone ↦ rw (on_creature_disappear, alone) (gone-Inv w p v alone)
  | inr (q, e) ↦
      rw (on_creature_disappear, e)
        (gone-Inv (internal_close_trade w p) p (internal_close_trade-Inv w p v)
          (internal_close_trade-partner w p v))
]

-- A player under a new identifier, whom nobody trades with.
pub enter-Inv : (w : World) (p : ℕ) (here : Position) → Inv w → Inv (enter w p here)
unfolding enter set_player
enter-Inv w p here v = elim (Bool-cases (w.players p).present) [
  | inl taken ↦ rw (enter, taken) v
  | inr free ↦
      rw (enter, free)
        (record {
          both = λ a b. ground (
            arith,
            v.both a b,
            v.present p,
            free,
            ==_iff a p,
            ==_iff b p,
            v.both p b,
            v.both a p,
          );
          apart = λ a. ground (arith, v.apart a, ==_iff a p);
          fitting = λ a. ground (arith, v.fitting a, ==_iff a p);
          offered =
              λ a i. ground (arith, v.offered a i, v.fitting p, v.present p, free, ==_iff a p);
          balanced = v.balanced;
          present = λ a h. ground (arith, v.present a, ==_iff a p);
          near = λ a b h. ground (
            arith,
            v.near a b,
            v.both a b,
            v.both p a,
            v.present p,
            free,
            ==_iff a p,
            ==_iff b p,
          );
        })
]
