-- ===== src/Trade/Outcome.antt =====
-- What an accepted trade and a closed one come to.
use darghos_tfs04_86_v.Base.{ℕ, ◌≡◌, ◌⊎◌, Bool, true, false, some, ◌++◌}
use darghos_tfs04_86_v.Trade.{World, trade_accept, is_accept}
use darghos_tfs04_86_v.Trade.Accepting.{Answers, made, set_trade_state}
use darghos_tfs04_86_v.Trade.Inv.{Inv, Ended}
use darghos_tfs04_86_v.Trade.Transfer.{can_swap}

-- The two items, that of `p` and that of `q`, who accepted before, were to be moved to the other
-- player, both may be taken away and have room there, and the trade has ended.
pub record IsSwap (w : World) (a : Answers) (after : World) (p q i j : ℕ) : Type 0 where
  pub partner : (w.players p).trade_partner ≡ some q
  pub item : (w.players p).trade_item ≡ some i
  pub counter_item : (w.players q).trade_item ≡ some j
  pub admitted : can_swap a (some i) (some j) ≡ true
  pub accepted : is_accept (w.players q).trade_state ≡ true
  pub moves :
      after.moves ≡ w.moves ++ (made a.moves_to_partner (i, q) ++ made a.moves_to_player (j, p))
  pub ended : Ended w after p q

-- Both items are to be moved, or none is.
abbrev pub IsSettled : World → Answers → ℕ → World × Bool → Type 0
IsSettled w a p r =
    ((r.1 ≡ true) × ((q : ℕ) × (i : ℕ) × (j : ℕ) × IsSwap w a r.0 p q i j))
    ⊎ ((r.1 ≡ false) × (r.0.moves ≡ w.moves))

module _ (w : World) (a : Answers) (p q : ℕ) (v : Inv w)
    (e : (w.players p).trade_partner ≡ some q) where
  -- The world in which the player has accepted.
  ready : World
  ready = set_trade_state p trade_accept w
