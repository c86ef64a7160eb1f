-- ===== src/Party/Safety.antt =====
-- The requests of the clients, and the invariant.
mod Local
mod Disband
pub mod Leave
mod Invites
mod Handlers
use darghos_tfs04_86_v.Base.{
  ℕ, ◌≡◌, ◌≢◌, refl, Bool, true, false, not, ◌&&◌, Option, none, some, List, [], ◌∷◌, mem, ◌==◌,
  arith, ==_iff,
}
use darghos_tfs04_86_v.Party.{Party, Env, World}
use darghos_tfs04_86_v.Party.Handlers.{
  player_invite_to_party, player_join_party, player_revoke_party_invitation,
  player_pass_party_leadership, player_leave_party, player_share_party_experience,
}
use darghos_tfs04_86_v.Party.Inv.{Inv, belongs, on_roster, is_invited}
use Handlers.{
  player_invite_to_party-Inv, player_join_party-Inv, player_revoke_party_invitation-Inv,
  player_pass_party_leadership-Inv, player_leave_party-Inv, player_share_party_experience-Inv,
}

-- The requests that the game dispatches to the party handlers.
pub data Request : Type 0 where
  invites joins revokes passes : ℕ → ℕ → Request
  leaves shares : ℕ → Bool → Request

pub handle : Env → World → Request → World
handle env w (invites p q) = (player_invite_to_party w p q).0
handle env w (joins p leader) = (player_join_party env w p leader).0
handle env w (revokes p q) = (player_revoke_party_invitation w p q).0
handle env w (passes p q) = (player_pass_party_leadership env w p q).0
handle env w (leaves p forced) = (player_leave_party env w p forced).0
handle env w (shares p activate) = (player_share_party_experience env w p activate).0

-- The clock, and with it the environment, may differ from request to request.
unfoldable pub run : World → List (Env × Request) → World
unfolding handle
run w [] = w
run w ((env, r) ∷ rs) = run (handle env w r) rs

-- No player invites themselves.
abbrev pub invites_other : Request → Bool
invites_other (invites p q) = not (q == p)
invites_other (joins p q) = true
invites_other (revokes p q) = true
invites_other (passes p q) = true
invites_other (leaves p forced) = true
invites_other (shares p activate) = true

-- If no request is a player's invitation to themselves, then every request keeps the invariant: the
-- stored parties and the pointers of the players agree.
handle-Inv :
    (env : Env) (w : World) (r : Request) → invites_other r ≡ true → Inv w → Inv (handle env w r)
unfolding handle
handle-Inv env w (invites p q) o v = player_invite_to_party-Inv w p q (ground arith) v
handle-Inv env w (joins p leader) o v = player_join_party-Inv env w p leader v
handle-Inv env w (revokes p q) o v = player_revoke_party_invitation-Inv w p q v
handle-Inv env w (passes p q) o v = player_pass_party_leadership-Inv env w p q v
handle-Inv env w (leaves p forced) o v = player_leave_party-Inv env w p forced v
handle-Inv env w (shares p activate) o v = player_share_party_experience-Inv env w p activate v

abbrev pub all_others : List (Env × Request) → Bool
all_others [] = true
all_others ((env, r) ∷ rs) = invites_other r && all_others rs

-- The invariant is kept by every sequence of requests without self-invitations: the stored parties
-- and the pointers of the players agree, the members and the leader of a party are in the game, and
-- nobody is both on the roster of a party and invited to it.
pub run-Inv :
    (w : World) (rs : List (Env × Request)) → all_others rs ≡ true → Inv w → Inv (run w rs)
unfolding run
run-Inv w [] o v = v
run-Inv w ((env, r) ∷ rs) o v =
    run-Inv (handle env w r) rs (ground arith) (handle-Inv env w r (ground arith) v)

-- After any requests but self-invitations, from a world where the invariant holds, no pointer of a
-- player, to the own party or to one that has sent an invitation, leads to a deleted party.
pub run_no_dangling :
    (w : World) (rs : List (Env × Request)) (p this : ℕ)
    → all_others rs ≡ true
    → Inv w
    → (run w rs).parties this ≡ none
    → (((run w rs).players p).party ≢ some this)
      × (mem this ((run w rs).players p).invitations ≡ false)
run_no_dangling w rs p this o v gone =
    let a = (run-Inv w rs o v).agrees this in
    (λ e. ground (arith, a.roster p, ==_iff this this), ground (arith, a.invited p))

-- After any requests but self-invitations, from a world where the invariant holds, a player who is on
-- the roster of one party is not on that of another.
pub run_one_party :
    (w : World) (rs : List (Env × Request)) (p this that : ℕ)
    → all_others rs ≡ true
    → Inv w
    → this ≢ that
    → on_roster ((run w rs).parties this) p ≡ true
    → on_roster ((run w rs).parties that) p ≡ false
run_one_party w rs p this that o v apart h =
    ground
      (arith, ((run-Inv w rs o v).agrees this).roster p, ((run-Inv w rs o v).agrees that).roster p)
