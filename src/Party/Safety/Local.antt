-- ===== src/Party/Safety/Local.antt =====
-- The methods of a party, and the pointers to it.
use darghos_tfs04_86_v.Base.{
  ℕ, ◌≡◌, ◌∙◌, Bool, true, false, not, ◌||◌, some, ◌∷◌, mem, ◌==◌, arith, Bool-cases, inl, inr,
  remove, mem-remove, distinct-remove, ==_iff,
}
use darghos_tfs04_86_v.Party.{Party, Players, Env, is_player_member}
use darghos_tfs04_86_v.Party.Shared.{
  update_shared_experience, set_shared_experience, clear_player_points,
}
use darghos_tfs04_86_v.Party.Methods.{pass_leadership}
use darghos_tfs04_86_v.Party.Inv.{Agrees}

-- The shared-experience flags and the points are beside the roster.
pub record SameRoster (a b : Party) : Type 0 where
  pub same_members : a.members ≡ b.members
  pub same_invites : a.invites ≡ b.invites
  pub same_leader : a.leader ≡ b.leader

pub SameRoster-trans : (a b c : Party) → SameRoster a b → SameRoster b c → SameRoster a c
SameRoster-trans a b c s t = record {
  same_members = s.same_members ∙ t.same_members;
  same_invites = s.same_invites ∙ t.same_invites;
  same_leader = s.same_leader ∙ t.same_leader;
}

pub update_shared-SameRoster :
    (env : Env) (players : Players) (party : Party)
    → SameRoster (update_shared_experience env players party) party
unfolding update_shared_experience
update_shared-SameRoster env players party = ground arith

pub set_shared-SameRoster :
    (env : Env) (players : Players) (party : Party) (p : ℕ) (active : Bool)
    → SameRoster (set_shared_experience env players party p active).0 party
unfolding set_shared_experience
set_shared-SameRoster env players party p active = ground arith

pub clear_points-SameRoster :
    (env : Env) (players : Players) (party : Party) (p : ℕ)
    → SameRoster (clear_player_points env players party p) party
unfolding clear_player_points update_shared_experience
clear_points-SameRoster env players party p = ground arith

pub Agrees-SameRoster :
    (this : ℕ) (players : Players) (a b : Party)
    → SameRoster a b
    → Agrees this players (some b)
    → Agrees this players (some a)
Agrees-SameRoster this players a b s h = record {
  roster = λ p. rw (s.same_members, s.same_leader) (h.roster p);
  invited = λ p. rw s.same_invites (h.invited p);
  apart = λ p. rw (s.same_members, s.same_leader, s.same_invites) (h.apart p);
  shape = rw (s.same_members, s.same_leader, s.same_invites) h.shape;
  present = λ p r. h.present p (rw (s.same_members, s.same_leader) at r);
}

passed_on :
    (this : ℕ) (players : Players) (party : Party) (p : ℕ)
    → mem p party.members ≡ true
    → Agrees this players (some party)
    → Agrees this players
        (some (record party { members = party.leader ∷ remove p party.members; leader = p }))
passed_on this players party p m h = record {
  roster = λ q. ground (arith, h.roster q, h.shape, mem-remove q p party.members, ==_iff q p);
  invited = h.invited;
  apart = λ q. ground (arith, h.apart q, h.shape, mem-remove q p party.members, ==_iff q p);
  shape = ground (
    arith,
    h.shape,
    mem-remove p p party.members,
    mem-remove party.leader p party.members,
    distinct-remove p party.members,
  );
  present =
      λ q r. h.present q (ground (arith, r, h.shape, mem-remove q p party.members, ==_iff q p));
}

-- `passLeadership` keeps the roster.
pub pass-Agrees :
    (env : Env) (this : ℕ) (players : Players) (party : Party) (p : ℕ)
    → Agrees this players (some party)
    → Agrees this players (some (pass_leadership env players party p).0)
unfolding pass_leadership is_player_member
pass-Agrees env this players party p h =
    elim (Bool-cases (not (is_player_member players party (some p) false) || p == party.leader)) [
      | inl no_change ↦ rw no_change h
      | inr passed ↦ rw passed (
          Agrees-SameRoster this players _
            (record party { members = party.leader ∷ remove p party.members; leader = p })
            (update_shared-SameRoster env players
              (record party { members = party.leader ∷ remove p party.members; leader = p }))
            (passed_on this players party p (ground arith) h))
    ]
