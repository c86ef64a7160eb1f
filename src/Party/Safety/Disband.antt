-- ===== src/Party/Safety/Disband.antt =====
-- `disband`, and the pointers to the deleted party.
use darghos_tfs04_86_v.Base.{
  ℕ, ◌≡◌, refl, true, false, none, some, mem, distinct, update, for_each, for_each_lem, ◌==◌,
  if◌then◌else◌, arith, remove, mem-remove, distinct-remove, ==_iff,
}
use darghos_tfs04_86_v.Party.{Party, Players, set_party, remove_party_invitation}
use darghos_tfs04_86_v.Party.Methods.{disband}
use darghos_tfs04_86_v.Party.Safety.Local.{SameRoster}
use darghos_tfs04_86_v.Party.Inv.{belongs, on_roster, Kept}

-- What `disband` needs: the roster covers every pointer to the party.
pub record Covers (this : ℕ) (players : Players) (party : Party) : Type 0 where
  pub outside : (q : ℕ) → on_roster (some party) q ≡ false → belongs this (players q).party ≡ false
  pub only_here :
      (q k : ℕ)
      → (k == this) ≡ false
      → on_roster (some party) q ≡ true
      → belongs k (players q).party ≡ false
  pub invited : (q : ℕ) → mem q party.invites ≡ mem this (players q).invitations
  pub members_distinct : distinct party.members ≡ true
  pub invites_distinct : distinct party.invites ≡ true
  pub invitations_distinct : (q : ℕ) → distinct (players q).invitations ≡ true

pub Covers-SameRoster :
    (this : ℕ) (players : Players) (a b : Party)
    → SameRoster a b
    → Covers this players b
    → Covers this players a
Covers-SameRoster this players a b s c = record {
  outside = λ q e. c.outside q (rw (s.same_members, s.same_leader) at e);
  only_here = λ q k e r. c.only_here q k e (rw (s.same_members, s.same_leader) at r);
  invited = λ q. rw s.same_invites (c.invited q);
  members_distinct = rw s.same_members c.members_distinct;
  invites_distinct = rw s.same_invites c.invites_distinct;
  invitations_distinct = c.invitations_distinct;
}

disband_lem :
    (players : Players) (this : ℕ) (party : Party) (q : ℕ)
    → distinct party.members ≡ true
    → distinct party.invites ≡ true
    → disband players this party q ≡ record (players q) {
      party = if on_roster (some party) q then none else (players q).party;
      invitations =
          if mem q party.invites
          then remove this (players q).invitations
          else (players q).invitations;
    }
unfolding disband set_party remove_party_invitation
disband_lem players this party q dm di =
    let released = update players party.leader (set_party none (players party.leader)) in
    let called = for_each (remove_party_invitation this) party.invites released in
    ground (
      arith,
      for_each_lem (set_party none) party.members called q dm,
      for_each_lem (remove_party_invitation this) party.invites released q di,
      ==_iff q party.leader,
    )

-- A party that disbands itself is pointed to by nobody.
pub disband-Kept :
    (players : Players) (this : ℕ) (party : Party)
    → Covers this players party
    → Kept this players (disband players this party) none
disband-Kept players this party c = record {
  agrees = record {
    roster = λ q. ground (
      arith,
      disband_lem players this party q c.members_distinct c.invites_distinct,
      c.outside q,
    );
    invited = λ q. ground (
      arith,
      disband_lem players this party q c.members_distinct c.invites_distinct,
      c.invited q,
      mem-remove this this (players q).invitations (c.invitations_distinct q),
      ==_iff this this,
    );
    apart = λ q. refl;
    shape = refl;
    present = λ q r. cc;
  };
  frame = record {
    party_kept = λ q k h. ground (
      arith,
      disband_lem players this party q c.members_distinct c.invites_distinct,
      c.only_here q k h,
    );
    invitations_kept = λ q k h. ground (
      arith,
      disband_lem players this party q c.members_distinct c.invites_distinct,
      mem-remove k this (players q).invitations (c.invitations_distinct q),
    );
    distinct_kept = λ q. ground (
      arith,
      disband_lem players this party q c.members_distinct c.invites_distinct,
      c.invitations_distinct q,
      distinct-remove this (players q).invitations,
    );
    removed_kept =
        λ q. ground (arith, disband_lem players this party q c.members_distinct c.invites_distinct);
  };
}
