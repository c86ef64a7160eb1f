-- ===== src/Party/Safety/Invites.antt =====
-- The methods about invitations, and `join`.
use darghos_tfs04_86_v.Base.{
  ℕ, ◌≡◌, true, false, not, ◌||◌, none, some, [], ◌∷◌, ◌++◌, mem, distinct, update, arith,
  Bool-cases, inl, inr, remove, mem-remove, distinct-remove, mem-append, distinct-push, ==_iff,
}
use darghos_tfs04_86_v.Party.{
  Party, Players, Env, is_player_member, is_player_invited, set_party, add_party_invitation,
  remove_party_invitation, can_disband,
}
use darghos_tfs04_86_v.Party.Methods.{disband, join, remove_invite, invite_player}
use darghos_tfs04_86_v.Party.Inv.{on_roster, Agrees, Frame-refl, Kept, Kept-trans}
use darghos_tfs04_86_v.Party.Safety.Local.{update_shared-SameRoster, Agrees-SameRoster}
use darghos_tfs04_86_v.Party.Safety.Disband.{Covers, disband-Kept}

Agrees-Covers :
    (this : ℕ) (players : Players) (party : Party)
    → Agrees this players (some party)
    → ((q : ℕ) → distinct (players q).invitations ≡ true)
    → Covers this players party
Agrees-Covers this players party h d = record {
  outside = λ q e. ground (arith, h.roster q);
  only_here = λ q k e r. ground (arith, h.roster q, ==_iff k this);
  invited = h.invited;
  members_distinct = ground (arith, h.shape);
  invites_distinct = ground (arith, h.shape);
  invitations_distinct = d;
}

disbanded :
    (this : ℕ) (players after : Players) (party : Party)
    → Kept this players after (some party)
    → Kept this players (disband after this party) none
disbanded this players after party k =
    Kept-trans this players after _ none k.frame (
      disband-Kept after this party (Agrees-Covers this after party k.agrees k.frame.distinct_kept))

module _ (this : ℕ) (players : Players) (party : Party) (p : ℕ)
    (h : Agrees this players (some party))
    (d : (q : ℕ) → distinct (players q).invitations ≡ true) where
  uninvited_Kept :
      Kept this players
        (update players p (remove_party_invitation this (players p)))
        (some (record party { invites = remove p party.invites }))
  unfolding remove_party_invitation
  uninvited_Kept = record {
    agrees = record {
      roster = λ q. ground (arith, h.roster q, ==_iff q p);
      invited = λ q. ground (
        arith,
        h.invited q,
        h.shape,
        mem-remove q p party.invites,
        mem-remove this this (players p).invitations (d p),
        ==_iff q p,
        ==_iff this this,
      );
      apart = λ q. ground (arith, h.apart q, h.shape, mem-remove q p party.invites);
      shape = ground (arith, h.shape, distinct-remove p party.invites);
      present = λ q r. ground (arith, h.present q, ==_iff q p);
    };
    frame = record {
      party_kept = λ q k e. ground (arith, ==_iff q p);
      invitations_kept =
          λ q k e. ground (arith, mem-remove k this (players p).invitations (d p), ==_iff q p);
      distinct_kept = λ q. ground (arith, d q, d p, distinct-remove this (players p).invitations);
      removed_kept = λ q. ground (arith, ==_iff q p);
    };
  }

  joined_Kept :
      (players p).removed ≡ false
      → (players p).party ≡ none
      → mem p party.invites ≡ true
      → Kept this players
          (update players p (remove_party_invitation this (set_party (some this) (players p))))
          (some
            (record party { members = party.members ++ p ∷ []; invites = remove p party.invites }))
  unfolding remove_party_invitation set_party
  joined_Kept here alone invited = record {
    agrees = record {
      roster = λ q.
          ground
            (arith, h.roster q, mem-append q party.members (p ∷ []), ==_iff q p, ==_iff this this);
      invited = λ q. ground (
        arith,
        h.invited q,
        h.shape,
        mem-remove q p party.invites,
        mem-remove this this (players p).invitations (d p),
        ==_iff q p,
        ==_iff this this,
      );
      apart = λ q. ground (
        arith,
        h.apart q,
        h.shape,
        mem-remove q p party.invites,
        mem-append q party.members (p ∷ []),
      );
      shape = ground (
        arith,
        h.shape,
        h.apart p,
        mem-append party.leader party.members (p ∷ []),
        ==_iff party.leader p,
        distinct-push p party.members,
        distinct-remove p party.invites,
      );
      present = λ q r. ground (arith, h.present q, mem-append q party.members (p ∷ []), ==_iff q p);
    };
    frame = record {
      party_kept = λ q k e. ground (arith, ==_iff q p, ==_iff k this, ==_iff this k);
      invitations_kept =
          λ q k e. ground (arith, mem-remove k this (players p).invitations (d p), ==_iff q p);
      distinct_kept = λ q. ground (arith, d q, d p, distinct-remove this (players p).invitations);
      removed_kept = λ q. ground (arith, ==_iff q p);
    };
  }

  invited_Kept :
      on_roster (some party) p ≡ false
      → mem p party.invites ≡ false
      → Kept this players
          (update players p (add_party_invitation this (players p)))
          (some (record party { invites = party.invites ++ p ∷ [] }))
  unfolding add_party_invitation
  invited_Kept out new = record {
    agrees = record {
      roster = λ q. ground (arith, h.roster q, ==_iff q p);
      invited = λ q. ground (
        arith,
        h.invited q,
        mem-append q party.invites (p ∷ []),
        mem-append this (players p).invitations (this ∷ []),
        ==_iff q p,
        ==_iff this this,
      );
      apart = λ q. ground (arith, h.apart q, mem-append q party.invites (p ∷ []), ==_iff q p);
      shape = ground (arith, h.shape, distinct-push p party.invites);
      present = λ q r. ground (arith, h.present q, ==_iff q p);
    };
    frame = record {
      party_kept = λ q k e. ground (arith, ==_iff q p);
      invitations_kept =
          λ q k e. ground (arith, mem-append k (players p).invitations (this ∷ []), ==_iff q p);
      distinct_kept =
          λ q. ground (arith, d q, d p, h.invited p, distinct-push this (players p).invitations);
      removed_kept = λ q. ground (arith, ==_iff q p);
    };
  }

  unchanged : Kept this players players (some party)
  unchanged = record { agrees = h; frame = Frame-refl this players d }

  -- `join` keeps its duty for a player who is in no party.
  pub join-Kept :
      (env : Env)
      → (players p).removed ≡ false
      → (players p).party ≡ none
      → Kept this players (join env players this party p).0 (some (join env players this party p).1)
  unfolding join is_player_member is_player_invited
  join-Kept env here alone =
      elim (Bool-cases (
        is_player_member players party (some p) false
        || not (is_player_invited players party (some p) false))) [
          | inl refused ↦ rw refused unchanged
          | inr joins ↦
              let k = joined_Kept here alone (ground arith) in
              rw joins (record {
                agrees = Agrees-SameRoster this _ _ _ (update_shared-SameRoster env _ _) k.agrees;
                frame = k.frame;
              })
        ]

  -- `removeInvite` takes the invitation away on both sides, and disbands a party left empty.
  pub remove_invite-Kept :
      Kept this players
        (remove_invite players this party p).0
        (remove_invite players this party p).1
  unfolding remove_invite
  remove_invite-Kept = elim (Bool-cases (not (is_player_invited players party (some p) false))) [
    | inl refused ↦ rw refused unchanged
    | inr removes ↦
        elim (Bool-cases (can_disband (record party { invites = remove p party.invites }))) [
          | inl empty ↦ rw (removes, empty) (disbanded this players _ _ uninvited_Kept)
          | inr left ↦ rw (removes, left) uninvited_Kept
        ]
  ]

  -- `invitePlayer` adds the invitation on both sides, of a player who is not on the roster.
  pub invite_player-Kept :
      on_roster (some party) p ≡ false
      → Kept this players
          (invite_player players this party p).0
          (some (invite_player players this party p).1)
  unfolding invite_player is_player_invited
  invite_player-Kept out = elim (Bool-cases (is_player_invited players party (some p) true)) [
    | inl refused ↦ rw refused unchanged
    | inr invites ↦ rw invites (invited_Kept out (ground arith))
  ]
