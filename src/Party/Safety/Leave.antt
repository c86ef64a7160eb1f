-- ===== src/Party/Safety/Leave.antt =====
-- `leave`: a member is dropped, a leader hands over or the party is disbanded.
use darghos_tfs04_86_v.Base.{
  ℕ, ◌≡◌, refl, sym, ◌∙◌, ◌⊎◌, Bool, true, false, not, ◌&&◌, ◌||◌, none, some, List, [], ◌∷◌, mem,
  distinct, update, ◌==◌, if◌then◌else◌, is_empty, arith, Bool-cases, inl, inr, remove, mem-remove,
  distinct-remove, ==_iff,
}
use darghos_tfs04_86_v.Party.{Party, Players, Env, is_player_member, set_party, can_disband}
use darghos_tfs04_86_v.Party.Shared.{update_shared_experience, clear_player_points}
use darghos_tfs04_86_v.Party.Methods.{pass_leadership, leader_leaves, drop_player, leave}
use darghos_tfs04_86_v.Party.Inv.{on_roster, Agrees, Frame, Frame-refl, Kept, Kept-trans}
use darghos_tfs04_86_v.Party.Safety.Local.{
  update_shared-SameRoster, clear_points-SameRoster, SameRoster-trans, Agrees-SameRoster,
  pass-Agrees,
}
use darghos_tfs04_86_v.Party.Safety.Disband.{Covers, Covers-SameRoster, disband-Kept}

abbrev dropped : Party → ℕ → Party
dropped party p = record party {
  members = remove p party.members;
  invites = remove p party.invites;
}

abbrev released : Players → ℕ → Players
released players p = update players p (set_party none (players p))

module _ (this : ℕ) (players : Players) (party : Party) (p : ℕ)
    (h : Agrees this players (some party)) (d : (q : ℕ) → distinct (players q).invitations ≡ true)
    (own : on_roster (some party) p ≡ true) where
  released-Frame : Frame this players (released players p)
  unfolding set_party
  released-Frame = record {
    party_kept = λ q k e. ground (arith, h.roster p, own, ==_iff q p);
    invitations_kept = λ q k e. ground (arith, ==_iff q p);
    distinct_kept = λ q. ground (arith, d q, d p);
    removed_kept = λ q. ground (arith, ==_iff q p);
  }

  dropped-Agrees :
      (party.leader == p) ≡ false → Agrees this (released players p) (some (dropped party p))
  unfolding set_party
  dropped-Agrees other = record {
    roster = λ q. ground (arith, h.roster q, h.shape, mem-remove q p party.members, ==_iff q p);
    invited = λ q. ground (
      arith,
      h.invited q,
      h.invited p,
      h.apart p,
      own,
      h.shape,
      mem-remove q p party.invites,
      ==_iff q p,
    );
    apart = λ q.
        ground
          (arith, h.apart q, h.shape, mem-remove q p party.members, mem-remove q p party.invites);
    shape = ground (
      arith,
      h.shape,
      mem-remove party.leader p party.members,
      distinct-remove p party.members,
      distinct-remove p party.invites,
    );
    present =
        λ q r. ground (arith, h.present q, h.present p, own, h.shape, mem-remove q p party.members);
  }

  dropped-Covers : Covers this (released players p) (dropped party p)
  unfolding set_party
  dropped-Covers = record {
    outside = λ q e. ground (arith, h.roster q, h.shape, mem-remove q p party.members, ==_iff q p);
    only_here =
        λ q k e r. ground (arith, h.roster q, h.shape, mem-remove q p party.members, ==_iff q p);
    invited = λ q. ground (
      arith,
      h.invited q,
      h.invited p,
      h.apart p,
      own,
      h.shape,
      mem-remove q p party.invites,
      ==_iff q p,
    );
    members_distinct = ground (arith, h.shape, distinct-remove p party.members);
    invites_distinct = ground (arith, h.shape, distinct-remove p party.invites);
    invitations_distinct = λ q. ground (arith, d q, d p);
  }

-- The rest of `leave`, from a party that agrees with the pointers, after the leader handed over.
drop-Kept :
    (env : Env) (this : ℕ) (players : Players) (party : Party) (p : ℕ) (missing_leader : Bool)
    → Agrees this players (some party)
    → ((q : ℕ) → distinct (players q).invitations ≡ true)
    → on_roster (some party) p ≡ true
    → ((missing_leader ≡ true) ⊎ ((party.leader == p) ≡ false))
    → Kept this players
        (drop_player env players this p (party, missing_leader)).0
        (drop_player env players this p (party, missing_leader)).1
unfolding drop_player
drop-Kept env this players party p missing_leader h d own ready =
    let shared = update_shared_experience env (released players p) (dropped party p) in
    let cleared = clear_player_points env (released players p) shared p in
    let same =
      SameRoster-trans cleared shared (dropped party p)
        (clear_points-SameRoster env (released players p) shared p)
        (update_shared-SameRoster env (released players p) (dropped party p)) in
    elim (Bool-cases (missing_leader || can_disband cleared)) [
      | inl gone ↦ rw gone (
          Kept-trans this players (released players p) _ none
            (released-Frame this players party p h d own)
            (disband-Kept (released players p) this cleared (
              Covers-SameRoster this (released players p) cleared (dropped party p) same
                (dropped-Covers this players party p h d own))))
      | inr stays ↦ rw stays (record {
        agrees =
            Agrees-SameRoster this (released players p) cleared (dropped party p) same
              (dropped-Agrees this players party p h d own (ground arith));
        frame = released-Frame this players party p h d own;
      })
    ]

passed_leader :
    (env : Env) (players : Players) (party : Party) (m : ℕ)
    → (players m).removed ≡ false
    → mem m party.members ≡ true
    → (m == party.leader) ≡ false
    → (pass_leadership env players party m).0.leader ≡ m
unfolding pass_leadership is_player_member
passed_leader env players party m here member other =
    rw (here, member, other)
      (update_shared-SameRoster env players
        (record party { members = party.leader ∷ remove m party.members; leader = m })).same_leader

-- What `drop_player` needs of the leader's part of `leave`.
abbrev Ready : ℕ → Players → ℕ → Party × Bool → Type 0
Ready this players p (party, missing_leader) =
    Agrees this players (some party)
    × (on_roster (some party) p ≡ true)
    × ((missing_leader ≡ true) ⊎ ((party.leader == p) ≡ false))

leader_leaves-Ready :
    (env : Env) (this : ℕ) (players : Players) (party : Party) (p : ℕ) (ms : List ℕ)
    → party.members ≡ ms
    → (party.leader == p) ≡ true
    → Agrees this players (some party)
    → Ready this players p (leader_leaves env players party ms)
unfolding leader_leaves
leader_leaves-Ready env this players party p [] e l h = (h, ground arith, inl refl)
leader_leaves-Ready env this players party p (m ∷ ms) e l h =
    elim (Bool-cases (is_empty ms && is_empty party.invites)) [
      | inl alone ↦ rw alone (h, ground arith, inl refl)
      | inr others ↦
          let passed = (pass_leadership env players party m).0 in
          let kept : Agrees this players (some passed) = pass-Agrees env this players party m h in
          let leads : passed.leader ≡ m =
            passed_leader env players party m (h.present m (ground arith)) (ground arith)
              (ground (arith, h.shape)) in
          rw others (
            kept,
            kept.roster p ∙ sym (h.roster p) ∙ ground arith,
            inr (ground (arith, leads, h.shape)),
          )
    ]

leave-Ready :
    (env : Env) (this : ℕ) (players : Players) (party : Party) (p : ℕ) (r : Party × Bool)
    → Ready this players p r
    → ((q : ℕ) → distinct (players q).invitations ≡ true)
    → Kept this players (drop_player env players this p r).0 (drop_player env players this p r).1
leave-Ready env this players party p (left, missing_leader) (h, own, ready) d =
    drop-Kept env this players left p missing_leader h d own ready

left-Kept :
    (env : Env) (this : ℕ) (players : Players) (party : Party) (p : ℕ)
    → Agrees this players (some party)
    → ((q : ℕ) → distinct (players q).invitations ≡ true)
    → on_roster (some party) p ≡ true
    → (r : Party × Bool)
    → r ≡ (
        if party.leader == p then leader_leaves env players party party.members else (party, false))
    → Kept this players (drop_player env players this p r).0 (drop_player env players this p r).1
left-Kept env this players party p h d own r e = elim (Bool-cases (party.leader == p)) [
  | inl leads ↦
      leave-Ready env this players party p r
        (rw (e, leads) (leader_leaves-Ready env this players party p party.members refl leads h)) d
  | inr follows ↦ leave-Ready env this players party p r (rw (e, follows) (h, own, inr follows)) d
]

-- `leave` keeps its frame and the agreement, whether or not the player is on the roster.
pub leave-Kept :
    (env : Env) (this : ℕ) (players : Players) (party : Party) (p : ℕ)
    → Agrees this players (some party)
    → ((q : ℕ) → distinct (players q).invitations ≡ true)
    → Kept this players (leave env players this party p).0 (leave env players this party p).1
unfolding leave is_player_member
leave-Kept env this players party p h d =
    elim (Bool-cases
      (not (is_player_member players party (some p) false) && not (p == party.leader))) [
        | inl stranger ↦ rw stranger (record { agrees = h; frame = Frame-refl this players d })
        | inr own ↦ rw own (left-Kept env this players party p h d (ground arith) _ refl)
      ]
