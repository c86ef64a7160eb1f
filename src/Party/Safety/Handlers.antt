-- ===== src/Party/Safety/Handlers.antt =====
-- The handlers, and the invariant.
use darghos_tfs04_86_v.Base.{
  ℕ, ◌≡◌, refl, Bool, false, not, ◌&&◌, ◌||◌, Option, none, some, ◌==◌, arith, Bool-cases,
  Option-cases, inl, inr, ◌⊎◌, ==_iff,
}
use darghos_tfs04_86_v.Party.{Party, Players, Env, World, new_party, set_party}
use darghos_tfs04_86_v.Party.Methods.{revoke_invitation}
use darghos_tfs04_86_v.Party.Handlers.{
  has_party, deref, store, same_party, is_inviting, invite_in, found_party, invite_by,
  player_invite_to_party, player_join_party, revoke_in, player_revoke_party_invitation, pass_in,
  player_pass_party_leadership, player_leave_party, player_share_party_experience,
}
use darghos_tfs04_86_v.Party.Inv.{on_roster, Agrees, Inv, Frame-refl, Kept, store-Inv}
use darghos_tfs04_86_v.Party.Safety.Local.{Agrees-SameRoster, pass-Agrees, set_shared-SameRoster}
use darghos_tfs04_86_v.Party.Safety.Leave.{leave-Kept}
use darghos_tfs04_86_v.Party.Safety.Invites.{join-Kept, remove_invite-Kept, invite_player-Kept}

-- A pointer that is followed leads to a stored party.
deref_cases :
    (w : World) (o : Option ℕ)
    → (deref w o ≡ none)
      ⊎ ((this : ℕ) × (party : Party) × (deref w o ≡ some (this, party))
          × (o ≡ some this)
          × (w.parties this ≡ some party))
deref_cases w none = inl refl
deref_cases w (some this) = elim (Option-cases (w.parties this)) [
  | inl gone ↦ inl (ground arith)
  | inr (party, here) ↦ inr (this, party, ground arith, refl, here)
]

put_back :
    (w : World) (this : ℕ) (party : Party) (after : Players) (left : Option Party)
    → Inv w
    → w.parties this ≡ some party
    → Kept this w.players after left
    → Inv (store w this after left)
put_back w this party after left v here k =
    store-Inv w this after left v (λ e. ground arith) k.frame k.agrees

Agrees-at :
    (w : World) (this : ℕ) (party : Party)
    → Inv w
    → w.parties this ≡ some party
    → Agrees this w.players (some party)
Agrees-at w this party v here = rw here at (v.agrees this)

no_party :
    (w : World) (p : ℕ) → Inv w → deref w (w.players p).party ≡ none → (w.players p).party ≡ none
no_party w p v e = elim (Option-cases (w.players p).party) [
  | inl alone ↦ alone
  | inr (this, mine) ↦ absurd (ground (arith, (v.agrees this).roster p, ==_iff this this))
]

off_roster :
    (w : World) (this : ℕ) (party : Party) (q : ℕ)
    → Inv w
    → w.parties this ≡ some party
    → has_party (w.players q) ≡ false
    → on_roster (some party) q ≡ false
off_roster w this party q v here alone = ground (arith, (Agrees-at w this party v here).roster q)

-- A member, a leader or a stranger may leave at any time.
pub player_leave_party-Inv :
    (env : Env) (w : World) (p : ℕ) (forced : Bool)
    → Inv w
    → Inv (player_leave_party env w p forced).0
unfolding player_leave_party
player_leave_party-Inv env w p forced v =
    elim (Bool-cases ((w.players p).removed || (w.players p).in_fight && not forced)) [
      | inl refused ↦ rw refused v
      | inr allowed ↦ elim (deref_cases w (w.players p).party) [
        | inl none_here ↦ rw (allowed, none_here) v
        | inr (this, party, e, mine, here) ↦
            rw (allowed, e)
              (put_back w this party _ _ v here (
                leave-Kept env this w.players party p (Agrees-at w this party v here)
                  v.invitations_distinct))
      ]
    ]

-- Joining keeps the invariant.
pub player_join_party-Inv :
    (env : Env) (w : World) (p leader : ℕ) → Inv w → Inv (player_join_party env w p leader).0
unfolding player_join_party
player_join_party-Inv env w p leader v =
    elim (Bool-cases
      ((w.players p).removed || (w.players leader).removed || not (is_inviting w leader p))) [
        | inl refused ↦ rw refused v
        | inr asked ↦ elim (Bool-cases (has_party (w.players p))) [
          | inl busy ↦ rw (asked, busy) v
          | inr alone ↦ elim (deref_cases w (w.players leader).party) [
            | inl none_here ↦ rw (asked, alone, none_here) v
            | inr (this, party, e, mine, here) ↦
                rw (asked, alone, e)
                  (put_back w this party _ _ v here (
                    join-Kept this w.players party p (Agrees-at w this party v here)
                      v.invitations_distinct env (ground arith) (ground arith)))
          ]
        ]
      ]

same_players :
    (w : World) (this : ℕ) (party : Option Party)
    → Inv w
    → Agrees this w.players party
    → Kept this w.players w.players party
same_players w this party v a = record {
  agrees = a;
  frame = Frame-refl this w.players v.invitations_distinct;
}

pass_in-Inv :
    (env : Env) (w : World) (p q this : ℕ) (party : Party)
    → Inv w
    → w.parties this ≡ some party
    → Inv (pass_in env w p q (some (this, party))).0
unfolding pass_in
pass_in-Inv env w p q this party v here =
    let stored = put_back w this party w.players _ v here (
      same_players w this _ v
        (pass-Agrees env this w.players party q (Agrees-at w this party v here))) in
    elim (Bool-cases (party.leader == p)) [
      | inl leads ↦
          elim (Bool-cases ((w.players q).removed || not (same_party (w.players q).party this))) [
            | inl refused ↦ rw (leads, refused) v
            | inr passes ↦ rw (leads, passes) stored
          ]
      | inr follows ↦ rw follows v
    ]

revoke_in-Inv :
    (w : World) (p q this : ℕ) (party : Party)
    → Inv w
    → w.parties this ≡ some party
    → Inv (revoke_in w p q (some (this, party))).0
unfolding revoke_in revoke_invitation
revoke_in-Inv w p q this party v here =
    let stored = put_back w this party _ _ v here (
      remove_invite-Kept this w.players party q (Agrees-at w this party v here)
        v.invitations_distinct) in
    elim (Bool-cases (party.leader == p)) [
      | inl leads ↦ elim (Bool-cases (w.players q).removed) [
        | inl gone ↦ rw (leads, gone) v
        | inr there ↦ elim (Bool-cases (is_inviting w p q)) [
          | inl invited ↦ rw (leads, there, invited) stored
          | inr stranger ↦ rw (leads, there, stranger) v
        ]
      ]
      | inr follows ↦ rw follows v
    ]

-- Passing the leadership keeps the invariant.
pub player_pass_party_leadership-Inv :
    (env : Env) (w : World) (p q : ℕ) → Inv w → Inv (player_pass_party_leadership env w p q).0
unfolding player_pass_party_leadership
player_pass_party_leadership-Inv env w p q v = elim (Bool-cases (w.players p).removed) [
  | inl gone ↦ rw gone v
  | inr there ↦ elim (deref_cases w (w.players p).party) [
    | inl none_here ↦ rw (there, none_here) v
    | inr (this, party, e, mine, here) ↦ rw (there, e) (pass_in-Inv env w p q this party v here)
  ]
]

-- Revoking an invitation keeps the invariant.
pub player_revoke_party_invitation-Inv :
    (w : World) (p q : ℕ) → Inv w → Inv (player_revoke_party_invitation w p q).0
unfolding player_revoke_party_invitation
player_revoke_party_invitation-Inv w p q v = elim (Bool-cases (w.players p).removed) [
  | inl gone ↦ rw gone v
  | inr there ↦ elim (deref_cases w (w.players p).party) [
    | inl none_here ↦ rw (there, none_here) v
    | inr (this, party, e, mine, here) ↦ rw (there, e) (revoke_in-Inv w p q this party v here)
  ]
]

-- Switching the shared experience keeps the invariant.
pub player_share_party_experience-Inv :
    (env : Env) (w : World) (p : ℕ) (activate : Bool)
    → Inv w
    → Inv (player_share_party_experience env w p activate).0
unfolding player_share_party_experience
player_share_party_experience-Inv env w p activate v =
    elim (Bool-cases
      ((w.players p).removed || not (w.players p).not_gain_in_fight && (w.players p).in_fight)) [
        | inl refused ↦ rw refused v
        | inr allowed ↦ elim (deref_cases w (w.players p).party) [
          | inl none_here ↦ rw (allowed, none_here) v
          | inr (this, party, e, mine, here) ↦
              rw (allowed, e)
                (put_back w this party w.players _ v here (
                  same_players w this _ v (
                    Agrees-SameRoster this w.players _ party
                      (set_shared-SameRoster env w.players party p activate)
                      (Agrees-at w this party v here))))
        ]
      ]

found_party-Inv :
    (w : World) (p : ℕ)
    → Inv w
    → (w.players p).party ≡ none
    → (w.players p).removed ≡ false
    → Inv (found_party w p)
unfolding found_party new_party set_party
found_party-Inv w p v alone here = record {
  agrees = λ k. record {
    roster = λ q. ground (
      arith,
      (v.agrees k).roster q,
      v.fresh w.next,
      ==_iff q p,
      ==_iff k w.next,
      ==_iff w.next k,
    );
    invited =
        λ q. ground (arith, (v.agrees k).invited q, v.fresh w.next, ==_iff q p, ==_iff k w.next);
    apart = λ q. ground (arith, (v.agrees k).apart q);
    shape = ground (arith, (v.agrees k).shape);
    present = λ q r. ground (arith, (v.agrees k).present q, ==_iff q p);
  };
  invitations_distinct = λ q. ground (arith, v.invitations_distinct q, v.invitations_distinct p);
  fresh = λ k h. ground (arith, v.fresh k, ==_iff k w.next);
}

invite_in-Inv :
    (w : World) (this : ℕ) (party : Party) (q : ℕ)
    → Inv w
    → w.parties this ≡ some party
    → on_roster (some party) q ≡ false
    → Inv (invite_in w this party q).0
unfolding invite_in
invite_in-Inv w this party q v here out = put_back w this party _ _ v here (
    invite_player-Kept this w.players party q (Agrees-at w this party v here) v.invitations_distinct
      out)

founded : (w : World) (p : ℕ) → (found_party w p).parties w.next ≡ some (new_party p)
unfolding found_party
founded w p = ground (arith, ==_iff w.next w.next)

founder_only : (p q : ℕ) → (q == p) ≡ false → on_roster (some (new_party p)) q ≡ false
unfolding new_party
founder_only p q other = ground arith

invite_own :
    (w : World) (p q this : ℕ) (party : Party)
    → Inv w
    → w.parties this ≡ some party
    → has_party (w.players q) ≡ false
    → Inv (invite_by w p q (some (this, party))).0
unfolding invite_by
invite_own w p q this party v here alone = elim (Bool-cases (party.leader == p)) [
  | inl leads ↦
      rw leads (invite_in-Inv w this party q v here (off_roster w this party q v here alone))
  | inr follows ↦ rw follows v
]

-- Inviting another player keeps the invariant, whether or not the party is new.
pub player_invite_to_party-Inv :
    (w : World) (p q : ℕ) → (q == p) ≡ false → Inv w → Inv (player_invite_to_party w p q).0
unfolding player_invite_to_party
player_invite_to_party-Inv w p q other v =
    elim (Bool-cases ((w.players p).removed || (w.players q).removed || is_inviting w q p)) [
      | inl refused ↦ rw refused v
      | inr asked ↦ elim (Bool-cases (has_party (w.players q))) [
        | inl busy ↦ rw (asked, busy) v
        | inr alone ↦ elim (deref_cases w (w.players p).party) [
          | inl none_here ↦
              rw (asked, alone, none_here)
                (invite_in-Inv (found_party w p) w.next (new_party p) q
                  (found_party-Inv w p v (no_party w p v none_here) (ground arith)) (founded w p)
                  (founder_only p q other))
          | inr (this, party, e, mine, here) ↦
              rw (asked, alone, e) (invite_own w p q this party v here alone)
        ]
      ]
    ]
