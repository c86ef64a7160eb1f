-- ===== src/Party/Inv.antt =====
-- The invariant of all parties and players, and what a method of one party has to keep.
use darghos_tfs04_86_v.Base.{
  ℕ, ◌≡◌, ◌≢◌, ◌≤◌, refl, Bool, true, false, not, ◌&&◌, ◌||◌, Option, none, some, mem, distinct,
  update, ◌==◌, arith, Bool-cases, ==_iff, subst, ◌∙◌, inl, inr,
}
use darghos_tfs04_86_v.Party.{Party, Players, World}
use darghos_tfs04_86_v.Party.Handlers.{store}

-- The player's pointer is the party at `this`.
abbrev pub belongs : ℕ → Option ℕ → Bool
belongs this none = false
belongs this (some that) = that == this

-- The player is the leader or a member of the party that is stored.
abbrev pub on_roster : Option Party → ℕ → Bool
on_roster none p = false
on_roster (some party) p = p == party.leader || mem p party.members

abbrev pub is_invited : Option Party → ℕ → Bool
is_invited none p = false
is_invited (some party) p = mem p party.invites

abbrev pub well_shaped : Option Party → Bool
well_shaped none = true
well_shaped (some party) =
    not (mem party.leader party.members) && distinct party.members && distinct party.invites

-- The party that is stored at `this`, if any, and the players' pointers to this address agree.
pub record Agrees (this : ℕ) (players : Players) (party : Option Party) : Type 0 where
  pub roster : (p : ℕ) → on_roster party p ≡ belongs this (players p).party
  pub invited : (p : ℕ) → is_invited party p ≡ mem this (players p).invitations
  pub apart : (p : ℕ) → (is_invited party p && on_roster party p) ≡ false
  pub shape : well_shaped party ≡ true
  pub present : (p : ℕ) → on_roster party p ≡ true → (players p).removed ≡ false

-- Of every address the store and the pointers agree: no pointer dangles, every roster and every
-- list of invitations is matched by the players' own pointers, and nobody on a roster has been
-- removed from the game. No address beyond `next` is used.
pub record Inv (w : World) : Type 0 where
  pub agrees : (this : ℕ) → Agrees this w.players (w.parties this)
  pub invitations_distinct : (p : ℕ) → distinct (w.players p).invitations ≡ true
  pub fresh : (this : ℕ) → w.next ≤ this → w.parties this ≡ none

-- What a method of the party at `this` leaves alone.
pub record Frame (this : ℕ) (players after : Players) : Type 0 where
  pub party_kept :
      (p k : ℕ) → (k == this) ≡ false → belongs k (after p).party ≡ belongs k (players p).party
  pub invitations_kept :
      (p k : ℕ) → (k == this) ≡ false → mem k (after p).invitations ≡ mem k (players p).invitations
  pub distinct_kept : (p : ℕ) → distinct (after p).invitations ≡ true
  pub removed_kept : (p : ℕ) → (after p).removed ≡ (players p).removed

pub Frame-refl :
    (this : ℕ) (players : Players)
    → ((p : ℕ) → distinct (players p).invitations ≡ true)
    → Frame this players players
Frame-refl this players d = record {
  party_kept = λ p k h. refl;
  invitations_kept = λ p k h. refl;
  distinct_kept = d;
  removed_kept = λ p. refl;
}

Agrees-elsewhere :
    (this k : ℕ) (players after : Players) (party : Option Party)
    → (k == this) ≡ false
    → Frame this players after
    → Agrees k players party
    → Agrees k after party
Agrees-elsewhere this k players after party h f a = record {
  roster = λ p. ground (arith, a.roster p, f.party_kept p k);
  invited = λ p. ground (arith, a.invited p, f.invitations_kept p k);
  apart = a.apart;
  shape = a.shape;
  present = λ p r. f.removed_kept p ∙ a.present p r;
}

Agrees-store :
    (w : World) (this k : ℕ) (after : Players) (party : Option Party)
    → Inv w
    → Frame this w.players after
    → Agrees this after party
    → Agrees k after (update w.parties this party k)
Agrees-store w this k after party v f a = elim (Bool-cases (k == this)) [
  | inl here ↦ rw here (rw ((==_iff k this).0 here) a)
  | inr there ↦
      rw there (Agrees-elsewhere this k w.players after (w.parties k) there f (v.agrees k))
]

-- A method that keeps its frame and leaves its party in agreement keeps the invariant.
pub store-Inv :
    (w : World) (this : ℕ) (after : Players) (party : Option Party)
    → Inv w
    → w.parties this ≢ none
    → Frame this w.players after
    → Agrees this after party
    → Inv (store w this after party)
store-Inv w this after party v there f a = record {
  agrees = λ k. Agrees-store w this k after party v f a;
  invitations_distinct = f.distinct_kept;
  fresh = λ k h. elim (Bool-cases (k == this)) [
    | inl here ↦ absurd (there (v.fresh this (subst (λ x. w.next ≤ x) ((==_iff k this).0 here) h)))
    | inr other ↦ rw other (v.fresh k h)
  ];
}

Frame-trans : (this : ℕ) (a b c : Players) → Frame this a b → Frame this b c → Frame this a c
Frame-trans this a b c f g = record {
  party_kept = λ p k h. g.party_kept p k h ∙ f.party_kept p k h;
  invitations_kept = λ p k h. g.invitations_kept p k h ∙ f.invitations_kept p k h;
  distinct_kept = g.distinct_kept;
  removed_kept = λ p. g.removed_kept p ∙ f.removed_kept p;
}

-- A method of the party at `this` did its duty.
pub record Kept (this : ℕ) (players after : Players) (party : Option Party) : Type 0 where
  pub agrees : Agrees this after party
  pub frame : Frame this players after

pub Kept-trans :
    (this : ℕ) (a b c : Players) (party : Option Party)
    → Frame this a b
    → Kept this b c party
    → Kept this a c party
Kept-trans this a b c party f k = record {
  agrees = k.agrees;
  frame = Frame-trans this a b c f k.frame;
}
