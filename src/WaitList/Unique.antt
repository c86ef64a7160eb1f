-- ===== src/WaitList/Unique.antt =====
-- The entries of one player.
use darghos_tfs04_86_v.Base.{
  any_left, ℕ, suc, ◌≡◌, refl, ap, ◌∙◌, Bool, true, false, not, List, [], ◌∷◌, ◌++◌, ◌≤◌, ◌+◌, ◌*◌,
  some, Bool-cases, inl, inr, select_comm, select_none, length-select-le, any, arith, length, u32,
  text_eq_sound, leb,
}
use darghos_tfs04_86_v.WaitList.{
  Wait, Client, Server, cleanup, make_wait, login, is_entry_of, find, get_slot, get_timeout,
  as_lower_case_string,
}
use darghos_tfs04_86_v.WaitList.Find.{find_from_entry}
use darghos_tfs04_86_v.WaitList.Fairness.{entries_of, make_wait_own}
use darghos_tfs04_86_v.WaitList.Outcome.{Outcome, skips, waits, enters, joins, login-Outcome}

abbrev pub IsUnique : List Wait → Type 0
IsUnique ws = (q : Client) → length (entries_of q ws) ≤ 1

-- Two players who share an entry share them all.
same_entries :
    (p q : Client) (now slot : ℕ) (w : Wait)
    → is_entry_of q (make_wait p now slot) ≡ true
    → is_entry_of q w ≡ is_entry_of p w
unfolding is_entry_of make_wait
same_entries p q now slot w h =
    let same =
      text_eq_sound (as_lower_case_string p.name) (as_lower_case_string q.name) (ground arith) in
    rw same (ground arith)

any_same :
    (p q : Client) (now slot : ℕ) (ws : List Wait)
    → is_entry_of q (make_wait p now slot) ≡ true
    → any (is_entry_of q) ws ≡ any (is_entry_of p) ws
any_same p q now slot [] h = refl
any_same p q now slot (w ∷ ws) h =
    ground (arith, same_entries p q now slot w h, any_same p q now slot ws h)

length-entries_of :
    (q : Client) (xs : List Wait) (w : Wait) (ys : List Wait)
    → length (entries_of q (xs ++ w ∷ ys))
      ≡ length (entries_of q (w ∷ [])) + length (entries_of q (xs ++ ys))
length-entries_of q [] w ys = ground arith
length-entries_of q (x ∷ xs) w ys = ground (arith, length-entries_of q xs w ys)

length-entries_of_instead :
    (q : Client) (xs : List Wait) (w v : Wait) (ys : List Wait)
    → is_entry_of q w ≡ is_entry_of q v
    → length (entries_of q (xs ++ v ∷ ys)) ≡ length (entries_of q (xs ++ w ∷ ys))
length-entries_of_instead q [] w v ys h = ground arith
length-entries_of_instead q (x ∷ xs) w v ys h =
    ground (arith, length-entries_of_instead q xs w v ys h)

cleanup-IsUnique : (now : ℕ) (ws : List Wait) → IsUnique ws → IsUnique (cleanup now ws)
unfolding cleanup
cleanup-IsUnique now ws h q = rw (select_comm (is_entry_of q) (λ w. not (leb w.timeout now)) ws) (
    omega
      (arith, h q, length-select-le {0} (λ (w : Wait). not (leb w.timeout now)) (entries_of q ws)))

joins-IsUnique :
    (p q : Client) (now slot : ℕ) (xs ys : List Wait)
    → IsUnique (xs ++ ys)
    → any (is_entry_of p) (xs ++ ys) ≡ false
    → length (entries_of q (xs ++ make_wait p now slot ∷ ys)) ≤ 1
joins-IsUnique p q now slot xs ys h gone =
    elim (Bool-cases (is_entry_of q (make_wait p now slot))) [
      | inl same ↦
          rw
            (
              length-entries_of q xs (make_wait p now slot) ys,
              same,
              select_none (is_entry_of q) (xs ++ ys) (any_same p q now slot (xs ++ ys) same ∙ gone),
            )
            (omega arith)
      | inr other ↦
          rw (length-entries_of q xs (make_wait p now slot) ys, other) (omega (arith, h q))
    ]

Outcome-IsUnique :
    (s : Server) (ws : List Wait) (p : Client) (r : List Wait × Bool)
    → IsUnique ws
    → IsUnique (cleanup s.now ws)
    → Outcome s ws p r
    → IsUnique r.0
unfolding is_entry_of
Outcome-IsUnique s ws p r h k (skips _ e) q = rw e (h q)
Outcome-IsUnique s ws p r h k (waits f _ _ e) q =
    rw
      (
        e,
        length-entries_of_instead q f.before f.entry
            (record f.entry { timeout = s.now + get_timeout (u32 (suc (length f.before))) * 1000 })
            f.after refl,
        ← f.joined,
      )
      (k q)
Outcome-IsUnique s ws p r h k (enters f _ _ e) q =
    rw e (omega (arith, length-entries_of q f.before f.entry f.after, rw f.joined at (k q)))
Outcome-IsUnique s ws p r h k (joins n _ gone e) q =
    rw e (joins-IsUnique p q s.now _ n.before n.after (rw n.joined at k) (rw n.joined at gone))

-- If each player has one entry at most, that is so after every login.
pub login-IsUnique :
    (s : Server) (ws : List Wait) (p : Client) → IsUnique ws → IsUnique (login s ws p).0
login-IsUnique s ws p h =
    Outcome-IsUnique s ws p _ h (cleanup-IsUnique s.now ws h) (login-Outcome s ws p)

slot_of_entry :
    (p : Client) (xs : List Wait) (w : Wait) (ys : List Wait)
    → any (is_entry_of p) xs ≡ false
    → is_entry_of p w ≡ true
    → get_slot (xs ++ w ∷ ys) p ≡ some (u32 (suc (length xs)))
unfolding get_slot find
slot_of_entry p xs w ys before here =
    ground (arith, find_from_entry p xs w ys 0 1 (omega arith) before here)

-- The player's first entry, and what `get_slot` and the timeout say of its place.
pub record Waiting (s : Server) (p : Client) (ws : List Wait) : Type 0 where
  pub before : List Wait
  pub entry : Wait
  pub after : List Wait
  pub joined : ws ≡ before ++ entry ∷ after
  pub own : is_entry_of p entry ≡ true
  pub slot : get_slot ws p ≡ some (u32 (suc (length before)))
  pub until : entry.timeout ≡ s.now + get_timeout (u32 (suc (length before))) * 1000

Outcome-Waiting :
    (s : Server) (ws : List Wait) (p : Client) (r : List Wait × Bool)
    → r.1 ≡ false
    → Outcome s ws p r
    → Waiting s p r.0
unfolding is_entry_of make_wait
Outcome-Waiting s ws p r no_entry (skips _ e) = cc
Outcome-Waiting s ws p r no_entry (enters f _ _ e) = cc
Outcome-Waiting s ws p r no_entry (waits f _ _ e) = record {
  before = f.before;
  entry = _;
  after = f.after;
  joined = ap (λ x. x.0) e;
  own = f.is_entry;
  slot = rw e (slot_of_entry p f.before _ f.after f.none_before f.is_entry);
  until = refl;
}
Outcome-Waiting s ws p r no_entry (joins n _ gone e) = record {
  before = n.before;
  entry = _;
  after = n.after;
  joined = ap (λ x. x.0) e;
  own = make_wait_own p s.now (u32 (suc (length n.before)));
  slot = rw e (
      slot_of_entry p n.before _ n.after
        (any_left (is_entry_of p) n.before n.after (rw n.joined at gone))
        (make_wait_own p s.now (u32 (suc (length n.before)))));
  until = refl;
}

-- A player who is refused has an entry, whose slot `get_slot` finds and whose timeout is the one
-- that `get_timeout` gives for this slot, counted from the time of the login.
pub login-Waiting :
    (s : Server) (ws : List Wait) (p : Client)
    → (login s ws p).1 ≡ false
    → Waiting s p (login s ws p).0
login-Waiting s ws p h = Outcome-Waiting s ws p _ h (login-Outcome s ws p)
