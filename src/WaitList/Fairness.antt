-- ===== src/WaitList/Fairness.antt =====
-- What a login does to the entries of each player.
use darghos_tfs04_86_v.Base.{
  ℕ, ◌≡◌, sym, ◌∙◌, Bool, true, false, not, List, [], ◌∷◌, ◌++◌, select, arith, text_eq_refl,
  ==_self,
}
use darghos_tfs04_86_v.WaitList.{
  Wait, Client, Server, cleanup, make_wait, login, skips_queue, is_entry_of, as_lower_case_string,
}
use darghos_tfs04_86_v.WaitList.Outcome.{Outcome, skips, waits, enters, joins, login-Outcome}

-- The other players' entries, in order.
abbrev pub others : Client → List Wait → List Wait
others p ws = select (λ w. not (is_entry_of p w)) ws

abbrev pub entries_of : Client → List Wait → List Wait
entries_of p ws = select (is_entry_of p) ws

pub make_wait_own : (p : Client) (now slot : ℕ) → is_entry_of p (make_wait p now slot) ≡ true
unfolding is_entry_of make_wait
make_wait_own p now slot = rw (==_self p.ip, text_eq_refl (as_lower_case_string p.name))

others_around :
    (p : Client) (xs : List Wait) (w : Wait) (ys : List Wait)
    → is_entry_of p w ≡ true
    → others p (xs ++ w ∷ ys) ≡ others p (xs ++ ys)
others_around p [] w ys h = rw h
others_around p (x ∷ xs) w ys h = ground (arith, others_around p xs w ys h)

Outcome-others :
    (s : Server) (ws : List Wait) (p : Client) (r : List Wait × Bool)
    → skips_queue s ws p ≡ false
    → Outcome s ws p r
    → others p r.0 ≡ others p (cleanup s.now ws)
unfolding is_entry_of
Outcome-others s ws p r h (skips free _) = cc
Outcome-others s ws p r h (waits f _ _ e) =
    rw (e, f.joined)
      (others_around p f.before _ f.after f.is_entry
        ∙ sym (others_around p f.before f.entry f.after f.is_entry))
Outcome-others s ws p r h (enters f _ _ e) =
    rw (e, f.joined) (sym (others_around p f.before f.entry f.after f.is_entry))
Outcome-others s ws p r h (joins n _ _ e) =
    rw (e, n.joined) (others_around p n.before _ n.after (make_wait_own p s.now _))

-- A player who does not skip the queue neither moves nor drops another player's entry: those that
-- have not timed out stay, in their order.
pub login-others :
    (s : Server) (ws : List Wait) (p : Client)
    → skips_queue s ws p ≡ false
    → others p (login s ws p).0 ≡ others p (cleanup s.now ws)
login-others s ws p h = Outcome-others s ws p _ h (login-Outcome s ws p)
