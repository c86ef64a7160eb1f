-- ===== src/WaitList/Order.antt =====
-- The premium entries, and the others.
use darghos_tfs04_86_v.Base.{
  ℕ, ◌≡◌, refl, inl, inr, Bool, true, false, not, ◌&&◌, ◌||◌, List, [], ◌∷◌, ◌++◌, Bool-cases, all,
  all-append, all-select, select, arith,
}
use darghos_tfs04_86_v.WaitList.{Wait, Client, Server, cleanup, make_wait, login}
use darghos_tfs04_86_v.WaitList.Find.{Insertion}
use darghos_tfs04_86_v.WaitList.Outcome.{Outcome, skips, waits, enters, joins, login-Outcome}

abbrev is_free : Wait → Bool
is_free w = not w.premium

-- No entry that is not premium has a premium entry behind it.
unfoldable pub premium_first : List Wait → Bool
premium_first [] = true
premium_first (w ∷ ws) = (w.premium || all is_free ws) && premium_first ws

premium_first-append :
    (xs ys : List Wait)
    → premium_first (xs ++ ys)
      ≡ (premium_first xs && premium_first ys && (all (λ w. w.premium) xs || all is_free ys))
unfolding premium_first
premium_first-append [] ys = ground arith
premium_first-append (x ∷ xs) ys =
    ground (arith, premium_first-append xs ys, all-append is_free xs ys)

premium_first-select :
    (q : Wait → Bool) (ws : List Wait)
    → premium_first ws ≡ true
    → premium_first (select q ws) ≡ true
unfolding premium_first
premium_first-select q [] h = refl
premium_first-select q (w ∷ ws) h =
    ground (arith, premium_first-select q ws, all-select is_free q ws)

-- Taking an entry out, or changing one that stays as premium as it was, keeps the order.
premium_first_without :
    (xs : List Wait) (w : Wait) (ys : List Wait)
    → premium_first (xs ++ w ∷ ys) ≡ true
    → premium_first (xs ++ ys) ≡ true
unfolding premium_first
premium_first_without xs w ys h =
    ground (arith, premium_first-append xs (w ∷ ys), premium_first-append xs ys)

premium_first_instead :
    (xs : List Wait) (w v : Wait) (ys : List Wait)
    → w.premium ≡ v.premium
    → premium_first (xs ++ w ∷ ys) ≡ true
    → premium_first (xs ++ v ∷ ys) ≡ true
unfolding premium_first
premium_first_instead xs w v ys e h =
    ground (arith, premium_first-append xs (w ∷ ys), premium_first-append xs (v ∷ ys))

free_rest :
    (ys : List Wait)
    → ((w : Wait) (rest : List Wait) → ys ≡ w ∷ rest → w.premium ≡ false)
    → premium_first ys ≡ true
    → all is_free ys ≡ true
unfolding premium_first
free_rest [] next h = refl
free_rest (w ∷ ys) next h = ground (arith, next w ys refl)

Insertion-keeps :
    (now : ℕ) (ws : List Wait) (p : Client) (n : Insertion now ws p) (w : Wait)
    → w.premium ≡ p.premium
    → premium_first ws ≡ true
    → premium_first (n.before ++ w ∷ n.after) ≡ true
unfolding premium_first
Insertion-keeps now ws p n w e h = elim (Bool-cases p.premium) [
  | inl paid ↦ ground (
    arith,
    n.joined,
    n.premiums paid,
    free_rest n.after (n.next_free paid),
    premium_first-append n.before n.after,
    premium_first-append n.before (w ∷ n.after),
  )
  | inr free ↦ ground (
    arith,
    n.joined,
    n.last free,
    premium_first-append n.before n.after,
    premium_first-append n.before (w ∷ n.after),
  )
]

Outcome-keeps :
    (s : Server) (ws : List Wait) (p : Client) (r : List Wait × Bool)
    → premium_first ws ≡ true
    → premium_first (cleanup s.now ws) ≡ true
    → Outcome s ws p r
    → premium_first r.0 ≡ true
unfolding make_wait
Outcome-keeps s ws p r h k (skips _ e) = rw e h
Outcome-keeps s ws p r h k (waits f _ _ e) =
    rw e (premium_first_instead f.before f.entry _ f.after refl (rw f.joined at k))
Outcome-keeps s ws p r h k (enters f _ _ e) =
    rw e (premium_first_without f.before f.entry f.after (rw f.joined at k))
Outcome-keeps s ws p r h k (joins n _ _ e) = rw e (Insertion-keeps s.now _ p n _ refl k)

-- If the premium entries of the queue stand before the others, they do so after every login.
pub login-premium_first :
    (s : Server) (ws : List Wait) (p : Client)
    → premium_first ws ≡ true
    → premium_first (login s ws p).0 ≡ true
unfolding cleanup
login-premium_first s ws p h =
    Outcome-keeps s ws p (login s ws p) h (premium_first-select _ ws h) (login-Outcome s ws p)
