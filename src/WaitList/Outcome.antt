-- ===== src/WaitList/Outcome.antt =====
-- What `login` does, as a relation between the queue before, the call and the result.
use darghos_tfs04_86_v.Base.{
  ℕ, suc, ◌+◌, ◌*◌, ◌≤◌, ◌<◌, ◌≡◌, refl, ap, ◌∙◌, Bool, true, false, Option, none, some, List, ◌∷◌,
  ◌++◌, inl, inr, Bool-cases, u32, length, any, arith, set-middle, erase_at-middle,
  get_elem?-middle, ltb, ltb→lt,
}
use darghos_tfs04_86_v.WaitList.{
  Wait, Client, Server, is_entry_of, find, make_wait, enqueue, retry, dispatch, skips_queue,
  cleanup, get_timeout, login,
}
use darghos_tfs04_86_v.WaitList.Find.{Split, find_cases, Insertion, insertion}

-- The four ways a login ends: the player skips the queue; the player's entry still has to wait,
-- and only its timeout is new; the entry is served and leaves; or a new entry is put in.
pub data Outcome (s : Server) (ws : List Wait) (p : Client) (r : List Wait × Bool) : Type 0 where
  skips : skips_queue s ws p ≡ true → r ≡ (ws, true) → Outcome s ws p r
  waits :
      (f : Split p (cleanup s.now ws))
      → skips_queue s ws p ≡ false
      → s.max_players < u32 (s.online + u32 (suc (length f.before)))
      → r ≡ (
        f.before
            ++ record f.entry { timeout = s.now + get_timeout (u32 (suc (length f.before))) * 1000 }
              ∷ f.after,
        false,
      )
      → Outcome s ws p r
  enters :
      (f : Split p (cleanup s.now ws))
      → skips_queue s ws p ≡ false
      → u32 (s.online + u32 (suc (length f.before))) ≤ s.max_players
      → r ≡ (f.before ++ f.after, true)
      → Outcome s ws p r
  joins :
      (n : Insertion s.now (cleanup s.now ws) p)
      → skips_queue s ws p ≡ false
      → any (is_entry_of p) (cleanup s.now ws) ≡ false
      → r ≡ (n.before ++ make_wait p s.now (u32 (suc (length n.before))) ∷ n.after, false)
      → Outcome s ws p r

retry_waits :
    (s : Server) (before : List Wait) (w : Wait) (after : List Wait) (slot : ℕ)
    → ltb s.max_players (u32 (s.online + slot)) ≡ true
    → retry s (before ++ w ∷ after) (length before) slot
      ≡ (before ++ record w { timeout = s.now + get_timeout slot * 1000 } ∷ after, false)
unfolding retry
retry_waits s before w after slot full =
    rw (get_elem?-middle before w after, retry, full)
      (ap (λ ws. (ws, false)) (set-middle before w after _))

retry_enters :
    (s : Server) (before : List Wait) (w : Wait) (after : List Wait) (slot : ℕ)
    → ltb s.max_players (u32 (s.online + slot)) ≡ false
    → retry s (before ++ w ∷ after) (length before) slot ≡ (before ++ after, true)
unfolding retry
retry_enters s before w after slot room =
    rw (get_elem?-middle before w after, retry, room)
      (ap (λ ws. (ws, true)) (erase_at-middle before w after))

dispatch-none :
    (s : Server) (ws : List Wait) (p : Client) (r : Option ℕ × ℕ)
    → r.0 ≡ none
    → dispatch s ws p r ≡ (enqueue s.now ws p, false)
unfolding dispatch
dispatch-none s ws p (none, slot) e = refl
dispatch-none s ws p (some i, slot) e = cc

dispatch-Outcome :
    (s : Server) (ws : List Wait) (p : Client)
    → skips_queue s ws p ≡ false
    → Outcome s ws p (dispatch s (cleanup s.now ws) p (find p (cleanup s.now ws)))
unfolding dispatch
dispatch-Outcome s ws p held = elim (find_cases p (cleanup s.now ws)) [
  | inl (gone, e) ↦
      let n = insertion s.now (cleanup s.now ws) p in
      joins n held gone (dispatch-none s (cleanup s.now ws) p _ e ∙ ap (λ q. (q, false)) n.result)
  | inr (f, e) ↦
      elim (Bool-cases (ltb s.max_players (u32 (s.online + u32 (suc (length f.before)))))) [
        | inl full ↦
            waits f held (ltb→lt _ _ full)
              (rw e (rw (← f.joined) at (retry_waits s f.before f.entry f.after _ full)))
        | inr room ↦
            enters f held (ground arith)
              (rw e (rw (← f.joined) at (retry_enters s f.before f.entry f.after _ room)))
      ]
]

-- A login either skips the queue, or it serves the queue without the entries that have timed out:
-- an entry of the player that still has to wait gets a new timeout, one whose turn has come is taken
-- out and lets the player in, and without an entry a new one is put in, where its slot says.
pub login-Outcome : (s : Server) (ws : List Wait) (p : Client) → Outcome s ws p (login s ws p)
unfolding login
login-Outcome s ws p = elim (Bool-cases (skips_queue s ws p)) [
  | inl free ↦ skips free (rw free)
  | inr held ↦ rw held (dispatch-Outcome s ws p held)
]
