-- ===== src/WaitList/Find.antt =====
-- What `find` and the search for the end of the premium entries return.
use native.Mathlib.Numerals.{add-one}
use darghos_tfs04_86_v.Base.{
  ℕ, suc, ◌+◌, ◌<◌, ◌≡◌, refl, ap, sym, ◌∙◌, append-nil, true, false, none, some, List, [], ◌∷◌,
  ◌++◌, ◌⊎◌, inl, inr, Bool-cases, u32, length, any, all, arith, insert_at, insert_at-middle,
}
use darghos_tfs04_86_v.WaitList.{
  Wait, Client, is_entry_of, find_from, find, premium_end_from, premium_end, make_wait, enqueue,
}

-- The list around the player's first entry.
pub record Split (p : Client) (ws : List Wait) : Type 0 where
  pub before : List Wait
  pub entry : Wait
  pub after : List Wait
  pub joined : ws ≡ before ++ entry ∷ after
  pub none_before : any (is_entry_of p) before ≡ false
  pub is_entry : is_entry_of p entry ≡ true

abbrev Finds : Client → List Wait → ℕ → ℕ → Type 0
Finds p ws i slot =
    (any (is_entry_of p) ws ≡ false) × ((find_from p ws i slot).0 ≡ none)
    ⊎ ((s : Split p ws) × (find_from p ws i slot
          ≡ (some (i + length s.before), u32 (slot + length s.before))))

find_from-Finds :
    (p : Client) (ws : List Wait) (i slot : ℕ) → slot < 0x1_0000_0000 → Finds p ws i slot
unfolding find_from
find_from-Finds p [] i slot h = inl (refl, refl)
find_from-Finds p (w ∷ ws) i slot h = elim (Bool-cases (is_entry_of p w)) [
  | inl hit ↦ inr (
    record {
      before = [];
      entry = w;
      after = ws;
      joined = refl;
      none_before = refl;
      is_entry = hit;
    },
    rw hit (ground arith),
  )
  | inr miss ↦ elim (find_from-Finds p ws (suc i) (u32 (slot + 1)) (omega arith)) [
    | inl gone ↦ inl (rw miss gone)
    | inr (s, e) ↦ inr (
      record {
        before = w ∷ s.before;
        entry = s.entry;
        after = s.after;
        joined = ap (◌∷◌ w) s.joined;
        none_before = rw miss s.none_before;
        is_entry = s.is_entry;
      },
      rw (miss, e) (ground arith),
    )
  ]
]

-- `find` returns the first entry's position and slot, or there is no entry.
pub find_cases :
    (p : Client) (ws : List Wait)
    → (any (is_entry_of p) ws ≡ false) × ((find p ws).0 ≡ none)
      ⊎ ((s : Split p ws) × (find p ws ≡ (some (length s.before), u32 (suc (length s.before)))))
unfolding find
find_cases p ws = elim (find_from-Finds p ws 0 1 (omega arith)) [
  | inl gone ↦ inl gone
  | inr (s, e) ↦ inr (s, rw e (ground arith))
]

pub find_from_entry :
    (p : Client) (xs : List Wait) (w : Wait) (ys : List Wait) (i slot : ℕ)
    → slot < 0x1_0000_0000
    → any (is_entry_of p) xs ≡ false
    → is_entry_of p w ≡ true
    → find_from p (xs ++ w ∷ ys) i slot ≡ (some (i + length xs), u32 (slot + length xs))
unfolding find_from
find_from_entry p [] w ys i slot lt before here = rw here (ground arith)
find_from_entry p (x ∷ xs) w ys i slot lt before here =
    ground (arith, find_from_entry p xs w ys (suc i) (u32 (slot + 1)))

-- Where a player without an entry is put: behind the premium entries, or at the end.
pub record Insertion (now : ℕ) (ws : List Wait) (p : Client) : Type 0 where
  pub before : List Wait
  pub after : List Wait
  pub joined : ws ≡ before ++ after
  pub result : enqueue now ws p ≡ before ++ make_wait p now (u32 (suc (length before))) ∷ after
  pub premiums : p.premium ≡ true → all (λ w. w.premium) before ≡ true
  pub next_free :
      p.premium ≡ true → (w : Wait) (rest : List Wait) → after ≡ w ∷ rest → w.premium ≡ false
  pub last : p.premium ≡ false → after ≡ []

abbrev SplitsPremium : List Wait → ℕ → ℕ → Type 0
SplitsPremium ws i slot =
    (before : List Wait) × (after : List Wait) × (ws ≡ before ++ after)
    × (premium_end_from ws i slot ≡ (i + length before, u32 (slot + length before)))
    × (all (λ w. w.premium) before ≡ true)
    × ((w : Wait) (rest : List Wait) → after ≡ w ∷ rest → w.premium ≡ false)

premium_end_from-SplitsPremium :
    (ws : List Wait) (i slot : ℕ) → slot < 0x1_0000_0000 → SplitsPremium ws i slot
unfolding premium_end_from
premium_end_from-SplitsPremium [] i slot h = ([], [], refl, ground arith, refl, λ w rest e. cc)
premium_end_from-SplitsPremium (w ∷ ws) i slot h = elim (Bool-cases w.premium) [
  | inl paid ↦
      let (before, after, joined, e, paids, next) =
        premium_end_from-SplitsPremium ws (suc i) (u32 (slot + 1)) (omega arith) in
      (w ∷ before, after, ap (◌∷◌ w) joined, rw (paid, e) (ground arith), rw paid paids, next)
  | inr free ↦ ([], w ∷ ws, refl, rw free (ground arith), refl, λ x rest e. ground arith)
]

enqueue_premium :
    (now : ℕ) (ws : List Wait) (p : Client) (before after : List Wait) (n : ℕ)
    → p.premium ≡ true
    → ws ≡ before ++ after
    → premium_end ws ≡ (length before, n)
    → enqueue now ws p ≡ before ++ make_wait p now n ∷ after
unfolding enqueue
enqueue_premium now ws p before after n paid joined e =
    simp (paid, e) (rw joined (insert_at-middle before after (make_wait p now n)))

insert_premium :
    (now : ℕ) (ws : List Wait) (p : Client)
    → p.premium ≡ true
    → SplitsPremium ws 0 1
    → Insertion now ws p
unfolding premium_end
insert_premium now ws p paid (before, after, joined, e, paids, next) = record {
  before = before;
  after = after;
  joined = joined;
  result = enqueue_premium now ws p before after _ paid joined (rw e (ground arith));
  premiums = λ _. paids;
  next_free = λ _. next;
  last = λ free. cc;
}

enqueue_free :
    (now : ℕ) (ws : List Wait) (p : Client)
    → p.premium ≡ false
    → enqueue now ws p ≡ insert_at ws (length ws) (make_wait p now (u32 (suc (length ws))))
unfolding enqueue
enqueue_free now ws p free = simp (free, add-one)

insert_at-end {ℓ} : {A : Type ℓ} (xs : List A) (v : A) → insert_at xs (length xs) v ≡ xs ++ v ∷ []
insert_at-end [] v = refl
insert_at-end (x ∷ xs) v = ap (◌∷◌ x) (insert_at-end xs v)

insert_free : (now : ℕ) (ws : List Wait) (p : Client) → p.premium ≡ false → Insertion now ws p
insert_free now ws p free = record {
  before = ws;
  after = [];
  joined = sym (append-nil ws);
  result = enqueue_free now ws p free ∙ insert_at-end ws _;
  premiums = λ paid. cc;
  next_free = λ paid. cc;
  last = λ _. refl;
}

-- Every player without an entry is put somewhere.
pub insertion : (now : ℕ) (ws : List Wait) (p : Client) → Insertion now ws p
insertion now ws p = elim (Bool-cases p.premium) [
  | inl paid ↦ insert_premium now ws p paid (premium_end_from-SplitsPremium ws 0 1 (omega arith))
  | inr free ↦ insert_free now ws p free
]
