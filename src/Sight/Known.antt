-- ===== src/Sight/Known.antt =====
-- The list of the creatures that a client knows: who is dropped when it is full.
use darghos_tfs04_86_v.Base.{
  ℕ, zero, suc, ◌≤◌, ◌<◌, ◌≡◌, ◌∙◌, refl, sym, ap, Bool, true, false, not, ◌&&◌, ◌||◌, List, [],
  ◌∷◌, ◌++◌, ltb, ◌==◌, ==_iff, length, mem, remove, all, distinct, arith, append_assoc, append-nil,
  length-append, mem-append, mem-remove, distinct-remove, distinct-push, Bool-cases, inl, inr,
  length-remove, distinct-append, all-append, shares_cons, shares_comm,
}
use darghos_tfs04_86_v.Sight.{KnownAnswer, rotate, check_creature_as_known}

module _ (sight : ℕ → Bool) where
  -- The first creature out of sight comes to the front, and those before it to the end.
  rotate_found :
      (front : List ℕ) (r : ℕ) (back : List ℕ) (n removed : ℕ)
      → all sight front ≡ true
      → sight r ≡ false
      → length front < n
      → rotate n sight (front ++ r ∷ back) removed ≡ (r ∷ (back ++ front), r)
  unfolding rotate
  rotate_found [] r back zero removed a h lt = absurd (omega arith)
  rotate_found [] r back (suc n) removed a h lt = rw (h, append-nil back) refl
  rotate_found (x ∷ front) r back zero removed a h lt = absurd (omega arith)
  rotate_found (x ∷ front) r back (suc n) removed a h lt =
      let seen : sight x ≡ true = ground (arith, a) in
      rw (rotate, seen)
        (ap (λ l. rotate n sight l x) (append_assoc front (r ∷ back) (x ∷ []))
          ∙ rotate_found front r (back ++ x ∷ []) n x (ground (arith, a)) h (omega arith)
          ∙ ap (λ l. (r ∷ l, r)) (append_assoc back (x ∷ []) front))

  -- Where all that are turned are in sight, the last of them is what is called removed.
  rotate_seen :
      (front : List ℕ) (r : ℕ) (back : List ℕ) (removed : ℕ)
      → all sight front ≡ true
      → sight r ≡ true
      → rotate (suc (length front)) sight (front ++ r ∷ back) removed
        ≡ (back ++ (front ++ r ∷ []), r)
  unfolding rotate
  rotate_seen [] r back removed a h = rw h refl
  rotate_seen (x ∷ front) r back removed a h =
      let seen : sight x ≡ true = ground (arith, a) in
      rw (rotate, seen)
        (ap (λ l. rotate (suc (length front)) sight l x) (append_assoc front (r ∷ back) (x ∷ []))
          ∙ rotate_seen front r (back ++ x ∷ []) x (ground (arith, a)) h
          ∙ ap (λ l. (l, r)) (append_assoc back (x ∷ []) (front ++ r ∷ [])))

  -- A list with a creature out of sight, at the first one.
  split :
      (l : List ℕ)
      → all sight l ≡ false
      → (front : List ℕ) × (r : ℕ) × (back : List ℕ) × (l ≡ front ++ r ∷ back)
        × (all sight front ≡ true)
        × (sight r ≡ false)
  split [] h = absurd (cc)
  split (x ∷ l) h = elim (Bool-cases (sight x)) [
    | inr out ↦ ([], x, l, refl, refl, out)
    | inl seen ↦
        let rest = split l (ground (arith, seen, h)) in
        (x ∷ rest.0, rest.1, rest.2, ap (◌∷◌ x) rest.3, ground (arith, rest.4, seen), rest.5)
  ]

  -- The creature is listed, all in sight that were listed are, nothing is listed twice, there are
  -- at most 250, the answer says whether the creature was listed, and only the one that is called
  -- removed is dropped, if the creature is new.
  pub record IsUpdated (id : ℕ) (l : List ℕ) (a : KnownAnswer) : Type 0 where
    pub listed : mem id a.list ≡ true
    pub kept : (c : ℕ) → sight c ≡ true → mem c l ≡ true → mem c a.list ≡ true
    pub unique : distinct a.list ≡ true
    pub bounded : length a.list ≤ 250
    pub told : a.known ≡ mem id l
    pub dropped : (c : ℕ) → mem c l ≡ true → (mem c a.list || not a.known && c == a.removed) ≡ true

  module _ (id removed : ℕ) (l : List ℕ) (d : distinct l ≡ true) where
    moved_back :
        mem id l ≡ true
        → length l ≤ 250
        → IsUpdated id l (record { list = remove id l ++ id ∷ []; known = true; removed = removed })
    moved_back old b =
        let here = λ (c : ℕ). mem-append c (remove id l) (id ∷ []) in
        let gone = λ (c : ℕ). mem-remove c id l d in
        record {
          listed = ground (arith, here id, ==_iff id id);
          kept = λ c s h. ground (arith, here c, gone c, h, ==_iff c id);
          unique =
              distinct-push id (remove id l) (distinct-remove id l d)
                (ground (arith, gone id, ==_iff id id));
          bounded = omega (arith, length-append (remove id l) (id ∷ []), length-remove id l old);
          told = sym old;
          dropped = λ c h. ground (arith, here c, gone c, h, ==_iff c id);
        }

    put_behind :
        mem id l ≡ false
        → length l < 250
        → IsUpdated id l (record { list = l ++ id ∷ []; known = false; removed = 0 })
    put_behind new b =
        let here = λ (c : ℕ). mem-append c l (id ∷ []) in
        record {
          listed = ground (arith, here id, ==_iff id id);
          kept = λ c s h. ground (arith, here c, h);
          unique = distinct-push id l d new;
          bounded = omega (arith, length-append l (id ∷ []));
          told = sym new;
          dropped = λ c h. ground (arith, here c, h);
        }

    turned :
        (r : ℕ) (front back : List ℕ)
        → mem id l ≡ false
        → length l ≡ 250
        → l ≡ front ++ r ∷ back
        → sight r ≡ false
        → IsUpdated id l (record { list = (back ++ id ∷ []) ++ front; known = false; removed = r })
    turned r front back new b e out =
        let here = λ (c : ℕ). mem-append c (back ++ id ∷ []) front in
        let there = λ (c : ℕ). mem-append c back (id ∷ []) in
        let before = λ (c : ℕ). ap (mem c) e ∙ mem-append c front (r ∷ back) in
        record {
          listed = ground (arith, here id, there id, ==_iff id id);
          kept = λ c s h. ground (arith, here c, there c, before c, s, out, h, ==_iff c r);
          unique = rw (append_assoc back (id ∷ []) front) (
              ground (
                arith,
                distinct-append back (id ∷ front),
                shares_cons id back front,
                shares_comm back front,
                shares_cons r front back,
                before id,
                new,
                ap distinct e,
                d,
                distinct-append front (r ∷ back),
              ));
          bounded = omega (
            arith,
            length-append (back ++ id ∷ []) front,
            length-append back (id ∷ []),
            length-append front (r ∷ back),
            ap length e,
          );
          told = sym new;
          dropped = λ c h. ground (arith, here c, there c, before c, h, ==_iff c r);
        }

over_full : (l : List ℕ) (id : ℕ) → ltb 250 (length (l ++ id ∷ [])) ≡ ltb 249 (length l)
over_full l id = ground (arith, length-append l (id ∷ []))

-- A list of 250 creatures or fewer, without repetition, stays such a list, the creature is on it, and
-- the answer says whether it was; all in sight stay on it, and of the others at most one is dropped,
-- the one that is called removed. This holds where the creature is known, where there is room, and
-- where one of the 250 is out of sight.
pub check_creature_as_known-IsUpdated :
    (sight : ℕ → Bool) (id : ℕ) (l : List ℕ) (removed : ℕ)
    → distinct l ≡ true
    → length l ≤ 250
    → (mem id l || ltb (length l) 250 || not (all sight l)) ≡ true
    → IsUpdated sight id l (check_creature_as_known sight id l removed)
unfolding check_creature_as_known
check_creature_as_known-IsUpdated sight id l removed d b h = elim (Bool-cases (mem id l)) [
  | inl old ↦ rw (check_creature_as_known, old) (moved_back sight id removed l d old b)
  | inr new ↦ elim (Bool-cases (ltb (length l) 250)) [
    | inl room ↦
        let fits : ltb 250 (length (l ++ id ∷ [])) ≡ false = ground (arith, over_full l id, room) in
        rw (check_creature_as_known, new, fits)
          (put_behind sight id removed l d new (ground (arith, room)))
    | inr full ↦
        let over : ltb 250 (length (l ++ id ∷ [])) ≡ true = ground (arith, over_full l id, full) in
        let (front, r, back, e, seen, out) = split sight l (ground (arith, h, new, full)) in
        let turns : rotate 250 sight (l ++ id ∷ []) removed
            ≡ (r ∷ ((back ++ id ∷ []) ++ front), r) =
          ap (λ x. rotate 250 sight (x ++ id ∷ []) removed) e
          ∙ ap (λ x. rotate 250 sight x removed) (append_assoc front (r ∷ back) (id ∷ []))
          ∙ rotate_found sight front r (back ++ id ∷ []) 250 removed seen out
              (omega (arith, b, length-append front (r ∷ back), ap length e)) in
        rw (check_creature_as_known, new, over, turns)
          (turned sight id removed l d r front back new (ground (arith, b, full)) e out)
  ]
]

-- Where all of 250 known creatures are in sight, a new one is not put on the list, and the last one is
-- called removed though it stays on the list.
pub check_creature_as_known_crowded :
    (sight : ℕ → Bool) (id : ℕ) (front : List ℕ) (r removed : ℕ)
    → length front ≡ 249
    → all sight (front ++ r ∷ []) ≡ true
    → mem id (front ++ r ∷ []) ≡ false
    → check_creature_as_known sight id (front ++ r ∷ []) removed
      ≡ record { list = front ++ r ∷ []; known = false; removed = r }
unfolding check_creature_as_known
check_creature_as_known_crowded sight id front r removed b seen new =
    let over : ltb 250 (length ((front ++ r ∷ []) ++ id ∷ [])) ≡ true =
      ground (arith, over_full (front ++ r ∷ []) id, length-append front (r ∷ []), b) in
    let turns : rotate 250 sight ((front ++ r ∷ []) ++ id ∷ []) removed
        ≡ (id ∷ (front ++ r ∷ []), r) =
      ap (λ x. rotate 250 sight x removed) (append_assoc front (r ∷ []) (id ∷ []))
      ∙ ap (λ n. rotate (suc n) sight (front ++ r ∷ id ∷ []) removed) (sym b)
      ∙ rotate_seen sight front r (id ∷ []) removed
          (ground (arith, all-append sight front (r ∷ []), seen))
          (ground (arith, all-append sight front (r ∷ []), seen)) in
    rw (check_creature_as_known, new, over, turns) refl
