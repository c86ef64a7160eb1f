-- ===== src/Container/Breadth.antt =====
-- The loops of ContainerIterator against a listing of the contents by recursion on them.
use darghos_tfs04_86_v.Base.{
  ℕ, zero, suc, ◌+◌, ◌≤◌, ◌≡◌, refl, ap, sym, ◌∙◌, true, false, ◌&&◌, not, Option, none, some, List,
  [], ◌∷◌, ◌++◌, length, is_empty, mem, if◌then◌else◌, ◌==◌, arith, Bool-cases, inl, inr, ltb,
}
use darghos_tfs04_86_v.Container.{Store, is_container}
use darghos_tfs04_86_v.Container.Iterator.{
  begin, next_list, pushed, advance, visit, items_within, get_item_holding_count, is_holding_item,
}

-- The second list is the first with what its containers hold behind each of them.
pub data IsListing (s : Store) : List ℕ → List ℕ → Type 0 where
  nothing : IsListing s [] []
  plain :
      (x : ℕ) (xs ws : List ℕ)
      → is_container (s.things x).kind ≡ false
      → IsListing s xs ws
      → IsListing s (x ∷ xs) (x ∷ ws)
  box :
      (x : ℕ) (xs vs ws : List ℕ)
      → is_container (s.things x).kind ≡ true
      → IsListing s (s.things x).item_list vs
      → IsListing s xs ws
      → IsListing s (x ∷ xs) (x ∷ (vs ++ ws))

-- What the containers that wait in the queue hold.
data IsPending (s : Store) : List ℕ → List ℕ → Type 0 where
  done : IsPending s [] []
  more :
      (c : ℕ) (over vs ws : List ℕ)
      → is_empty (s.things c).item_list ≡ false
      → IsListing s (s.things c).item_list vs
      → IsPending s over ws
      → IsPending s (c ∷ over) (vs ++ ws)

abbrev total : (ℕ → ℕ) → List ℕ → ℕ
total w [] = 0
total w (x ∷ xs) = w x + total w xs

abbrev one : ℕ → ℕ
one x = 1

total-append : (w : ℕ → ℕ) (xs ys : List ℕ) → total w (xs ++ ys) ≡ total w xs + total w ys
total-append w [] ys = omega arith
total-append w (x ∷ xs) ys = omega (arith, total-append w xs ys)

module _ (s : Store) where
  IsPending-push :
      (over ws : List ℕ) (x : ℕ) (vs : List ℕ)
      → is_empty (s.things x).item_list ≡ false
      → IsListing s (s.things x).item_list vs
      → IsPending s over ws
      → (us : List ℕ) × IsPending s (over ++ x ∷ []) us
        × ((w : ℕ → ℕ) → total w us ≡ total w ws + total w vs)
  IsPending-push [] _ x vs h l done =
      (vs ++ [], more x [] vs [] h l done, λ w. omega (arith, total-append w vs []))
  IsPending-push (c ∷ over) _ x vs h l (more _ _ ts ws hc lc p) =
      let rest = IsPending-push over ws x vs h l p in
      (
        ts ++ rest.0,
        more c (over ++ x ∷ []) ts rest.0 hc lc rest.1,
        λ w. omega (arith, total-append w ts rest.0, total-append w ts ws, rest.2 w),
      )

  total-bare :
      (w : ℕ → ℕ) (xs vs : List ℕ) → IsListing s xs vs → is_empty xs ≡ true → total w vs ≡ 0
  total-bare w _ _ nothing h = refl
  total-bare w _ _ (plain _ _ _ _ _) h = cc
  total-bare w _ _ (box _ _ _ _ _ _ _) h = cc

  -- What an item adds to the queue.
  IsPending-pushed :
      (over ws : List ℕ) (x : ℕ) (xs us : List ℕ)
      → IsListing s (x ∷ xs) us
      → IsPending s over ws
      → (ts zs : List ℕ) × IsListing s xs ts
        × IsPending s (pushed s over x) zs
        × ((w : ℕ → ℕ) → total w us + total w ws ≡ w x + (total w ts + total w zs))
  IsPending-pushed over ws x xs _ (plain _ _ ts leaf l) p = (ts, ws, l, rw leaf p, λ w. omega arith)
  IsPending-pushed over ws x xs _ (box _ _ vs ts leaf k l) p =
      elim (Bool-cases (is_empty (s.things x).item_list)) [
        | inl bare ↦ (
          ts,
          ws,
          l,
          rw (leaf, bare) p,
          λ w. omega (arith, total-append w vs ts, total-bare w _ vs k bare),
        )
        | inr filled ↦
            let push = IsPending-push over ws x vs filled k p in
            (
              ts,
              push.0,
              l,
              rw (leaf, filled) push.1,
              λ w. omega (arith, push.2 w, total-append w vs ts),
            )
      ]

  -- A loop result reads what is listed, each item as often.
  abbrev IsRead : Option (List ℕ) → List ℕ → List ℕ → Type 0
  IsRead o us ws =
      (xs : List ℕ) × (o ≡ some xs) × ((w : ℕ → ℕ) → total w xs ≡ total w us + total w ws)

  IsRead-cons :
      (o : Option (List ℕ)) (x : ℕ) (ts zs us ws : List ℕ)
      → ((w : ℕ → ℕ) → total w us + total w ws ≡ w x + (total w ts + total w zs))
      → IsRead o ts zs
      → IsRead (elim o [ none ↦ none | some xs ↦ some (x ∷ xs) ]) us ws
  IsRead-cons o x ts zs us ws sums r = (x ∷ r.0, rw r.1 refl, λ w. omega (arith, r.2 w, sums w))

  pushed-front : (c : ℕ) (over : List ℕ) (x : ℕ) → pushed s (c ∷ over) x ≡ c ∷ pushed s over x
  pushed-front c over x =
      elim (Bool-cases (is_container (s.things x).kind && not (is_empty (s.things x).item_list))) [
        | inl nested ↦ rw nested refl
        | inr leaf ↦ rw leaf refl
      ]

  -- That the loop reads what is listed, for a number of steps.
  abbrev IsSteps : ℕ → Type 0
  IsSteps n =
      (c : ℕ) (over current us ws : List ℕ)
      → is_empty current ≡ false
      → IsListing s current us
      → IsPending s over ws
      → total one us + total one ws ≤ n
      → IsRead (visit n s (c ∷ over) current) us ws

  -- Behind the last item of a list the loop goes on with the queue.
  next-IsRead :
      (n : ℕ)
      → IsSteps n
      → (over ts ws : List ℕ) → IsListing s [] ts
      → IsPending s over ws
      → total one ws ≤ n
      → IsRead (visit n s (next_list s over).over (next_list s over).current) ts ws
  unfolding visit
  next-IsRead n steps _ _ _ nothing done h = ([], ground arith, λ w. omega arith)
  next-IsRead n steps _ _ _ nothing (more c over vs ws filled l p) h =
      let read =
        steps c over (s.things c).item_list vs ws filled l p
          (omega (arith, total-append one vs ws)) in
      (read.0, read.1, λ w. omega (arith, read.2 w, total-append w vs ws))

  visit-IsSteps : (n : ℕ) → IsSteps n
  unfolding visit advance
  visit-IsSteps n c over [] us ws filled l p h = cc
  visit-IsSteps zero c over (x ∷ rest) us ws filled l p h =
      let step = IsPending-pushed over ws x rest us l p in absurd (omega (arith, step.4 one))
  visit-IsSteps (suc n) c over (x ∷ []) us ws filled l p h =
      let step = IsPending-pushed over ws x [] us l p in
      IsRead-cons _ x step.0 step.1 us ws step.4 (
        rw (pushed-front c over x) (
          next-IsRead n (visit-IsSteps n) (pushed s over x) step.0 step.1 step.2 step.3
            (omega (arith, step.4 one))))
  visit-IsSteps (suc n) c over (x ∷ y ∷ rest) us ws filled l p h =
      let step = IsPending-pushed over ws x (y ∷ rest) us l p in
      IsRead-cons _ x step.0 step.1 us ws step.4 (
        rw (pushed-front c over x) (
          visit-IsSteps n c (pushed s over x) (y ∷ rest) step.0 step.1 refl step.2 step.3
            (omega (arith, step.4 one))))

  total-one : (xs : List ℕ) → total one xs ≡ length xs
  total-one [] = refl
  total-one (x ∷ xs) = omega (arith, total-one xs)

  mem-total : (x : ℕ) (xs : List ℕ) → mem x xs ≡ ltb 0 (total (λ y. if x == y then 1 else 0) xs)
  mem-total x [] = refl
  mem-total x (y ∷ ys) = ground (arith, mem-total x ys)

  mem-same :
      (x : ℕ) (xs ys : List ℕ) → ((w : ℕ → ℕ) → total w xs ≡ total w ys + 0) → mem x xs ≡ mem x ys
  mem-same x xs ys h =
      mem-total x xs
      ∙ ap (ltb 0) (omega (arith, h (λ y. if x == y then 1 else 0)))
      ∙ sym (mem-total x ys)

  items_within-IsRead :
      (n c : ℕ) (ws : List ℕ)
      → IsListing s (s.things c).item_list ws
      → length ws ≤ n
      → IsRead (items_within n s c) ws []
  unfolding items_within begin visit
  items_within-IsRead n c ws l h = elim (Bool-cases (is_empty (s.things c).item_list)) [
    | inl bare ↦ ([], rw bare refl, λ w. omega (arith, total-bare w _ ws l bare))
    | inr filled ↦ rw filled (
        visit-IsSteps n c [] (s.things c).item_list ws [] filled l done
          (omega (arith, total-one ws)))
  ]

-- Where what a container holds, directly and in containers within it, is listed by recursion, the
-- loops from `begin` to `end` end within as many steps as the list is long: the holding count is
-- the length of the list, and an item is held just when the list has it.
pub holding_count-IsListing :
    (s : Store) (n c : ℕ) (ws : List ℕ)
    → IsListing s (s.things c).item_list ws
    → length ws ≤ n
    → (get_item_holding_count n s c ≡ some (length ws))
      × ((x : ℕ) → is_holding_item n s c x ≡ some (mem x ws))
unfolding get_item_holding_count is_holding_item
holding_count-IsListing s n c ws l h =
    let read = items_within-IsRead s n c ws l h in
    (
      rw (get_item_holding_count, read.1)
          (ap some (omega (arith, read.2 one, total-one s ws, total-one s read.0))),
      λ x. rw (is_holding_item, read.1) (ap some (mem-same s x read.0 ws read.2)),
    )
