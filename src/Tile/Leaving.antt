-- ===== src/Tile/Leaving.antt =====
-- `__removeThing` on the whole order of a tile.
use darghos_tfs04_86_v.Base.{
  ℕ, suc, ◌≡◌, refl, sym, subst, ◌∙◌, ap, true, false, not, ◌&&◌, ◌||◌, none, List, [], ◌∷◌, ◌++◌,
  mem, remove, ◌==◌, if◌then◌else◌, arith, Bool-cases, Option-cases, inl, inr, ==_iff, mem-append,
}
use darghos_tfs04_86_v.Tile.{Thing, Tile, is_ground_of, index_in, get_index_of_thing}
use darghos_tfs04_86_v.Tile.Changes.{
  remove_creature, remove_ground, remove_top, remove_down, remove_thing,
}
use darghos_tfs04_86_v.Tile.Order.{
  View, is_top, is_down, is_creature, stack, items_absent, get_index_of_thing-stack,
  top_items-split, down_items-split,
}
use darghos_tfs04_86_v.Tile.Removing.{
  top_apart, down_apart, remove_creature-View, remove_ground-View, remove_top-View,
  remove_down-View,
}

remove-left : (x : ℕ) (xs ys : List ℕ) → mem x xs ≡ true → remove x (xs ++ ys) ≡ remove x xs ++ ys
remove-left x [] ys h = cc
remove-left x (y ∷ xs) ys h = ground (arith, remove-left x xs ys)

remove-right : (x : ℕ) (xs ys : List ℕ) → mem x xs ≡ false → remove x (xs ++ ys) ≡ xs ++ remove x ys
remove-right x [] ys h = refl
remove-right x (y ∷ xs) ys h = ground (arith, remove-right x xs ys)

remove_absent : (x : ℕ) (xs : List ℕ) → mem x xs ≡ false → remove x xs ≡ xs
remove_absent x [] h = refl
remove_absent x (y ∷ xs) h = ground (arith, remove_absent x xs)

index_in-absent_mem : (n : ℕ) (xs : List ℕ) (x : ℕ) → index_in n xs x ≡ none → mem x xs ≡ false
unfolding index_in
index_in-absent_mem n [] x h = refl
index_in-absent_mem n (y ∷ ys) x h =
    ground (arith, index_in-absent_mem (suc n) ys x, ==_iff x y, ==_iff y x)

-- What the removal of a thing comes to.
abbrev pub IsRemoved : (ℕ → Thing) → Tile → List ℕ → List ℕ → ℕ → Tile → Type 0
IsRemoved things t down top x after =
    (down' : List ℕ) × (top' : List ℕ) × View things after down' top'
    × (stack after down' top' ≡ remove x (stack t down top))

module _ (things : ℕ → Thing) (t : Tile) (down top : List ℕ) (v : View things t down top)
    (x : ℕ) where
  mem-stack :
      mem x (stack t down top) ≡ (is_ground_of t x || mem x top || mem x t.creatures || mem x down)
  mem-stack = elim (Option-cases t.ground) [
    | inl bare ↦
        rw bare
          (ground (arith, mem-append x top (t.creatures ++ down), mem-append x t.creatures down))
    | inr (g, e) ↦ rw e (
        ground (
          arith,
          mem-append x top (t.creatures ++ down),
          mem-append x t.creatures down,
          ==_iff x g,
          ==_iff g x,
        ))
  ]

  IsRemoved-absent : mem x (stack t down top) ≡ false → IsRemoved things t down top x t
  IsRemoved-absent h = (down, top, v, sym (remove_absent x (stack t down top) h))

  -- The things above the ground lose one, which is not the ground.
  stack-remove :
      (after : Tile) (down' top' : List ℕ)
      → after.ground ≡ t.ground
      → is_ground_of t x ≡ false
      → top' ++ (after.creatures ++ down') ≡ remove x (top ++ (t.creatures ++ down))
      → stack after down' top' ≡ remove x (stack t down top)
  stack-remove after down' top' same apart e = elim (Option-cases t.ground) [
    | inl bare ↦ rw (same, bare) e
    | inr (g, k) ↦
        let differs : (g == x) ≡ false = rw k at apart in
        let other : (x == g) ≡ false = ground (arith, differs, ==_iff x g, ==_iff g x) in
        rw (same, k, other) (ap (◌∷◌ g) e)
  ]

  pub top_kept : (remove_top t x).ground ≡ t.ground
  unfolding remove_top
  top_kept = ground arith

  top_creatures : (remove_top t x).creatures ≡ t.creatures
  unfolding remove_top
  top_creatures = ground arith

  IsRemoved-top : mem x top ≡ true → IsRemoved things t down top x (remove_top t x)
  IsRemoved-top h = (
    down,
    remove x top,
    remove_top-View things t down top v x h,
    stack-remove (remove_top t x) down (remove x top) top_kept (top_apart things t down top v x h).1
        (rw top_creatures (sym (remove-left x top (t.creatures ++ down) h))),
  )

  creature_apart :
      (things x).get_item ≡ false
      → (mem x top ≡ false) × (mem x down ≡ false) × (is_ground_of t x ≡ false)
  creature_apart h = (
    items_absent (is_top things) top x v.tops (ground arith),
    items_absent (is_down things) down x v.downs (ground arith),
    ground (arith, v.grounds x),
  )

  pub creature_kept : (remove_creature t x).ground ≡ t.ground
  unfolding remove_creature
  creature_kept = ground arith

  creature_removed :
      mem x t.creatures ≡ true → (remove_creature t x).creatures ≡ remove x t.creatures
  unfolding remove_creature
  creature_removed h = rw (remove_creature, h) refl

  creature_absent : mem x t.creatures ≡ false → remove_creature t x ≡ t
  unfolding remove_creature
  creature_absent h = rw (remove_creature, h) refl

  IsRemoved-creature :
      (things x).get_item ≡ false → IsRemoved things t down top x (remove_creature t x)
  IsRemoved-creature h =
      let (no_top, no_down, no_ground) = creature_apart h in
      elim (Bool-cases (mem x t.creatures)) [
        | inl stands ↦ (
          down,
          top,
          remove_creature-View things t down top v x,
          stack-remove (remove_creature t x) down top creature_kept no_ground (
              rw (creature_removed stands) (
                sym (
                  remove-right x top (t.creatures ++ down) no_top
                  ∙ ap (◌++◌ top) (remove-left x t.creatures down stands)))),
        )
        | inr gone ↦
            subst (IsRemoved things t down top x) (sym (creature_absent gone))
              (IsRemoved-absent (ground (arith, mem-stack, no_top, no_down, no_ground, gone)))
      ]

  pub down_kept : (count : ℕ) → (remove_down things t x count).ground ≡ t.ground
  unfolding remove_down
  down_kept count = ground arith

  down_creatures : (count : ℕ) → (remove_down things t x count).creatures ≡ t.creatures
  unfolding remove_down
  down_creatures count = ground arith

  IsRemoved-down :
      (count : ℕ)
      → mem x down ≡ true
      → ((things x).stackable && not (count == t.counts x)) ≡ false
      → mem x t.creatures ≡ false
      → IsRemoved things t down top x (remove_down things t x count)
  IsRemoved-down count h whole gone =
      let (no_top, no_ground) = down_apart things t down top v x h in
      let view = remove_down-View things t down top v x count h in
      (
        remove x down,
        top,
        (rw whole at view),
        stack-remove (remove_down things t x count) (remove x down) top (down_kept count) no_ground
            (rw (down_creatures count) (
              sym (
                remove-right x top (t.creatures ++ down) no_top
                ∙ ap (◌++◌ top) (remove-right x t.creatures down gone)))),
      )

  IsRemoved-ground : is_ground_of t x ≡ true → IsRemoved things t down top x (remove_ground t x)
  unfolding remove_ground
  IsRemoved-ground h = (
    down,
    top,
    remove_ground-View things t down top v x h,
    elim (Option-cases t.ground) [
      | inl bare ↦ let no = rw bare at h in cc
      | inr (g, k) ↦
          let same : (g == x) ≡ true = rw k at h in
          let back : (x == g) ≡ true = ground (arith, same, ==_iff x g, ==_iff g x) in
          rw (k, back) refl
    ],
  )

  pub top_absent : mem x top ≡ false → remove_top t x ≡ t
  unfolding remove_top
  top_absent h = rw (remove_top, top_items-split t down top v.split v.down_count, h) refl

  pub down_absent : (count : ℕ) → mem x down ≡ false → remove_down things t x count ≡ t
  unfolding remove_down
  down_absent count h = rw (remove_down, down_items-split t down top v.split v.down_count, h) refl

  item_apart : (things x).get_item ≡ true → mem x t.creatures ≡ false
  item_apart h = items_absent (is_creature things) t.creatures x v.standing (ground arith)

  IsRemoved-item :
      (count : ℕ)
      → (things x).get_item ≡ true
      → is_ground_of t x ≡ false
      → ((things x).stackable && not (count == t.counts x)) ≡ false
      → IsRemoved things t down top x
          (if (things x).always_on_top then remove_top t x else remove_down things t x count)
  IsRemoved-item count item apart whole = elim (Bool-cases (things x).always_on_top) [
    | inl on_top ↦
        let no_down = items_absent (is_down things) down x v.downs (ground arith) in
        rw on_top (elim (Bool-cases (mem x top)) [
          | inl held ↦ IsRemoved-top held
          | inr gone ↦
              subst (IsRemoved things t down top x) (sym (top_absent gone)) (
                IsRemoved-absent (ground (arith, mem-stack, apart, gone, no_down, item_apart item)))
        ])
    | inr below ↦
        let no_top = items_absent (is_top things) top x v.tops (ground arith) in
        rw below (elim (Bool-cases (mem x down)) [
          | inl held ↦ IsRemoved-down count held whole (item_apart item)
          | inr gone ↦
              subst (IsRemoved things t down top x) (sym (down_absent count gone))
                (IsRemoved-absent (ground (arith, mem-stack, apart, gone, no_top, item_apart item)))
        ])
  ]

-- On a tile of the right shape, unless only a part of a stack is taken, `__removeThing` takes the
-- thing out of the order of the tile, where it is, leaves all else in its order, and leaves a tile of
-- the right shape.
pub remove_thing-IsRemoved :
    (things : ℕ → Thing) (t : Tile) (down top : List ℕ) (x count : ℕ)
    → View things t down top
    → ((things x).stackable && not (count == t.counts x)) ≡ false
    → IsRemoved things t down top x (remove_thing things t x count)
unfolding remove_thing
remove_thing-IsRemoved things t down top x count v whole = elim (Bool-cases (things x).get_item) [
  | inr other ↦ rw (remove_thing, other) (IsRemoved-creature things t down top v x other)
  | inl item ↦ elim (Option-cases (get_index_of_thing things t x)) [
    | inl nowhere ↦
        rw (remove_thing, item, nowhere)
          (IsRemoved-absent things t down top v x (
            index_in-absent_mem 0 (stack t down top) x
              (sym (get_index_of_thing-stack things t down top v x) ∙ nowhere)))
    | inr (i, at) ↦ elim (Bool-cases (is_ground_of t x)) [
      | inl own ↦ rw (remove_thing, item, at, own) (IsRemoved-ground things t down top v x own)
      | inr apart ↦
          rw (remove_thing, item, at, apart)
            (IsRemoved-item things t down top v x count item apart whole)
    ]
  ]
]
