-- ===== src/Tile/Arrival.antt =====
-- `__addThing` on a tile of the right shape.
use darghos_tfs04_86_v.Base.{
  ℕ, ◌≡◌, ◌⊎◌, refl, sym, ◌∙◌, ap, subst, Bool, true, false, not, ◌&&◌, Option, none, some, List,
  [], ◌∷◌, length, mem, remove, leb, ◌==◌, arith, Bool-cases, Option-cases, inl, inr, ==_iff,
  mem-remove,
}
use darghos_tfs04_86_v.Tile.{Thing, Tile, down_items, top_items, is_ground_of, get_index_of_thing}
use darghos_tfs04_86_v.Tile.Changes.{
  set_here, remove_creature, remove_ground, remove_top, remove_down, remove_thing, first_splash,
  first_field, clear_splash, clear_field, add_top, add_down, insert_top, add_thing,
}
use darghos_tfs04_86_v.Tile.Order.{View, is_top, is_down, down_items-split, top_items-split}
use darghos_tfs04_86_v.Tile.Removing.{
  remove_creature-View, remove_ground-View, remove_top-View, remove_down-View,
}
use darghos_tfs04_86_v.Tile.Leaving.{top_kept, down_kept, creature_kept, top_absent, down_absent}
use darghos_tfs04_86_v.Tile.Adding.{add_creature-View, add_down-View, add_top-View, add_ground-View}
use darghos_tfs04_86_v.Tile.Coming.{remove_thing-set_here}

abbrev owns : Option ℕ → ℕ → Bool
owns g x = elim g [ none ↦ false | some z ↦ z == x ]

-- A thing is no item of a tile.
abbrev pub is_new : Tile → List ℕ → List ℕ → ℕ → Bool
is_new t down top x = not (mem x down) && not (mem x top) && not (is_ground_of t x)

-- A tile of the right shape where a thing is no item.
abbrev HasRoom : (ℕ → Thing) → ℕ → Tile → Type 0
HasRoom things x t =
    (down : List ℕ) × (top : List ℕ) × View things t down top × (is_new t down top x ≡ true)

module _ (things : ℕ → Thing) (t : Tile) (down top : List ℕ) (v : View things t down top) (x y : ℕ)
    (new : is_new t down top x ≡ true) where
  HasRoom-top : HasRoom things x (remove_top t y)
  HasRoom-top = elim (Bool-cases (mem y top)) [
    | inl held ↦ (
      down,
      remove y top,
      remove_top-View things t down top v y held,
      ground (
        arith,
        new,
        mem-remove x y top v.once_top,
        ap (λ g. owns g x) (top_kept things t down top v y),
      ),
    )
    | inr gone ↦
        subst (HasRoom things x) (sym (top_absent things t down top v y gone)) (down, top, v, new)
  ]

  HasRoom-down : (count : ℕ) → HasRoom things x (remove_down things t y count)
  HasRoom-down count = elim (Bool-cases (mem y down)) [
    | inl held ↦ (
      _,
      top,
      remove_down-View things t down top v y count held,
      ground (
        arith,
        new,
        mem-remove x y down v.once_down,
        ap (λ g. owns g x) (down_kept things t down top v y count),
      ),
    )
    | inr gone ↦
        subst (HasRoom things x) (sym (down_absent things t down top v y count gone))
          (down, top, v, new)
  ]

  HasRoom-creature : HasRoom things x (remove_creature t y)
  HasRoom-creature = (
    down,
    top,
    remove_creature-View things t down top v y,
    ground (arith, new, ap (λ g. owns g x) (creature_kept things t down top v y)),
  )

  HasRoom-ground : is_ground_of t y ≡ true → HasRoom things x (remove_ground t y)
  unfolding remove_ground
  HasRoom-ground own =
      (down, top, remove_ground-View things t down top v y own, ground (arith, new))

  HasRoom-remove_thing : (count : ℕ) → HasRoom things x (remove_thing things t y count)
  unfolding remove_thing
  HasRoom-remove_thing count = elim (Bool-cases (things y).get_item) [
    | inr other ↦ rw (remove_thing, other) HasRoom-creature
    | inl item ↦ elim (Option-cases (get_index_of_thing things t y)) [
      | inl nowhere ↦ rw (remove_thing, item, nowhere) (down, top, v, new)
      | inr (i, at) ↦ elim (Bool-cases (is_ground_of t y)) [
        | inl own ↦ rw (remove_thing, item, at, own) (HasRoom-ground own)
        | inr off ↦ elim (Bool-cases (things y).always_on_top) [
          | inl on_top ↦ rw (remove_thing, item, at, off, on_top) HasRoom-top
          | inr below ↦ rw (remove_thing, item, at, off, below) (HasRoom-down count)
        ]
      ]
    ]
  ]

first_splash-mem :
    (things : ℕ → Thing) (ys : List ℕ) (y : ℕ) → first_splash things ys ≡ some y → mem y ys ≡ true
unfolding first_splash
first_splash-mem things [] y h = cc
first_splash-mem things (z ∷ zs) y h = ground (arith, first_splash-mem things zs y, ==_iff y z)

first_field-mem :
    (things : ℕ → Thing) (ys : List ℕ) (y : ℕ) (replacable : Bool)
    → first_field things ys ≡ some (y, replacable)
    → mem y ys ≡ true
unfolding first_field
first_field-mem things [] y r h = cc
first_field-mem things (z ∷ zs) y r h = elim (Option-cases (things z).field) [
  | inl no_field ↦
      let rest = first_field-mem things zs y r (rw (first_field, no_field) at h) in ground arith
  | inr (b, e) ↦ let found = rw (first_field, e) at h in ground (arith, found, ==_iff y z)
]

absent-ne : (x y : ℕ) (ys : List ℕ) → mem x ys ≡ false → mem y ys ≡ true → (y == x) ≡ false
absent-ne x y [] h k = cc
absent-ne x y (z ∷ zs) h k = ground (arith, absent-ne x y zs, ==_iff x z, ==_iff y z, ==_iff y x)

module _ (things : ℕ → Thing) (t : Tile) (down top : List ℕ) (v : View things t down top) (x : ℕ)
    (new : is_new t down top x ≡ true) where
  -- A tile with room, where the parent of the thing is already set.
  abbrev IsCleared : Tile → Type 0
  IsCleared after = (cleared : Tile) × (after ≡ set_here cleared x true) × HasRoom things x cleared

  IsCleared-same : IsCleared (set_here t x true)
  IsCleared-same = (t, refl, (down, top, v, new))

  IsCleared-remove :
      (y : ℕ) → (y == x) ≡ false → IsCleared (remove_thing things (set_here t x true) y 1)
  IsCleared-remove y e = (
    remove_thing things t y 1,
    remove_thing-set_here things t x y e 1,
    HasRoom-remove_thing things t down top v x y new 1,
  )

  clear_splash-IsCleared : IsCleared (clear_splash things (set_here t x true) x)
  unfolding clear_splash
  clear_splash-IsCleared = elim (Bool-cases (things x).is_splash) [
    | inr dry ↦ rw (clear_splash, dry) IsCleared-same
    | inl splash ↦ elim (Option-cases (first_splash things (top_items t))) [
      | inl none_there ↦ rw (clear_splash, splash, none_there) IsCleared-same
      | inr (y, e) ↦
          let held : mem y top ≡ true = first_splash-mem things top y (
            sym (ap (first_splash things) (top_items-split t down top v.split v.down_count)) ∙ e) in
          rw (clear_splash, splash, e) (IsCleared-remove y (absent-ne x y top (ground arith) held))
    ]
  ]

  clear_field-IsCleared :
      (clear_field things (set_here t x true) x ≡ none)
      ⊎ ((c : Tile) × (clear_field things (set_here t x true) x ≡ some c) × IsCleared c)
  unfolding clear_field
  clear_field-IsCleared = elim (Option-cases (things x).field) [
    | inl plain ↦ inr (set_here t x true, rw (clear_field, plain) refl, IsCleared-same)
    | inr (b, f) ↦ elim (Option-cases (first_field things (down_items t))) [
      | inl none_there ↦
          inr (set_here t x true, rw (clear_field, f, none_there) refl, IsCleared-same)
      | inr ((y, replacable), e) ↦
          let held : mem y down ≡ true = first_field-mem things down y replacable (
            sym (ap (first_field things) (down_items-split t down top v.split v.down_count)) ∙ e) in
          elim (Bool-cases replacable) [
            | inl yields ↦ inr (
              remove_thing things (set_here t x true) y 1,
              rw (clear_field, f, e, yields) refl,
              IsCleared-remove y (absent-ne x y down (ground arith) held),
            )
            | inr stays ↦ inl (rw (clear_field, f, e, stays) refl)
          ]
    ]
  ]

  -- The thing's parent is unset.
  unset-View : View things (set_here t x false) down top
  unset-View = record {
    split = v.split;
    down_count = v.down_count;
    downs = v.downs;
    tops = v.tops;
    standing = v.standing;
    grounds = v.grounds;
    in_order = v.in_order;
    once_down = v.once_down;
    once_top = v.once_top;
    once_creatures = v.once_creatures;
    counted = v.counted;
    parents = λ y i. elim (Bool-cases (y == x)) [
      | inl same ↦
          let e : x ≡ y = ground (arith, ==_iff y x) in
          let absent = subst (λ z. is_new t down top z ≡ true) e new in
          rw same (ground (arith, absent))
      | inr other ↦ rw other (v.parents y i)
    ];
  }

-- A tile of the right shape.
abbrev pub HasShape : (ℕ → Thing) → Tile → Type 0
HasShape things t = (down : List ℕ) × (top : List ℕ) × View things t down top

module _ (things : ℕ → Thing) (x : ℕ) where
  arrive_top :
      (c : Tile)
      → is_top things x ≡ true
      → HasRoom things x c
      → HasShape things (add_top things (set_here c x true) x)
  arrive_top c h (down, top, v, new) = (
    down,
    insert_top things x top,
    add_top-View things c down top v x (ground arith) (ground arith) (ground arith) h,
  )

  arrive_down :
      (c : Tile)
      → is_down things x ≡ true
      → HasRoom things x c
      → HasShape things (add_down (set_here c x true) x)
  arrive_down c h (down, top, v, new) = (
    x ∷ down,
    top,
    add_down-View things c down top v x (ground arith) (ground arith) (ground arith) h,
  )

-- On a tile of the right shape, `__addThing` of a thing that is not on it leaves the right shape: the
-- items below and those on top stay apart, the latter in their order, nothing is there twice, the
-- number of things is right, and the items whose parent is the tile are those on it; also where an old
-- ground, splash or magic field makes room, where a magic field stays, or where the tile is full.
pub add_thing-HasShape :
    (things : ℕ → Thing) (t : Tile) (down top : List ℕ) (x : ℕ)
    → View things t down top
    → is_new t down top x ≡ true
    → mem x t.creatures ≡ false
    → HasShape things (add_thing things t x)
unfolding add_thing
add_thing-HasShape things t down top x v new away = elim (Bool-cases (things x).get_item) [
  | inr other ↦
      rw (add_thing, other)
        (
          down,
          top,
          add_creature-View things t down top v x (ground arith) (ground arith) (ground arith) other
              away,
        )
  | inl item ↦ elim (Bool-cases (leb 0xFFFF (length t.items))) [
    | inl crowded ↦ rw (add_thing, item, crowded) (down, top, v)
    | inr room ↦ elim (Bool-cases (things x).is_ground) [
      | inl floor ↦
          rw (add_thing, item, room, floor)
            (
              down,
              top,
              add_ground-View things t down top v x (ground arith) (ground arith) (ground arith)
                  (ground arith),
            )
      | inr no_floor ↦ elim (Bool-cases (things x).always_on_top) [
        | inl on_top ↦
            let (c, e, space) = clear_splash-IsCleared things t down top v x new in
            rw (add_thing, item, room, no_floor, on_top, e)
              (arrive_top things x c (ground arith) space)
        | inr below ↦ elim (clear_field-IsCleared things t down top v x new) [
          | inl stays ↦
              rw (add_thing, item, room, no_floor, below, stays)
                (down, top, unset-View things t down top v x new)
          | inr (after, some_after, (c, e, space)) ↦
              rw (add_thing, item, room, no_floor, below, some_after, e)
                (arrive_down things x c (ground arith) space)
        ]
      ]
    ]
  ]
]
