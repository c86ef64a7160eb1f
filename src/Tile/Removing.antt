-- ===== src/Tile/Removing.antt =====
-- The shape of a tile that things leave.
use darghos_tfs04_86_v.Base.{
  ℕ, suc, ◌≡◌, refl, ◌∙◌, ap, Bool, true, false, not, ◌&&◌, List, [], ◌∷◌, length, all, mem, remove,
  ◌==◌, if◌then◌else◌, arith, Bool-cases, Option-cases, inl, inr, ==_iff, mem-remove,
  distinct-remove,
}
use darghos_tfs04_86_v.Tile.{Thing, Tile, is_ground_of, ground_size}
use darghos_tfs04_86_v.Tile.Changes.{remove_ground, remove_top, remove_down, remove_creature}
use darghos_tfs04_86_v.Tile.Order.{
  View, is_top, is_down, is_creature, below_all, ordered, down_items-split, top_items-split,
  items_absent,
}

pub all-remove : (p : ℕ → Bool) (x : ℕ) (xs : List ℕ) → all p xs ≡ true → all p (remove x xs) ≡ true
all-remove p x [] h = refl
all-remove p x (y ∷ ys) h = ground (arith, all-remove p x ys)

below_all-remove :
    (things : ℕ → Thing) (o x : ℕ) (xs : List ℕ)
    → below_all things o xs ≡ true
    → below_all things o (remove x xs) ≡ true
below_all-remove things o x [] h = refl
below_all-remove things o x (y ∷ ys) h = ground (arith, below_all-remove things o x ys)

ordered-remove :
    (things : ℕ → Thing) (x : ℕ) (xs : List ℕ)
    → ordered things xs ≡ true
    → ordered things (remove x xs) ≡ true
ordered-remove things x [] h = refl
ordered-remove things x (y ∷ ys) h =
    ground (arith, ordered-remove things x ys, below_all-remove things (things y).top_order x ys)

length-remove : (x : ℕ) (xs : List ℕ) → mem x xs ≡ true → suc (length (remove x xs)) ≡ length xs
length-remove x [] h = cc
length-remove x (y ∷ ys) h = ground (arith, length-remove x ys)

pub all-mem : (p : ℕ → Bool) (x : ℕ) (xs : List ℕ) → all p xs ≡ true → mem x xs ≡ true → p x ≡ true
all-mem p x [] h k = cc
all-mem p x (y ∷ ys) h k = elim (Bool-cases (x == y)) [
  | inl same ↦ let e : x ≡ y = ground arith in ap p e ∙ ground arith
  | inr other ↦ all-mem p x ys (ground arith) (ground arith)
]

pub own_ground :
    (t : Tile) (x : ℕ)
    → is_ground_of t x ≡ true
    → (ground_size t ≡ 1) × ((y : ℕ) → is_ground_of t y ≡ (x == y))
own_ground t x h = elim (Option-cases t.ground) [
  | inl bare ↦ let no = rw bare at h in cc
  | inr (g, e) ↦ let same : (g == x) ≡ true = rw e at h in (rw e refl, λ y. rw e (ground arith))
]

module _ (things : ℕ → Thing) (t : Tile) (down top : List ℕ) (v : View things t down top)
    (x : ℕ) where
  pub top_apart : mem x top ≡ true → (mem x down ≡ false) × (is_ground_of t x ≡ false)
  top_apart h =
      let kind = all-mem (is_top things) x top v.tops h in
      (
        items_absent (is_down things) down x v.downs (ground arith),
        ground (arith, kind, v.grounds x),
      )

  pub down_apart : mem x down ≡ true → (mem x top ≡ false) × (is_ground_of t x ≡ false)
  down_apart h =
      let kind = all-mem (is_down things) x down v.downs h in
      (items_absent (is_top things) top x v.tops (ground arith), ground (arith, kind, v.grounds x))

  pub ground_apart : is_ground_of t x ≡ true → (mem x down ≡ false) × (mem x top ≡ false)
  ground_apart h =
      let kind = v.grounds x h in
      (
        items_absent (is_down things) down x v.downs (ground arith),
        items_absent (is_top things) top x v.tops (ground arith),
      )

module _ (things : ℕ → Thing) (t : Tile) (down top : List ℕ) (v : View things t down top)
    (x : ℕ) where
  pub remove_creature-View : View things (remove_creature t x) down top
  unfolding remove_creature
  remove_creature-View = elim (Bool-cases (mem x t.creatures)) [
    | inr absent ↦ rw (remove_creature, absent) v
    | inl stands ↦
        rw (remove_creature, stands)
          record {
            split = v.split;
            down_count = v.down_count;
            downs = v.downs;
            tops = v.tops;
            standing = all-remove (is_creature things) x t.creatures v.standing;
            grounds = v.grounds;
            in_order = v.in_order;
            once_down = v.once_down;
            once_top = v.once_top;
            once_creatures = distinct-remove x t.creatures v.once_creatures;
            counted = omega (arith, v.counted, length-remove x t.creatures stands);
            parents = v.parents;
          }
  ]

  pub remove_ground-View : is_ground_of t x ≡ true → View things (remove_ground t x) down top
  unfolding remove_ground
  remove_ground-View h = record {
    split = v.split;
    down_count = v.down_count;
    downs = v.downs;
    tops = v.tops;
    standing = v.standing;
    grounds = λ y e. cc;
    in_order = v.in_order;
    once_down = v.once_down;
    once_top = v.once_top;
    once_creatures = v.once_creatures;
    counted = omega (arith, v.counted, (own_ground t x h).0);
    parents = λ y i. ground (
      arith,
      v.parents y,
      ground_apart things t down top v x h,
      (own_ground t x h).1 y,
      ==_iff y x,
    );
  }

  pub remove_top-View : mem x top ≡ true → View things (remove_top t x) down (remove x top)
  unfolding remove_top
  remove_top-View h =
      let tops = top_items-split t down top v.split v.down_count in
      let downs = down_items-split t down top v.split v.down_count in
      rw (remove_top, tops, downs, h)
        record {
          split = refl;
          down_count = v.down_count;
          downs = v.downs;
          tops = all-remove (is_top things) x top v.tops;
          standing = v.standing;
          grounds = v.grounds;
          in_order = ordered-remove things x top v.in_order;
          once_down = v.once_down;
          once_top = distinct-remove x top v.once_top;
          once_creatures = v.once_creatures;
          counted = omega (arith, v.counted, length-remove x top h);
          parents = λ y i. ground (
            arith,
            v.parents y,
            top_apart things t down top v x h,
            mem-remove y x top v.once_top,
            ==_iff y x,
          );
        }

  pub remove_down-View :
      (count : ℕ)
      → mem x down ≡ true
      → View things
          (remove_down things t x count)
          (if (things x).stackable && not (count == t.counts x) then down else remove x down)
          top
  unfolding remove_down
  remove_down-View count h =
      let tops = top_items-split t down top v.split v.down_count in
      let downs = down_items-split t down top v.split v.down_count in
      elim (Bool-cases ((things x).stackable && not (count == t.counts x))) [
        | inl part ↦
            rw (remove_down, downs, h, part)
              record {
                split = v.split;
                down_count = v.down_count;
                downs = v.downs;
                tops = v.tops;
                standing = v.standing;
                grounds = v.grounds;
                in_order = v.in_order;
                once_down = v.once_down;
                once_top = v.once_top;
                once_creatures = v.once_creatures;
                counted = v.counted;
                parents = v.parents;
              }
        | inr whole ↦
            rw (remove_down, tops, downs, h, whole)
              record {
                split = refl;
                down_count = omega (arith, v.down_count, length-remove x down h);
                downs = all-remove (is_down things) x down v.downs;
                tops = v.tops;
                standing = v.standing;
                grounds = v.grounds;
                in_order = v.in_order;
                once_down = distinct-remove x down v.once_down;
                once_top = v.once_top;
                once_creatures = v.once_creatures;
                counted = omega (arith, v.counted, length-remove x down h);
                parents = λ y i. ground (
                  arith,
                  v.parents y,
                  down_apart things t down top v x h,
                  mem-remove y x down v.once_down,
                  ==_iff y x,
                );
              }
      ]
