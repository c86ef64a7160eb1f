-- ===== src/Tile/Adding.antt =====
-- The shape of a tile that things come to.
use darghos_tfs04_86_v.Base.{
  ℕ, suc, ◌≤◌, ◌≡◌, refl, ap, subst, Bool, true, false, ◌&&◌, ◌||◌, none, some, List, [], ◌∷◌,
  length, all, mem, distinct, leb, ◌==◌, arith, Bool-cases, Option-cases, inl, inr, ==_iff,
}
use darghos_tfs04_86_v.Tile.{Thing, Tile, is_ground_of, ground_size}
use darghos_tfs04_86_v.Tile.Changes.{
  set_here, add_creature, add_ground, insert_top, add_top, add_down,
}
use darghos_tfs04_86_v.Tile.Order.{
  View, is_top, is_down, below_all, ordered, down_items-split, top_items-split,
}
use darghos_tfs04_86_v.Tile.Removing.{ground_apart}

mem-insert_top :
    (things : ℕ → Thing) (x y : ℕ) (ys : List ℕ)
    → mem y (insert_top things x ys) ≡ (y == x || mem y ys)
unfolding insert_top
mem-insert_top things x y [] = refl
mem-insert_top things x y (z ∷ zs) = ground (arith, mem-insert_top things x y zs)

all-insert_top :
    (things : ℕ → Thing) (p : ℕ → Bool) (x : ℕ) (ys : List ℕ)
    → p x ≡ true
    → all p ys ≡ true
    → all p (insert_top things x ys) ≡ true
unfolding insert_top
all-insert_top things p x [] h k = ground arith
all-insert_top things p x (z ∷ zs) h k = ground (arith, all-insert_top things p x zs h)

length-insert_top :
    (things : ℕ → Thing) (x : ℕ) (ys : List ℕ) → length (insert_top things x ys) ≡ suc (length ys)
unfolding insert_top
length-insert_top things x [] = refl
length-insert_top things x (z ∷ zs) = ground (arith, length-insert_top things x zs)

distinct-insert_top :
    (things : ℕ → Thing) (x : ℕ) (ys : List ℕ)
    → mem x ys ≡ false
    → distinct ys ≡ true
    → distinct (insert_top things x ys) ≡ true
unfolding insert_top
distinct-insert_top things x [] h k = refl
distinct-insert_top things x (z ∷ zs) h k =
    ground
      (arith, distinct-insert_top things x zs, mem-insert_top things x z zs, ==_iff x z, ==_iff z x)

below_all-insert_top :
    (things : ℕ → Thing) (o x : ℕ) (ys : List ℕ)
    → below_all things o (insert_top things x ys)
      ≡ (leb o (things x).top_order && below_all things o ys)
unfolding insert_top
below_all-insert_top things o x [] = refl
below_all-insert_top things o x (z ∷ zs) = ground (arith, below_all-insert_top things o x zs)

below_all_trans :
    (things : ℕ → Thing) (a b : ℕ) (ys : List ℕ)
    → a ≤ b
    → below_all things b ys ≡ true
    → below_all things a ys ≡ true
below_all_trans things a b [] h k = refl
below_all_trans things a b (z ∷ zs) h k = ground (arith, below_all_trans things a b zs)

ordered-insert_top :
    (things : ℕ → Thing) (x : ℕ) (ys : List ℕ)
    → ordered things ys ≡ true
    → ordered things (insert_top things x ys) ≡ true
unfolding insert_top
ordered-insert_top things x [] h = refl
ordered-insert_top things x (z ∷ zs) h = ground (
  arith,
  ordered-insert_top things x zs,
  below_all-insert_top things (things z).top_order x zs,
  below_all_trans things (things x).top_order (things z).top_order zs,
)

-- A new thing on a tile of the right shape.
module _ (things : ℕ → Thing) (t : Tile) (down top : List ℕ) (v : View things t down top) (x : ℕ)
    (no_down : mem x down ≡ false) (no_top : mem x top ≡ false)
    (no_ground : is_ground_of t x ≡ false) where
  pub add_creature-View :
      (things x).get_item ≡ false
      → mem x t.creatures ≡ false
      → View things (add_creature t x) down top
  unfolding add_creature
  add_creature-View h new = record {
    split = v.split;
    down_count = v.down_count;
    downs = v.downs;
    tops = v.tops;
    standing = ground (arith, v.standing);
    grounds = v.grounds;
    in_order = v.in_order;
    once_down = v.once_down;
    once_top = v.once_top;
    once_creatures = ground (arith, v.once_creatures);
    counted = omega (arith, v.counted);
    parents = λ y i. elim (Bool-cases (y == x)) [
      | inl same ↦
          let e : y ≡ x = ground arith in absurd (ground (arith, ap (λ z. (things z).get_item) e))
      | inr other ↦ rw other (v.parents y i)
    ];
  }

  pub add_down-View :
      is_down things x ≡ true → View things (add_down (set_here t x true) x) (x ∷ down) top
  unfolding add_down
  add_down-View h = record {
    split = ap (◌∷◌ x) v.split;
    down_count = omega (arith, v.down_count);
    downs = ground (arith, v.downs);
    tops = v.tops;
    standing = v.standing;
    grounds = v.grounds;
    in_order = v.in_order;
    once_down = ground (arith, v.once_down);
    once_top = v.once_top;
    once_creatures = v.once_creatures;
    counted = omega (arith, v.counted);
    parents = λ y i. ground (arith, v.parents y, ==_iff y x);
  }

  pub add_top-View :
      is_top things x ≡ true
      → View things (add_top things (set_here t x true) x) down (insert_top things x top)
  unfolding add_top
  add_top-View h = record {
    split =
        rw
          (
            top_items-split t down top v.split v.down_count,
            down_items-split t down top v.split v.down_count,
          )
          refl;
    down_count = v.down_count;
    downs = v.downs;
    tops = all-insert_top things (is_top things) x top h v.tops;
    standing = v.standing;
    grounds = v.grounds;
    in_order = ordered-insert_top things x top v.in_order;
    once_down = v.once_down;
    once_top = distinct-insert_top things x top no_top v.once_top;
    once_creatures = v.once_creatures;
    counted = omega (arith, v.counted, length-insert_top things x top);
    parents = λ y i. ground (arith, v.parents y, mem-insert_top things x y top, ==_iff y x);
  }

  ground_kind :
      (y : ℕ)
      → ((things x).get_item && (things x).is_ground) ≡ true
      → (x == y) ≡ true
      → ((things y).get_item && (things y).is_ground) ≡ true
  ground_kind y h k =
      let same : x ≡ y = ground arith in
      subst (λ z. ((things z).get_item && (things z).is_ground) ≡ true) same h

  no_size : t.ground ≡ none → ground_size t ≡ 0
  no_size e = rw e refl

  one_size : (g : ℕ) → t.ground ≡ some g → ground_size t ≡ 1
  one_size g e = rw e refl

  no_own : t.ground ≡ none → (y : ℕ) → is_ground_of t y ≡ false
  no_own e y = rw e refl

  one_own : (g : ℕ) → t.ground ≡ some g → (y : ℕ) → is_ground_of t y ≡ (g == y)
  one_own g e y = rw e refl

  pub add_ground-View :
      ((things x).get_item && (things x).is_ground) ≡ true
      → View things (add_ground (set_here t x true) x) down top
  unfolding add_ground
  add_ground-View h = elim (Option-cases t.ground) [
    | inl bare ↦
        rw (add_ground, bare)
          record {
            split = v.split;
            down_count = v.down_count;
            downs = v.downs;
            tops = v.tops;
            standing = v.standing;
            grounds = λ y k. ground_kind y h k;
            in_order = v.in_order;
            once_down = v.once_down;
            once_top = v.once_top;
            once_creatures = v.once_creatures;
            counted = omega (arith, v.counted, no_size bare);
            parents = λ y i. ground (arith, v.parents y, no_own bare y, ==_iff x y, ==_iff y x);
          }
    | inr (g, e) ↦
        rw (add_ground, e)
          record {
            split = v.split;
            down_count = v.down_count;
            downs = v.downs;
            tops = v.tops;
            standing = v.standing;
            grounds = λ y k. ground_kind y h k;
            in_order = v.in_order;
            once_down = v.once_down;
            once_top = v.once_top;
            once_creatures = v.once_creatures;
            counted = omega (arith, v.counted, one_size g e);
            parents = λ y i. ground (
              arith,
              v.parents y,
              one_own g e y,
              ground_apart things t down top v y,
              ==_iff x y,
              ==_iff y x,
              ==_iff y g,
              ==_iff g y,
              one_own g e x,
            );
          }
  ]
