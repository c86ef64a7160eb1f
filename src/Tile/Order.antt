-- ===== src/Tile/Order.antt =====
-- The shape of a tile, and the order of all that is on it, from the ground up to the last item.
use darghos_tfs04_86_v.Base.{
  ℕ, zero, suc, ◌+◌, ◌-◌, ◌≡◌, refl, sym, ◌∙◌, ap, Bool, true, false, not, ◌&&◌, ◌||◌, none, some,
  List, [], ◌∷◌, ◌++◌, length, get_elem?, all, mem, distinct, ltb, leb, ◌==◌, if◌then◌else◌, arith,
  Bool-cases, Option-cases, inl, inr, ==_iff, take-length, drop-length,
}
use darghos_tfs04_86_v.Tile.{
  Thing, Tile, down_items, top_items, is_ground_of, ground_size, index_in, or_else, index_above,
  get_index_of_thing, thing_above, get_thing,
}

abbrev pub is_down : (ℕ → Thing) → ℕ → Bool
is_down things x = (things x).get_item && not (things x).always_on_top && not (things x).is_ground

abbrev pub is_top : (ℕ → Thing) → ℕ → Bool
is_top things x = (things x).get_item && (things x).always_on_top && not (things x).is_ground

abbrev pub is_creature : (ℕ → Thing) → ℕ → Bool
is_creature things x = not (things x).get_item

-- No order is above that of the items behind.
abbrev pub below_all : (ℕ → Thing) → ℕ → List ℕ → Bool
below_all things o [] = true
below_all things o (y ∷ ys) = leb o (things y).top_order && below_all things o ys

abbrev pub ordered : (ℕ → Thing) → List ℕ → Bool
ordered things [] = true
ordered things (y ∷ ys) = below_all things (things y).top_order ys && ordered things ys

-- The shape of a tile, whose items are those below and those on top.
pub record View (things : ℕ → Thing) (t : Tile) (down top : List ℕ) : Type 0 where
  pub split : t.items ≡ down ++ top
  pub down_count : t.down_item_count ≡ length down
  pub downs : all (is_down things) down ≡ true
  pub tops : all (is_top things) top ≡ true
  pub standing : all (is_creature things) t.creatures ≡ true
  pub grounds :
      (x : ℕ) → is_ground_of t x ≡ true → ((things x).get_item && (things x).is_ground) ≡ true
  pub in_order : ordered things top ≡ true
  pub once_down : distinct down ≡ true
  pub once_top : distinct top ≡ true
  pub once_creatures : distinct t.creatures ≡ true
  pub counted : t.thing_count ≡ ground_size t + length down + length top + length t.creatures
  pub parents :
      (x : ℕ)
      → (things x).get_item ≡ true
      → t.is_here x ≡ (is_ground_of t x || mem x down || mem x top)

module _ (t : Tile) (down top : List ℕ) (split : t.items ≡ down ++ top)
    (count : t.down_item_count ≡ length down) where
  pub down_items-split : down_items t ≡ down
  down_items-split = rw (split, count) (take-length down top)

  pub top_items-split : top_items t ≡ top
  top_items-split = rw (split, count) (drop-length down top)

-- All that is on the tile, from the ground up.
abbrev pub stack : Tile → List ℕ → List ℕ → List ℕ
stack t down top = elim t.ground [
  | none ↦ top ++ (t.creatures ++ down)
  | some g ↦ g ∷ (top ++ (t.creatures ++ down))
]

get_elem?-left :
    (xs ys : List ℕ) (i : ℕ) → ltb i (length xs) ≡ true → get_elem? (xs ++ ys) i ≡ get_elem? xs i
get_elem?-left [] ys i h = ground arith
get_elem?-left (x ∷ xs) ys zero h = refl
get_elem?-left (x ∷ xs) ys (suc i) h = get_elem?-left xs ys i (ground arith)

get_elem?-right :
    (xs ys : List ℕ) (i : ℕ)
    → ltb i (length xs) ≡ false
    → get_elem? (xs ++ ys) i ≡ get_elem? ys (i - length xs)
get_elem?-right [] ys i h = ap (get_elem? ys) (omega arith)
get_elem?-right (x ∷ xs) ys zero h = absurd (ground arith)
get_elem?-right (x ∷ xs) ys (suc i) h =
    get_elem?-right xs ys i (ground arith) ∙ ap (get_elem? ys) (omega arith)

get_elem?-past : (xs : List ℕ) (i : ℕ) → ltb i (length xs) ≡ false → get_elem? xs i ≡ none
get_elem?-past [] i h = refl
get_elem?-past (x ∷ xs) zero h = ground arith
get_elem?-past (x ∷ xs) (suc i) h = get_elem?-past xs i (ground arith)

index_in-append :
    (n : ℕ) (xs ys : List ℕ) (x : ℕ)
    → index_in n (xs ++ ys) x ≡ or_else (index_in n xs x) (index_in (n + length xs) ys x)
unfolding index_in
index_in-append n [] ys x = ap (λ (m : ℕ). index_in m ys x) (omega arith)
index_in-append n (z ∷ xs) ys x = elim (Bool-cases (z == x)) [
  | inl found ↦ rw found refl
  | inr other ↦ rw other (
      index_in-append (suc n) xs ys x
      ∙ ap (λ (m : ℕ). or_else (index_in (suc n) xs x) (index_in m ys x)) (omega arith))
]

index_in_absent : (n : ℕ) (xs : List ℕ) (x : ℕ) → mem x xs ≡ false → index_in n xs x ≡ none
unfolding index_in
index_in_absent n [] x h = refl
index_in_absent n (y ∷ ys) x h =
    ground (arith, index_in_absent (suc n) ys x, ==_iff x y, ==_iff y x)

pub items_absent :
    (p : ℕ → Bool) (xs : List ℕ) (x : ℕ) → all p xs ≡ true → p x ≡ false → mem x xs ≡ false
items_absent p [] x h k = refl
items_absent p (y ∷ ys) x h k = elim (Bool-cases (x == y)) [
  | inl same ↦ let e : x ≡ y = ground arith in absurd (ground (arith, ap p e))
  | inr other ↦ ground (arith, items_absent p ys x)
]

module _ (things : ℕ → Thing) (t : Tile) (down top : List ℕ) (v : View things t down top) where
  item_at-top : (i : ℕ) → get_elem? t.items (t.down_item_count + i) ≡ get_elem? top i
  item_at-top i =
      rw (v.split, v.down_count)
        (get_elem?-right down top (length down + i) (ground arith)
          ∙ ap (get_elem? top) (omega arith))

  item_at-down :
      (k : ℕ) → (if ltb k t.down_item_count then get_elem? t.items k else none) ≡ get_elem? down k
  item_at-down k = elim (Bool-cases (ltb k (length down))) [
    | inl inside ↦ rw (v.split, v.down_count, inside) (get_elem?-left down top k inside)
    | inr past ↦ rw (v.down_count, past) (sym (get_elem?-past down k past))
  ]

  thing_above-stack : (i : ℕ) → thing_above t i ≡ get_elem? (top ++ (t.creatures ++ down)) i
  unfolding thing_above
  thing_above-stack i = elim (Bool-cases (ltb i (length top))) [
    | inl on_top ↦
        rw (thing_above, top_items-split t down top v.split v.down_count, on_top)
          (item_at-top i ∙ sym (get_elem?-left top (t.creatures ++ down) i on_top))
    | inr below ↦ elim (Bool-cases (ltb (i - length top) (length t.creatures))) [
      | inl stands ↦
          rw (thing_above, top_items-split t down top v.split v.down_count, below, stands)
            (sym (
              get_elem?-right top (t.creatures ++ down) i below
              ∙ get_elem?-left t.creatures down (i - length top) stands))
      | inr lies ↦
          rw (thing_above, top_items-split t down top v.split v.down_count, below, lies)
            (item_at-down (i - length top - length t.creatures)
              ∙ sym (
                  get_elem?-right top (t.creatures ++ down) i below
                  ∙ get_elem?-right t.creatures down (i - length top) lies))
    ]
  ]

  on_ground :
      (g i : ℕ)
      → (if i == 0 then some g else thing_above t (i - 1))
        ≡ get_elem? (g ∷ (top ++ (t.creatures ++ down))) i
  on_ground g zero = refl
  on_ground g (suc i) =
      let e : (suc i == 0) ≡ false = ground arith in
      let d : suc i - 1 ≡ i = omega arith in rw (e, d) (thing_above-stack i)

  -- `__getThing` gives the things in the order of the stack.
  pub get_thing-stack : (i : ℕ) → get_thing t i ≡ get_elem? (stack t down top) i
  unfolding get_thing
  get_thing-stack i = elim (Option-cases t.ground) [
    | inl bare ↦ rw (get_thing, bare) (thing_above-stack i)
    | inr (g, e) ↦ rw (get_thing, e) (on_ground g i)
  ]

  index_above-stack :
      (n x : ℕ) → index_above things t n x ≡ index_in n (top ++ (t.creatures ++ down)) x
  unfolding index_above
  index_above-stack n x =
      let tops = top_items-split t down top v.split v.down_count in
      let downs = down_items-split t down top v.split v.down_count in
      let whole = index_in-append n top (t.creatures ++ down) x in
      let rest = index_in-append (n + length top) t.creatures down x in
      elim (Bool-cases (things x).get_item) [
        | inl item ↦ rw (index_above, item, tops, downs, whole, rest) refl
        | inr other ↦
            let no_top =
              index_in_absent n top x (items_absent (is_top things) top x v.tops (ground arith)) in
            let no_down =
              index_in_absent (n + length top + length t.creatures) down x
                (items_absent (is_down things) down x v.downs (ground arith)) in
            rw (index_above, other, tops, whole, rest, no_top, no_down) refl
      ]

  -- `__getIndexOfThing` gives the place in the stack.
  pub get_index_of_thing-stack :
      (x : ℕ) → get_index_of_thing things t x ≡ index_in 0 (stack t down top) x
  unfolding get_index_of_thing index_in
  get_index_of_thing-stack x = elim (Option-cases t.ground) [
    | inl bare ↦ rw (get_index_of_thing, bare) (index_above-stack 0 x)
    | inr (g, e) ↦
        rw (get_index_of_thing, e) (ap (λ o. if g == x then some 0 else o) (index_above-stack 1 x))
  ]
