-- ===== src/Tile/Index.antt =====
-- Places on a tile: `__getIndexOfThing` and `__getThing` are each other's inverses.
use darghos_tfs04_86_v.Base.{
  ℕ, zero, suc, ◌+◌, ◌≡◌, ◌↔◌, refl, sym, ◌∙◌, ap, Bool, true, false, not, ◌&&◌, some, List, [],
  ◌∷◌, ◌++◌, get_elem?, all, mem, distinct, ◌==◌, arith, Bool-cases, Option-cases, inl, inr, ==_iff,
  ==_self, mem-append,
}
use darghos_tfs04_86_v.Tile.{Thing, Tile, index_in, get_index_of_thing, get_thing}
use darghos_tfs04_86_v.Tile.Order.{
  View, is_top, is_down, is_creature, stack, items_absent, get_thing-stack,
  get_index_of_thing-stack,
}

index_in-get_elem? :
    (n : ℕ) (xs : List ℕ) (x i : ℕ)
    → index_in n xs x ≡ some i
    → (k : ℕ) × (i ≡ n + k) × (get_elem? xs k ≡ some x)
unfolding index_in
index_in-get_elem? n [] x i h = cc
index_in-get_elem? n (y ∷ ys) x i h = elim (Bool-cases (y == x)) [
  | inl found ↦ (0, ground arith, ground (arith, ==_iff y x))
  | inr other ↦
      let rest = index_in-get_elem? (suc n) ys x i (ground arith) in
      (suc rest.0, omega (arith, rest.1), rest.2)
]

get_elem?-mem : (xs : List ℕ) (x k : ℕ) → get_elem? xs k ≡ some x → mem x xs ≡ true
get_elem?-mem [] x k h = cc
get_elem?-mem (y ∷ ys) x zero h = ground (arith, ==_iff x y)
get_elem?-mem (y ∷ ys) x (suc k) h = ground (arith, get_elem?-mem ys x k)

get_elem?-index_in :
    (n : ℕ) (xs : List ℕ) (x k : ℕ)
    → distinct xs ≡ true
    → get_elem? xs k ≡ some x
    → index_in n xs x ≡ some (n + k)
unfolding index_in
get_elem?-index_in n [] x k d h = cc
get_elem?-index_in n (y ∷ ys) x zero d h = ground (arith, ==_iff y x)
get_elem?-index_in n (y ∷ ys) x (suc k) d h =
    let apart : (y == x) ≡ false = ground (arith, get_elem?-mem ys x k, ==_iff y x) in
    rw apart (get_elem?-index_in (suc n) ys x k (ground arith) h ∙ ap some (omega arith))

-- Two lists that a test tells apart.
distinct-append :
    (p : ℕ → Bool) (xs ys : List ℕ)
    → all p xs ≡ true
    → all (λ y. not (p y)) ys ≡ true
    → distinct xs ≡ true
    → distinct ys ≡ true
    → distinct (xs ++ ys) ≡ true
distinct-append p [] ys h k d e = e
distinct-append p (x ∷ xs) ys h k d e =
    ground
      (arith, distinct-append p xs ys, mem-append x xs ys, items_absent (λ y. not (p y)) ys x k)

all-weaken :
    (p q : ℕ → Bool) (xs : List ℕ)
    → ((x : ℕ) → p x ≡ true → q x ≡ true)
    → all p xs ≡ true
    → all q xs ≡ true
all-weaken p q [] w h = refl
all-weaken p q (x ∷ xs) w h = ground (arith, all-weaken p q xs w, w x)

all-join :
    (p : ℕ → Bool) (xs ys : List ℕ) → all p xs ≡ true → all p ys ≡ true → all p (xs ++ ys) ≡ true
all-join p [] ys h k = k
all-join p (x ∷ xs) ys h k = ground (arith, all-join p xs ys)

module _ (things : ℕ → Thing) (t : Tile) (down top : List ℕ) (v : View things t down top) where
  distinct_above : distinct (top ++ (t.creatures ++ down)) ≡ true
  distinct_above =
      let below =
        distinct-append (is_creature things) t.creatures down v.standing
          (all-weaken (is_down things) (λ y. not (is_creature things y)) down (λ x h. ground arith)
            v.downs)
          v.once_creatures v.once_down in
      distinct-append (is_top things) top (t.creatures ++ down) v.tops
        (all-join (λ y. not (is_top things y)) t.creatures down
          (all-weaken (is_creature things) (λ y. not (is_top things y)) t.creatures
            (λ x h. ground arith) v.standing)
          (all-weaken (is_down things) (λ y. not (is_top things y)) down (λ x h. ground arith)
            v.downs))
        v.once_top below

  ground_apart : (g : ℕ) → t.ground ≡ some g → mem g (top ++ (t.creatures ++ down)) ≡ false
  ground_apart g e =
      let kind : ((things g).get_item && (things g).is_ground) ≡ true =
        v.grounds g (rw e (==_self g)) in
      ground (
        arith,
        mem-append g top (t.creatures ++ down),
        mem-append g t.creatures down,
        items_absent (is_top things) top g v.tops,
        items_absent (is_creature things) t.creatures g v.standing,
        items_absent (is_down things) down g v.downs,
      )

  distinct-stack : distinct (stack t down top) ≡ true
  distinct-stack = elim (Option-cases t.ground) [
    | inl bare ↦ rw bare distinct_above
    | inr (g, e) ↦ rw e (ground (arith, ground_apart g e, distinct_above))
  ]

-- On a tile of the right shape, a thing has an index just when `__getThing` gives it at that index.
pub get_index_of_thing-get_thing :
    (things : ℕ → Thing) (t : Tile) (down top : List ℕ)
    → View things t down top
    → (x i : ℕ) → (get_index_of_thing things t x ≡ some i) ↔ (get_thing t i ≡ some x)
get_index_of_thing-get_thing things t down top v x i =
    let index = get_index_of_thing-stack things t down top v x in
    let thing = get_thing-stack things t down top v i in
    (
      λ h.
          let at = index_in-get_elem? 0 (stack t down top) x i (sym index ∙ h) in
          thing ∙ ap (get_elem? (stack t down top)) (omega (arith, at.1)) ∙ at.2,
      λ h.
          index
          ∙ get_elem?-index_in 0 (stack t down top) x i (distinct-stack things t down top v)
              (sym thing ∙ h)
          ∙ ap some (omega arith),
    )
