-- ===== src/Container/Inv.antt =====
-- The shape of the store: lists and parents agree, and nothing lies in itself.
use darghos_tfs04_86_v.Base.{
  ℕ, ◌≡◌, ◌∙◌, Bool, true, false, ◌&&◌, Option, none, some, ◌∷◌, mem, remove, distinct, ◌==◌,
  if◌then◌else◌, arith, Bool-cases, inl, inr, ==_iff, mem-remove, distinct-remove,
}
use darghos_tfs04_86_v.Container.{Store, is_container, can_hold}
use darghos_tfs04_86_v.Container.Changes.{set_parent, set_items, push_front}

abbrev pub belongs : ℕ → Option ℕ → Bool
belongs c none = false
belongs c (some d) = c == d

-- The chain of parents of a thing ends.
pub data IsGrounded (s : Store) : ℕ → Type 0 where
  outermost : (x : ℕ) → (s.things x).parent ≡ none → IsGrounded s x
  within : (x c : ℕ) → (s.things x).parent ≡ some c → IsGrounded s c → IsGrounded s x

pub record Inv (s : Store) : Type 0 where
  pub agree :
      (c x : ℕ)
      → mem x (s.things c).item_list
        ≡ (is_container (s.things c).kind && belongs c (s.things x).parent)
  pub once : (c : ℕ) → distinct (s.things c).item_list ≡ true
  pub held : (c x : ℕ) → belongs c (s.things x).parent ≡ true → can_hold (s.things c).kind ≡ true
  pub grounded : (x : ℕ) → IsGrounded s x

-- The thing is not among the parents of another, nor this thing itself.
pub data IsOutside (s : Store) (x : ℕ) : ℕ → Type 0 where
  top : (y : ℕ) → (y == x) ≡ false → (s.things y).parent ≡ none → IsOutside s x y
  inner :
      (y c : ℕ)
      → (y == x) ≡ false
      → (s.things y).parent ≡ some c
      → IsOutside s x c
      → IsOutside s x y

module _ (s : Store) (c x : ℕ) where
  abbrev pub added : Store
  added = push_front s c x

  pub parent-added :
      (y : ℕ) → (added.things y).parent ≡ (if y == x then some c else (s.things y).parent)
  unfolding push_front
  parent-added y = ground (arith, ==_iff y c, ==_iff y x)

  IsOutside-IsGrounded : (y : ℕ) → IsOutside s x y → IsGrounded added y
  IsOutside-IsGrounded y (top _ e h) = outermost y (ground (arith, parent-added y))
  IsOutside-IsGrounded y (inner _ d e h o) =
      within y d (ground (arith, parent-added y)) (IsOutside-IsGrounded d o)

  IsGrounded-added : IsOutside s x c → (y : ℕ) → IsGrounded s y → IsGrounded added y
  IsGrounded-added o y (outermost _ h) = elim (Bool-cases (y == x)) [
    | inl same ↦ within y c (ground (arith, parent-added y)) (IsOutside-IsGrounded c o)
    | inr other ↦ outermost y (ground (arith, parent-added y))
  ]
  IsGrounded-added o y (within _ d h g) = elim (Bool-cases (y == x)) [
    | inl same ↦ within y c (ground (arith, parent-added y)) (IsOutside-IsGrounded c o)
    | inr other ↦ within y d (ground (arith, parent-added y)) (IsGrounded-added o d g)
  ]

  pub items-added :
      (d : ℕ)
      → (c == x) ≡ false
      → (added.things d).item_list
        ≡ (if d == c then x ∷ (s.things c).item_list else (s.things d).item_list)
  unfolding push_front
  items-added d h = ground (arith, ==_iff d c, ==_iff d x, ==_iff c x)

  kind-added : (d : ℕ) → (added.things d).kind ≡ (s.things d).kind
  unfolding push_front
  kind-added d = ground (arith, ==_iff d c, ==_iff d x)

IsOutside-ne : (s : Store) (x y : ℕ) → IsOutside s x y → (y == x) ≡ false
IsOutside-ne s x y (top _ e h) = e
IsOutside-ne s x y (inner _ d e h o) = e

-- An item that lies nowhere is put into a container that is outside of it.
pub push_front-Inv :
    (s : Store) (c x : ℕ)
    → is_container (s.things c).kind ≡ true
    → (s.things x).parent ≡ none
    → IsOutside s x c
    → Inv s
    → Inv (push_front s c x)
push_front-Inv s c x hc free o v =
    let ne = IsOutside-ne s x c o in
    record {
      agree = λ d z. ground (
        arith,
        items-added s c x d ne,
        parent-added s c x z,
        kind-added s c x d,
        v.agree d z,
        ==_iff d c,
        ==_iff z x,
      );
      once = λ d. ground (arith, items-added s c x d ne, v.once d, v.once c, v.agree c x);
      held =
          λ d z h. ground (arith, parent-added s c x z, kind-added s c x d, v.held d z, ==_iff d c);
      grounded = λ y. IsGrounded-added s c x o y (v.grounded y);
    }

-- What taking an item out leaves: the parent is gone, and the list has it no more.
module _ (s : Store) (c x : ℕ) where
  abbrev taken : Store
  taken = set_items (set_parent s x none) c (remove x (s.things c).item_list)

  parent-taken : (y : ℕ) → (taken.things y).parent ≡ (if y == x then none else (s.things y).parent)
  parent-taken y = ground (arith, ==_iff y c, ==_iff y x, ==_iff c x)

  IsGrounded-taken : (y : ℕ) → IsGrounded s y → IsGrounded taken y
  IsGrounded-taken y (outermost _ h) = outermost y (ground (arith, parent-taken y))
  IsGrounded-taken y (within _ d h g) = elim (Bool-cases (y == x)) [
    | inl same ↦ outermost y (ground (arith, parent-taken y))
    | inr other ↦ within y d (ground (arith, parent-taken y)) (IsGrounded-taken d g)
  ]

  items-taken :
      (d : ℕ)
      → (taken.things d).item_list
        ≡ (if d == c then remove x (s.things c).item_list else (s.things d).item_list)
  items-taken d = ground (arith, ==_iff d c, ==_iff d x, ==_iff c x)

  kind-taken : (d : ℕ) → (taken.things d).kind ≡ (s.things d).kind
  kind-taken d = ground (arith, ==_iff d c, ==_iff d x)

  pub taken-Inv : mem x (s.things c).item_list ≡ true → Inv s → Inv taken
  taken-Inv h v = record {
    agree = λ d z. ground (
      arith,
      items-taken d,
      parent-taken z,
      kind-taken d,
      v.agree d z,
      v.agree c x,
      ==_iff d c,
      ==_iff z x,
      ==_iff c d,
      mem-remove z x (s.things c).item_list (v.once c),
    );
    once = λ d.
        ground
          (arith, items-taken d, v.once d, distinct-remove x (s.things c).item_list (v.once c));
    held = λ d z h. ground (arith, parent-taken z, kind-taken d, v.held d z);
    grounded = λ y. IsGrounded-taken y (v.grounded y);
  }

-- A change that leaves kinds, parents and lists as they are keeps the shape.
module _ (s t : Store) (kinds : (y : ℕ) → (t.things y).kind ≡ (s.things y).kind)
    (parents : (y : ℕ) → (t.things y).parent ≡ (s.things y).parent)
    (lists : (y : ℕ) → (t.things y).item_list ≡ (s.things y).item_list) where
  IsGrounded-same : (y : ℕ) → IsGrounded s y → IsGrounded t y
  IsGrounded-same y (outermost _ h) = outermost y (parents y ∙ h)
  IsGrounded-same y (within _ d h g) = within y d (parents y ∙ h) (IsGrounded-same d g)

  pub same_shape-Inv : Inv s → Inv t
  same_shape-Inv v = record {
    agree = λ c x. ground (arith, kinds c, parents x, lists c, v.agree c x);
    once = λ c. ground (arith, lists c, v.once c);
    held = λ c x h. ground (arith, kinds c, parents x, v.held c x);
    grounded = λ y. IsGrounded-same y (v.grounded y);
  }
