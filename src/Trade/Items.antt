-- ===== src/Trade/Items.antt =====
-- The map of the items that are offered, and the list of those that are released. An item is named by
-- a number that stands for its address.
use darghos_tfs04_86_v.Base.{
  ℕ, ◌+◌, ◌≡◌, refl, Bool, true, false, none, List, [], ◌∷◌, ◌++◌, ◌==◌, if◌then◌else◌, any, arith,
}
pub use darghos_tfs04_86_v.Base.Maps.{lookup, insert, erase, lookup-insert, lookup-erase}

abbrev pub ItemMap : Type 0
ItemMap = List (ℕ × ℕ)

-- How often an item was released.
abbrev pub count : ℕ → List ℕ → ℕ
count k [] = 0
count k (j ∷ js) = (if k == j then 1 else 0) + count k js

pub count-push :
    (k j : ℕ) (js : List ℕ) → count k (js ++ j ∷ []) ≡ count k js + (if k == j then 1 else 0)
count-push k j [] = ground arith
count-push k j (i ∷ js) = ground (arith, count-push k j js)

-- A search that looks at least for the key itself.
pub lookup-any :
    (k : ℕ) (p : ℕ × ℕ → Bool) (m : ItemMap)
    → ((e : ℕ × ℕ) → (k == e.0) ≡ true → p e ≡ true)
    → any p m ≡ false
    → lookup k m ≡ none
lookup-any k p [] f h = refl
lookup-any k p (e ∷ m) f h = ground (arith, f e, lookup-any k p m f)
