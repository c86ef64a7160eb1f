-- ===== src/Base/Members.antt =====
-- Lists of identifiers (object pointers in the source) and stores indexed by them.
use Prim.Native.Nat.{ℕ, ◌+◌}
use mathlib.Core.Path.{◌≡◌, refl}
use mathlib.Core.Bool.{Bool, true, false, not, ◌&&◌, ◌||◌}
use mathlib.Core.List.{List, [], ◌∷◌, ◌++◌}
use native.Mathlib.Omega.{arith}
use darghos_tfs04_86_v.Base.Lists.{length, any}
use darghos_tfs04_86_v.Base.Tests.{◌==◌, if◌then◌else◌}

-- `std::find(...) != end()`.
abbrev pub mem : ℕ → List ℕ → Bool
mem x [] = false
mem x (y ∷ ys) = x == y || mem x ys

-- Erases the first occurrence, as `erase(std::find(...))` under its guard does.
abbrev pub remove : ℕ → List ℕ → List ℕ
remove x [] = []
remove x (y ∷ ys) = if x == y then ys else y ∷ remove x ys

abbrev pub distinct : List ℕ → Bool
distinct [] = true
distinct (x ∷ xs) = not (mem x xs) && distinct xs

abbrev pub update {ℓ} : {A : Type ℓ} → (ℕ → A) → ℕ → A → ℕ → A
update f k v j = if j == k then v else f j

-- Changes the entry of each listed key, in order.
abbrev pub for_each {ℓ} : {A : Type ℓ} → (A → A) → List ℕ → (ℕ → A) → ℕ → A
for_each f [] s = s
for_each f (k ∷ ks) s = for_each f ks (update s k (f (s k)))

pub mem-remove :
    (x y : ℕ) (ys : List ℕ) → distinct ys ≡ true → mem x (remove y ys) ≡ (not (x == y) && mem x ys)
mem-remove x y [] d = ground arith
mem-remove x y (z ∷ ys) d = ground (arith, mem-remove x y ys)

pub distinct-remove : (y : ℕ) (ys : List ℕ) → distinct ys ≡ true → distinct (remove y ys) ≡ true
distinct-remove y [] d = refl
distinct-remove y (z ∷ ys) d = ground (arith, distinct-remove y ys, mem-remove z y ys)

pub mem-append : (x : ℕ) (ys zs : List ℕ) → mem x (ys ++ zs) ≡ (mem x ys || mem x zs)
mem-append x [] zs = refl
mem-append x (y ∷ ys) zs = ground (arith, mem-append x ys zs)

pub distinct-push :
    (x : ℕ) (ys : List ℕ) → distinct ys ≡ true → mem x ys ≡ false → distinct (ys ++ x ∷ []) ≡ true
distinct-push x [] d h = refl
distinct-push x (y ∷ ys) d h = ground (arith, distinct-push x ys, mem-append y ys (x ∷ []))

pub for_each_lem {ℓ} :
    {A : Type ℓ} (f : A → A) (ks : List ℕ) (s : ℕ → A) (j : ℕ)
    → distinct ks ≡ true
    → for_each f ks s j ≡ (if mem j ks then f (s j) else s j)
for_each_lem f [] s j d = refl
for_each_lem f (k ∷ ks) s j d = ground (arith, for_each_lem f ks (update s k (f (s k))) j)

pub length-remove : (x : ℕ) (ys : List ℕ) → mem x ys ≡ true → length (remove x ys) + 1 ≡ length ys
length-remove x [] h = absurd (cc)
length-remove x (y ∷ ys) h = ground (arith, length-remove x ys)

-- A list in two parts has nothing twice where neither has and they share nothing.
pub distinct-append :
    (xs ys : List ℕ)
    → distinct (xs ++ ys) ≡ (distinct xs && distinct ys && not (any (λ x. mem x ys) xs))
distinct-append [] ys = ground arith
distinct-append (x ∷ xs) ys = ground (arith, distinct-append xs ys, mem-append x xs ys)

pub shares_cons :
    (y : ℕ) (xs ys : List ℕ) → any (λ x. mem x (y ∷ ys)) xs ≡ (mem y xs || any (λ x. mem x ys) xs)
shares_cons y [] ys = refl
shares_cons y (x ∷ xs) ys = ground (arith, shares_cons y xs ys)

pub shares_comm : (xs ys : List ℕ) → any (λ x. mem x ys) xs ≡ any (λ x. mem x xs) ys
shares_comm [] [] = refl
shares_comm [] (y ∷ ys) = shares_comm [] ys
shares_comm (x ∷ xs) ys = ground (arith, shares_comm xs ys, shares_cons x ys xs)
