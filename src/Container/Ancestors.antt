-- ===== src/Container/Ancestors.antt =====
-- The loops along the parents of a container, in `__queryAdd` and `getTopParent`.
use darghos_tfs04_86_v.Base.{
  ℕ, zero, suc, ◌≤◌, ◌≡◌, refl, true, false, none, some, ◌==◌, arith, Bool-cases, ==_iff, inl, inr,
  ◌⊎◌,
}
use darghos_tfs04_86_v.Container.{Store, is_cylinder, climb, get_top_parent}
use darghos_tfs04_86_v.Container.Queries.{has_ancestor}
use darghos_tfs04_86_v.Container.Inv.{IsGrounded, outermost, within, IsOutside, top, inner}

-- The number of parents above a thing.
abbrev pub height : (s : Store) (x : ℕ) → IsGrounded s x → ℕ
height s x (outermost _ e) = 0
height s x (within _ c e g) = suc (height s c g)

-- A thing is one of those around another, or is it.
pub data IsAround (s : Store) (x : ℕ) : ℕ → Type 0 where
  here : (y : ℕ) → (y == x) ≡ true → IsAround s x y
  further : (y c : ℕ) → (s.things y).parent ≡ some c → IsAround s x c → IsAround s x y

-- For a container `c` other than a thing `x`, the loop of `__queryAdd` ends within as many steps
-- as there are parents above `c`: with true where `x` is one of them, and with false where it is
-- not.
pub has_ancestor-IsGrounded :
    (s : Store) (x c : ℕ) (g : IsGrounded s c) (n : ℕ)
    → (c == x) ≡ false
    → height s c g ≤ n
    → ((has_ancestor n s x (s.things c).parent ≡ some true) × IsAround s x c)
      ⊎ ((has_ancestor n s x (s.things c).parent ≡ some false) × IsOutside s x c)
unfolding has_ancestor
has_ancestor-IsGrounded s x c (outermost _ alone) n e h = inr (rw alone refl, top c e alone)
has_ancestor-IsGrounded s x c (within _ d up g) zero e h = absurd (omega arith)
has_ancestor-IsGrounded s x c (within _ d up g) (suc n) e h = elim (Bool-cases (d == x)) [
  | inl found ↦ inl (rw (up, found) refl, further c d up (here d found))
  | inr other ↦ elim (has_ancestor-IsGrounded s x d g n other (omega arith)) [
    | inl (found, around) ↦ inl (rw (up, other) found, further c d up around)
    | inr (clear, outside) ↦ inr (rw (up, other) clear, inner c d e up outside)
  ]
]

-- What `getTopParent` gives: nothing or only the outermost thing is around it.
abbrev pub IsTop : Store → ℕ → Type 0
IsTop s y =
    ((s.things y).parent ≡ none)
    ⊎ ((up : ℕ) × ((s.things y).parent ≡ some up) × ((s.things up).parent ≡ none))

IsAround-up :
    (s : Store) (x c y : ℕ) → (s.things x).parent ≡ some c → IsAround s x y → IsAround s c y
IsAround-up s x c y up (here _ e) = further y c (ground (arith, ==_iff y x)) (here c (ground arith))
IsAround-up s x c y up (further _ d e a) = further y d e (IsAround-up s x c d up a)

climb-IsGrounded :
    (s : Store) (x prev aux : ℕ) (g : IsGrounded s aux) (n : ℕ)
    → (s.things prev).parent ≡ some aux
    → IsAround s prev x
    → suc (height s aux g) ≤ n
    → (y : ℕ) × (climb n s prev aux ≡ some y) × IsAround s y x × IsTop s y
unfolding climb
climb-IsGrounded s x prev aux g zero up a h = absurd (omega arith)
climb-IsGrounded s x prev aux (outermost _ alone) (suc n) up a h =
    elim (Bool-cases (is_cylinder (s.things prev).kind)) [
      | inl cylinder ↦ (prev, rw (climb, alone, cylinder) refl, a, inr (aux, up, alone))
      | inr item ↦ (aux, rw (climb, alone, item) refl, IsAround-up s prev aux x up a, inl alone)
    ]
climb-IsGrounded s x prev aux (within _ d next g) (suc n) up a h =
    let rest = climb-IsGrounded s x aux d g n next (IsAround-up s prev aux x up a) (omega arith) in
    (rest.0, rw (climb, next) rest.1, rest.2, rest.3)

-- Within as many steps as there are parents above a thing, `getTopParent` gives it or one of those
-- around it, and nothing is around the one it gives, or one thing that is outermost itself.
pub get_top_parent-IsTop :
    (s : Store) (x : ℕ) (g : IsGrounded s x) (n : ℕ)
    → height s x g ≤ n
    → (y : ℕ) × (get_top_parent n s x ≡ some y) × IsAround s y x × IsTop s y
unfolding get_top_parent
get_top_parent-IsTop s x (outermost _ alone) n h =
    (x, rw (get_top_parent, alone) refl, here x (ground arith), inl alone)
get_top_parent-IsTop s x (within _ d up g) n h =
    let rest = climb-IsGrounded s x x d g n up (here x (ground arith)) h in
    (rest.0, rw (get_top_parent, up) rest.1, rest.2, rest.3)
