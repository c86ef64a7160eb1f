-- ===== src/Chat/Inv.antt =====
-- The invariant of the private channels, and what a change of one channel has to keep.
use darghos_tfs04_86_v.Base.{
  ℕ, ◌≡◌, Bool, true, false, ◌&&◌, ◌||◌, Option, none, some, List, ◌==◌, ==_iff, mem, distinct,
  arith,
}
use darghos_tfs04_86_v.Base.Maps.{lookup, insert, erase, lookup-insert, lookup-erase}
use darghos_tfs04_86_v.Chat.{ChatChannel, Player, is_invited}

abbrev pub owns : Option ChatChannel → ℕ → Bool
owns none guid = false
owns (some ch) guid = ch.owner == guid

abbrev pub uses : Option ChatChannel → ℕ → Bool
uses none k = false
uses (some ch) k = mem k ch.users

abbrev pub lets_in : Option ChatChannel → ℕ → Bool
lets_in none guid = false
lets_in (some ch) guid = guid == ch.owner || mem guid ch.invites

abbrev pub well_shaped : Option ChatChannel → Bool
well_shaped none = true
well_shaped (some ch) = distinct ch.users && distinct ch.invites

-- Nobody owns two private channels; the users of one are in the game, and each is its owner or invited;
-- no user and no invitation is there twice; and no two players in the game have the same GUID.
pub record Inv (players : ℕ → Player) (m : List (ℕ × ChatChannel)) : Type 0 where
  pub single :
      (i j g : ℕ) → owns (lookup i m) g ≡ true → owns (lookup j m) g ≡ true → (i == j) ≡ true
  pub present : (i k : ℕ) → uses (lookup i m) k ≡ true → (players k).removed ≡ false
  pub allowed :
      (i k : ℕ) → uses (lookup i m) k ≡ true → lets_in (lookup i m) (players k).guid ≡ true
  pub shape : (i : ℕ) → well_shaped (lookup i m) ≡ true
  pub guids :
      (k j : ℕ)
      → (players k).removed ≡ false
      → (players j).removed ≡ false
      → ((players k).guid == (players j).guid) ≡ true
      → (k == j) ≡ true

-- A channel that may stand in the place of another.
pub record Fits (players : ℕ → Player) (ch after : ChatChannel) : Type 0 where
  pub owner : after.owner ≡ ch.owner
  pub present : (k : ℕ) → mem k after.users ≡ true → (players k).removed ≡ false
  pub allowed : (k : ℕ) → mem k after.users ≡ true → is_invited after (players k).guid ≡ true
  pub shape : (distinct after.users && distinct after.invites) ≡ true

pub insert-Inv :
    (players : ℕ → Player) (m : List (ℕ × ChatChannel)) (i : ℕ) (ch after : ChatChannel)
    → Inv players m
    → lookup i m ≡ some ch
    → Fits players ch after
    → Inv players (insert i after m)
unfolding is_invited
insert-Inv players m i ch after v e f = record {
  single = λ a b g x y. ground (
    arith,
    lookup-insert a i after m,
    lookup-insert b i after m,
    v.single a b g,
    v.single i b g,
    v.single a i g,
    e,
    f.owner,
    ==_iff a i,
    ==_iff b i,
  );
  present = λ a k x. ground (arith, lookup-insert a i after m, v.present a k, f.present k);
  allowed = λ a k x. ground (arith, lookup-insert a i after m, v.allowed a k, f.allowed k);
  shape = λ a. ground (arith, lookup-insert a i after m, v.shape a, f.shape);
  guids = v.guids;
}

pub erase-Inv :
    (players : ℕ → Player) (m : List (ℕ × ChatChannel)) (i : ℕ)
    → Inv players m
    → Inv players (erase i m)
erase-Inv players m i v = record {
  single = λ a b g x y. ground (arith, lookup-erase a i m, lookup-erase b i m, v.single a b g);
  present = λ a k x. ground (arith, lookup-erase a i m, v.present a k);
  allowed = λ a k x. ground (arith, lookup-erase a i m, v.allowed a k);
  shape = λ a. ground (arith, lookup-erase a i m, v.shape a);
  guids = v.guids;
}
