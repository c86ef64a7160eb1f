-- ===== src/Chat/Leaving.antt =====
-- Players who leave the game and enter it, and the private channels.
use darghos_tfs04_86_v.Base.{
  ℕ, ◌≡◌, ◌∙◌, refl, sym, ap, true, false, not, ◌&&◌, Option, none, some, List, [], ◌∷◌, ◌==◌,
  ==_iff, arith, Bool-cases, Option-cases, inl, inr, mem-remove, update, distinct-remove,
}
use darghos_tfs04_86_v.Base.Maps.{lookup}
use darghos_tfs04_86_v.Chat.{ChatChannel, Player}
use darghos_tfs04_86_v.Chat.Users.{without_user, leave_private, leave_each}
use darghos_tfs04_86_v.Chat.Handlers.{World, on_creature_disappear, enter}
use darghos_tfs04_86_v.Chat.Inv.{owns, uses, lets_in, well_shaped, Inv}

module _ (players : ℕ → Player) (k : ℕ) where
  leave_private_lem :
      (m after : List (ℕ × ChatChannel))
      → leave_private players k m ≡ some after
      → (i : ℕ) → lookup i after ≡ leave_each players k (lookup i m)
  unfolding leave_private
  leave_private_lem [] after e i = ground (arith, e)
  leave_private_lem ((j, ch) ∷ m) after e i = elim (Option-cases (leave_private players k m)) [
    | inl out ↦ absurd (ground (arith, e, out))
    | inr (rest, at) ↦ ground (arith, e, at, leave_private_lem m rest at i)
  ]

  -- What is left of a channel.
  left_uses :
      (o : Option ChatChannel) (j : ℕ)
      → (players k).removed ≡ false
      → well_shaped o ≡ true
      → uses (leave_each players k o) j ≡ (not (j == k) && uses o j)
  unfolding without_user
  left_uses none j here s = ground arith
  left_uses (some ch) j here s = ground (arith, here, s, mem-remove j k ch.users, ==_iff j k)

  left_lets_in : (o : Option ChatChannel) (g : ℕ) → lets_in (leave_each players k o) g ≡ lets_in o g
  unfolding without_user
  left_lets_in none g = refl
  left_lets_in (some ch) g = ground arith

  left_shape :
      (o : Option ChatChannel) → well_shaped o ≡ true → well_shaped (leave_each players k o) ≡ true
  unfolding without_user
  left_shape none s = refl
  left_shape (some ch) s = ground (arith, s, distinct-remove k ch.users)

  left_owns : (o : Option ChatChannel) (g : ℕ) → owns (leave_each players k o) g ≡ owns o g
  unfolding without_user
  left_owns none g = refl
  left_owns (some ch) g = ground arith

  left-Inv :
      (m after : List (ℕ × ChatChannel))
      → Inv players m
      → (players k).removed ≡ false
      → ((i : ℕ) → lookup i after ≡ leave_each players k (lookup i m))
      → Inv (update players k (record (players k) { removed = true })) after
  left-Inv m after v here e =
      let used = λ (i j : ℕ) (x : uses (lookup i after) j ≡ true).
        sym (left_uses (lookup i m) j here (v.shape i)) ∙ ap (λ o. uses o j) (sym (e i)) ∙ x in
      record {
        single = λ i j g x y. ground (
          arith,
          e i,
          e j,
          left_owns (lookup i m) g,
          left_owns (lookup j m) g,
          x,
          y,
          v.single i j g,
        );
        present = λ i j x. ground (arith, used i j x, v.present i j);
        allowed = λ i j x.
            rw (e i, left_lets_in (lookup i m)) (ground (arith, used i j x, v.allowed i j));
        shape = λ i. rw (e i) (left_shape (lookup i m) (v.shape i));
        guids = λ i j x y h. ground (arith, v.guids i j, here, ==_iff i k, ==_iff j k);
      }

on_creature_disappear-at :
    (w after : World) (k : ℕ) (o : Option (List (ℕ × ChatChannel)))
    → Inv w.players w.chat.private_channels
    → (w.players k).removed ≡ false
    → leave_private w.players k w.chat.private_channels ≡ o
    → on_creature_disappear w k ≡ some after
    → Inv after.players after.chat.private_channels
unfolding on_creature_disappear
on_creature_disappear-at w after k none v here e h = absurd (ground (arith, here, e, h))
on_creature_disappear-at w after k (some m) v here e h =
    let kept =
      left-Inv w.players k w.chat.private_channels m v here
        (leave_private_lem w.players k w.chat.private_channels m e) in
    let is : after.players ≡ update w.players k (record (w.players k) { removed = true }) =
      ground (arith, here, e, h) in
    let are : after.chat.private_channels ≡ m = ground (arith, here, e, h) in rw (is, are) kept

pub on_creature_disappear-Inv :
    (w after : World) (k : ℕ)
    → Inv w.players w.chat.private_channels
    → (w.players k).removed ≡ false
    → on_creature_disappear w k ≡ some after
    → Inv after.players after.chat.private_channels
on_creature_disappear-Inv w after k v here h = on_creature_disappear-at w after k _ v here refl h

pub enter-Inv :
    (w : World) (k : ℕ) (player : Player)
    → Inv w.players w.chat.private_channels
    → player.removed ≡ false
    → ((j : ℕ) → (w.players j).removed ≡ false → ((w.players j).guid == player.guid) ≡ false)
    → Inv (enter w k player).players (enter w k player).chat.private_channels
unfolding enter
enter-Inv w k player v here new = elim (Bool-cases (w.players k).removed) [
  | inr taken ↦ rw (enter, taken) v
  | inl free ↦
      rw (enter, free)
        (record {
          single = v.single;
          present = λ i j x. ground (arith, v.present i j, here, ==_iff j k);
          allowed = λ i j x. ground (arith, v.allowed i j, v.present i j, x, free, ==_iff j k);
          shape = v.shape;
          guids = λ i j x y h. ground (
            arith,
            v.guids i j,
            new i,
            new j,
            here,
            ==_iff i k,
            ==_iff j k,
            ==_iff (w.players i).guid player.guid,
            ==_iff (w.players j).guid player.guid,
          );
        })
]
