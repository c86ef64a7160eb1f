-- ===== src/Tile/Coming.antt =====
-- `__addThing` with the splash or the magic field that makes room.
use darghos_tfs04_86_v.Base.{
  ℕ, ◌-◌, ◌≡◌, refl, ap, Bool, true, false, not, ◌&&◌, none, ◌++◌, mem, remove, update, ◌==◌, arith,
  Bool-cases, Option-cases, inl, inr, ==_iff,
}
use mathlib.Core.Path.{fun_ext}
use darghos_tfs04_86_v.Tile.{
  Thing, Tile, down_items, top_items, is_ground_of, get_index_of_thing, index_above,
}
use darghos_tfs04_86_v.Tile.Changes.{
  set_here, remove_creature, remove_ground, remove_top, remove_down, remove_thing,
}

update_comm :
    (h : ℕ → Bool) (x y : ℕ)
    → (y == x) ≡ false
    → update (update h x true) y false ≡ update (update h y false) x true
update_comm h x y e = fun_ext (λ z. ground (arith, ==_iff z x, ==_iff z y))

module _ (things : ℕ → Thing) (t : Tile) (x y : ℕ) (apart : (y == x) ≡ false) where
  remove_ground-set_here : remove_ground (set_here t x true) y ≡ set_here (remove_ground t y) x true
  unfolding remove_ground
  remove_ground-set_here =
      ap (λ h. record t { ground = none; thing_count = t.thing_count - 1; is_here = h })
        (update_comm t.is_here x y apart)

  remove_creature-set_here :
      remove_creature (set_here t x true) y ≡ set_here (remove_creature t y) x true
  unfolding remove_creature
  remove_creature-set_here = elim (Bool-cases (mem y t.creatures)) [
    | inl stands ↦ rw (remove_creature, stands) refl
    | inr gone ↦ rw (remove_creature, gone) refl
  ]

  remove_top-set_here : remove_top (set_here t x true) y ≡ set_here (remove_top t y) x true
  unfolding remove_top
  remove_top-set_here = elim (Bool-cases (mem y (top_items t))) [
    | inl held ↦
        rw (remove_top, held)
          (ap
            (λ h. record t {
              items = down_items t ++ remove y (top_items t);
              thing_count = t.thing_count - 1;
              is_here = h;
            })
            (update_comm t.is_here x y apart))
    | inr gone ↦ rw (remove_top, gone) refl
  ]

  remove_down-set_here :
      (count : ℕ)
      → remove_down things (set_here t x true) y count
        ≡ set_here (remove_down things t y count) x true
  unfolding remove_down
  remove_down-set_here count = elim (Bool-cases (mem y (down_items t))) [
    | inr gone ↦ rw (remove_down, gone) refl
    | inl held ↦ elim (Bool-cases ((things y).stackable && not (count == t.counts y))) [
      | inl part ↦ rw (remove_down, held, part) refl
      | inr whole ↦
          rw (remove_down, held, whole)
            (ap
              (λ h. record t {
                items = remove y (down_items t) ++ top_items t;
                down_item_count = t.down_item_count - 1;
                thing_count = t.thing_count - 1;
                is_here = h;
              })
              (update_comm t.is_here x y apart))
    ]
  ]

  get_index_of_thing-set_here :
      get_index_of_thing things (set_here t x true) y ≡ get_index_of_thing things t y
  unfolding get_index_of_thing index_above
  get_index_of_thing-set_here = refl

  -- That another thing's parent is set does not matter to a removal.
  pub remove_thing-set_here :
      (count : ℕ)
      → remove_thing things (set_here t x true) y count
        ≡ set_here (remove_thing things t y count) x true
  unfolding remove_thing
  remove_thing-set_here count = elim (Bool-cases (things y).get_item) [
    | inr other ↦ rw (remove_thing, other) remove_creature-set_here
    | inl item ↦ elim (Option-cases (get_index_of_thing things t y)) [
      | inl nowhere ↦ rw (remove_thing, item, get_index_of_thing-set_here, nowhere) refl
      | inr (i, at) ↦ elim (Bool-cases (is_ground_of t y)) [
        | inl own ↦
            rw (remove_thing, item, get_index_of_thing-set_here, at, own) remove_ground-set_here
        | inr off ↦ elim (Bool-cases (things y).always_on_top) [
          | inl on_top ↦
              rw (remove_thing, item, get_index_of_thing-set_here, at, off, on_top)
                remove_top-set_here
          | inr below ↦
              rw (remove_thing, item, get_index_of_thing-set_here, at, off, below)
                (remove_down-set_here count)
        ]
      ]
    ]
  ]
