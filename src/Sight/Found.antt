-- ===== src/Sight/Found.antt =====
-- The loops of `getSpectatorsInternal` visit every leaf of the rectangle and end.
use darghos_tfs04_86_v.Base.{
  ℕ, zero, suc, ◌+◌, ◌*◌, ◌≤◌, ◌<◌, ◌≡◌, ◌∙◌, refl, sym, ap, Bool, true, Option, none, some, List,
  [], ◌∷◌, leb, ◌==◌, ==_iff, mem, mem-append, arith, Bool-cases, Option-cases, inl, inr,
}
use darghos_tfs04_86_v.Position.{Position}
use darghos_tfs04_86_v.Sight.Spectators.{
  Map, Ranges, in_window, visit, visit_leaf, step_east, step_south, columns, rows,
}

-- The links of the leaves lead where the tree does.
pub record IsLinked (g : Map) : Type 0 where
  pub east : (x y l : ℕ) → g.get_leaf x y ≡ some l → (g.leaves l).leaf_e ≡ g.get_leaf (x + 8) y
  pub south : (x y l : ℕ) → g.get_leaf x y ≡ some l → (g.leaves l).leaf_s ≡ g.get_leaf x (y + 8)

module _ (g : Map) (c : Position) (r : Ranges) (check : Bool) where
  visit_keeps :
      (k : ℕ) (ks list : List ℕ) → mem k list ≡ true → mem k (visit g c r check ks list) ≡ true
  unfolding visit
  visit_keeps k [] list h = h
  visit_keeps k (j ∷ ks) list h = visit_keeps k ks _ (ground (arith, h, mem-append k list (j ∷ [])))

  visit_finds :
      (k : ℕ) (ks list : List ℕ)
      → mem k ks ≡ true
      → in_window c r (g.position k) ≡ true
      → mem k (visit g c r check ks list) ≡ true
  unfolding visit
  visit_finds k [] list h w = absurd (cc)
  visit_finds k (j ∷ ks) list h w = elim (Bool-cases (k == j)) [
    | inl here ↦
        visit_keeps k ks _
          (ground (arith, w, (==_iff k j).0 here, mem-append k list (j ∷ []), ==_iff k k))
    | inr later ↦ visit_finds k ks _ (ground (arith, h, later)) w
  ]

  visit_leaf_keeps :
      (k : ℕ) (leaf : Option ℕ) (list : List ℕ)
      → mem k list ≡ true
      → mem k (visit_leaf g c r check leaf list) ≡ true
  visit_leaf_keeps k none list h = h
  visit_leaf_keeps k (some l) list h = visit_keeps k (g.leaves l).creature_list list h

  step_east-get_leaf :
      IsLinked g
      → (nx ny : ℕ) (leaf : Option ℕ) → leaf ≡ g.get_leaf nx ny
      → step_east g nx ny leaf ≡ g.get_leaf (nx + 8) ny
  step_east-get_leaf linked nx ny none e = refl
  step_east-get_leaf linked nx ny (some l) e = linked.east nx ny l (sym e)

  step_south-get_leaf :
      IsLinked g
      → (nx ny : ℕ) (leaf : Option ℕ) → leaf ≡ g.get_leaf nx ny
      → step_south g nx ny leaf ≡ g.get_leaf nx (ny + 8)
  step_south-get_leaf linked nx ny none e = refl
  step_south-get_leaf linked nx ny (some l) e = linked.south nx ny l (sym e)

  -- The loop over the columns ends, where the fuel is for one turn more than there are columns.
  columns_end :
      (n ny endx nx : ℕ) (leaf : Option ℕ) (list : List ℕ)
      → endx < nx + 8 * n
      → (after : List ℕ) × (columns (suc n) g c r check ny endx nx leaf list ≡ some after)
  unfolding columns
  columns_end zero ny endx nx leaf list h = (list, ground (arith, h))
  columns_end (suc n) ny endx nx leaf list h = elim (Bool-cases (leb nx endx)) [
    | inl more ↦
        rw (columns, more)
          (columns_end n ny endx (nx + 8) (step_east g nx ny leaf)
            (visit_leaf g c r check leaf list) (omega (arith, h)))
    | inr done ↦ (list, rw (columns, done) refl)
  ]

  columns_keep :
      (n ny endx nx : ℕ) (leaf : Option ℕ) (list after : List ℕ) (k : ℕ)
      → columns n g c r check ny endx nx leaf list ≡ some after
      → mem k list ≡ true
      → mem k after ≡ true
  unfolding columns
  columns_keep zero ny endx nx leaf list after k e h = absurd (cc)
  columns_keep (suc n) ny endx nx leaf list after k e h = elim (Bool-cases (leb nx endx)) [
    | inl more ↦
        columns_keep n ny endx (nx + 8) (step_east g nx ny leaf) (visit_leaf g c r check leaf list)
          after k (ground (arith, e, more)) (visit_leaf_keeps k leaf list h)
    | inr done ↦ ground (arith, e, done, h)
  ]

  -- Every leaf from `nx` to the end is visited.
  columns_find :
      IsLinked g
      → (n ny endx nx : ℕ) (leaf : Option ℕ) (list after : List ℕ) (k l m : ℕ)
      → leaf ≡ g.get_leaf nx ny
      → columns n g c r check ny endx nx leaf list ≡ some after
      → nx + 8 * m ≤ endx
      → g.get_leaf (nx + 8 * m) ny ≡ some l
      → mem k (g.leaves l).creature_list ≡ true
      → in_window c r (g.position k) ≡ true
      → mem k after ≡ true
  unfolding columns
  columns_find linked zero ny endx nx leaf list after k l m e q le at h w = absurd (cc)
  columns_find linked (suc n) ny endx nx leaf list after k l zero e q le at h w =
      let more : leb nx endx ≡ true = ground (arith, le) in
      let here : leaf ≡ some l = e ∙ ap (λ x. g.get_leaf x ny) (omega arith) ∙ at in
      columns_keep n ny endx (nx + 8) (step_east g nx ny leaf) (visit_leaf g c r check leaf list)
        after k (ground (arith, q, more))
        (rw here (visit_finds k (g.leaves l).creature_list list h w))
  columns_find linked (suc n) ny endx nx leaf list after k l (suc m) e q le at h w =
      let more : leb nx endx ≡ true = ground (arith, le) in
      columns_find linked n ny endx (nx + 8) (step_east g nx ny leaf)
        (visit_leaf g c r check leaf list) after k l m (step_east-get_leaf linked nx ny leaf e)
        (ground (arith, q, more)) (omega (arith, le)) (ap (λ x. g.get_leaf x ny) (omega arith) ∙ at)
        h w

  -- So does the loop over the rows.
  pub rows_end :
      (n m startx endx endy ny : ℕ) (leaf : Option ℕ) (list : List ℕ)
      → endx < startx + 8 * m
      → endy < ny + 8 * n
      → (after : List ℕ) × (rows (suc n) (suc m) g c r check startx endx endy ny leaf list
          ≡ some after)
  unfolding rows
  rows_end zero m startx endx endy ny leaf list hx hy = (list, ground (arith, hy))
  rows_end (suc n) m startx endx endy ny leaf list hx hy = elim (Bool-cases (leb ny endy)) [
    | inl more ↦
        let row = columns_end m ny endx startx leaf list hx in
        rw (rows, more, row.1)
          (rows_end n m startx endx endy (ny + 8) (step_south g startx ny leaf) row.0 hx
            (omega (arith, hy)))
    | inr done ↦ (list, rw (rows, done) refl)
  ]

  pub rows_keep :
      (n m startx endx endy ny : ℕ) (leaf : Option ℕ) (list after : List ℕ) (k : ℕ)
      → rows n m g c r check startx endx endy ny leaf list ≡ some after
      → mem k list ≡ true
      → mem k after ≡ true
  unfolding rows
  rows_keep zero m startx endx endy ny leaf list after k e h = absurd (cc)
  rows_keep (suc n) m startx endx endy ny leaf list after k e h = elim (Bool-cases (leb ny endy)) [
    | inr done ↦ ground (arith, e, done, h)
    | inl more ↦ elim (Option-cases (columns m g c r check ny endx startx leaf list)) [
      | inl out ↦ absurd (ground (arith, e, more, out))
      | inr (mid, row) ↦
          rows_keep n m startx endx endy (ny + 8) (step_south g startx ny leaf) mid after k
            (ground (arith, e, more, row)) (columns_keep m ny endx startx leaf list mid k row h)
    ]
  ]

  -- Every leaf of the rectangle is visited.
  pub rows_find :
      IsLinked g
      → (n m startx endx endy ny : ℕ) (leaf : Option ℕ) (list after : List ℕ) (k l i j : ℕ)
      → leaf ≡ g.get_leaf startx ny
      → rows n m g c r check startx endx endy ny leaf list ≡ some after
      → startx + 8 * i ≤ endx
      → ny + 8 * j ≤ endy
      → g.get_leaf (startx + 8 * i) (ny + 8 * j) ≡ some l
      → mem k (g.leaves l).creature_list ≡ true
      → in_window c r (g.position k) ≡ true
      → mem k after ≡ true
  unfolding rows
  rows_find linked zero m startx endx endy ny leaf list after k l i j e q lx ly at h w = absurd (cc)
  rows_find linked (suc n) m startx endx endy ny leaf list after k l i zero e q lx ly at h w =
      let more : leb ny endy ≡ true = ground (arith, ly) in
      elim (Option-cases (columns m g c r check ny endx startx leaf list)) [
        | inl out ↦ absurd (ground (arith, q, more, out))
        | inr (mid, row) ↦
            rows_keep n m startx endx endy (ny + 8) (step_south g startx ny leaf) mid after k
              (ground (arith, q, more, row))
              (columns_find linked m ny endx startx leaf list mid k l i e row lx
                (ap (λ y. g.get_leaf (startx + 8 * i) y) (omega arith) ∙ at) h w)
      ]
  rows_find linked (suc n) m startx endx endy ny leaf list after k l i (suc j) e q lx ly at h w =
      let more : leb ny endy ≡ true = ground (arith, ly) in
      elim (Option-cases (columns m g c r check ny endx startx leaf list)) [
        | inl out ↦ absurd (ground (arith, q, more, out))
        | inr (mid, row) ↦
            rows_find linked n m startx endx endy (ny + 8) (step_south g startx ny leaf) mid after k
              l i j (step_south-get_leaf linked startx ny leaf e) (ground (arith, q, more, row)) lx
              (omega (arith, ly)) (ap (λ y. g.get_leaf (startx + 8 * i) y) (omega arith) ∙ at) h w
      ]
