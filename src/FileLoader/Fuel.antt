-- ===== src/FileLoader/Fuel.antt =====
-- The fuel of the parser of nodes.
use darghos_tfs04_86_v.Base.{
  ℕ, zero, suc, ◌+◌, ◌*◌, ◌≤◌, ◌≢◌, subst, Bool, true, false, Option, none, some, List, [], ◌∷◌,
  length, ◌==◌, arith, Bool-cases, inl, inr,
}
use darghos_tfs04_86_v.FileLoader.{
  node_start, node_end, Nodes, Parsed, parsed, failed, out_of_fuel, Turn, read_type, read_props,
  in_front, parsed_then, parse_node, skip_props, open_nodes,
}

-- The number of the bytes to come.
abbrev reach : Option (ℕ × List ℕ) → ℕ
reach none = 0
reach (some (pos, bs)) = length bs

abbrev room : Turn → ℕ
room (read_type start pos rest) = length rest
room (read_props start t size child o) = reach o

reach-skip_props :
    (escaped : Bool) (pos : ℕ) (bs : List ℕ) → reach (skip_props escaped pos bs) ≤ length bs
unfolding skip_props
reach-skip_props escaped pos [] = omega arith
reach-skip_props true pos (b ∷ bs) = omega (arith, reach-skip_props false (suc pos) bs)
reach-skip_props false pos (b ∷ bs) =
    ground (arith, reach-skip_props false (suc pos) bs, reach-skip_props true (suc pos) bs)

-- The parser came to an end, with at most so many bytes left.
abbrev Ends : ℕ → Parsed → Type 0
Ends k (parsed nodes pos rest) = length rest ≤ k
Ends k (failed e) = Unit {0}
Ends k out_of_fuel = ⊥

in_front-Ends :
    (f : Nodes → Nodes) (k l : ℕ) (r : Parsed) → k ≤ l → Ends k r → Ends l (in_front f r)
in_front-Ends f k l (parsed nodes pos rest) h e = omega arith
in_front-Ends f k l (failed x) h e = tt
in_front-Ends f k l out_of_fuel h e = e

parsed_then-Ends :
    (k l : ℕ) (r : Parsed) (f : Nodes → ℕ → List ℕ → Parsed)
    → Ends k r
    → ((child : Nodes) (pos : ℕ) (rest : List ℕ) → length rest ≤ k → Ends l (f child pos rest))
    → Ends l (parsed_then r f)
parsed_then-Ends k l (parsed child pos rest) f e h = h child pos rest e
parsed_then-Ends k l (failed x) f e h = tt
parsed_then-Ends k l out_of_fuel f e h = absurd e

Ends-le : (k l : ℕ) (r : Parsed) → k ≤ l → Ends k r → Ends l r
Ends-le k l (parsed nodes pos rest) h e = omega arith
Ends-le k l (failed x) h e = tt
Ends-le k l out_of_fuel h e = e

parse_node-Ends :
    (n : ℕ) (turn : Turn) → 2 * room turn + 1 ≤ n → Ends (room turn) (parse_node n turn)
unfolding parse_node
parse_node-Ends zero turn h = absurd (omega arith)
parse_node-Ends (suc n) (read_type start pos []) h = tt
parse_node-Ends (suc n) (read_type start pos (t ∷ rest)) h =
    let small = reach-skip_props false (suc pos) rest in
    let o = skip_props false (suc pos) rest in
    Ends-le (reach o) (suc (length rest)) _ (omega (arith, small))
      (parse_node-Ends n (read_props start t none _ o) (omega (arith, small, h)))
parse_node-Ends (suc n) (read_props start t size child none) h = tt
parse_node-Ends (suc n) (read_props start t size child (some (pos, []))) h = tt
parse_node-Ends (suc n) (read_props start t size child (some (pos, b ∷ []))) h =
    elim (Bool-cases (b == node_start)) [
      | inl begins ↦ rw begins tt
      | inr other ↦ rw other (omega arith)
    ]
parse_node-Ends (suc n) (read_props start t size child (some (pos, b ∷ c ∷ rest))) h =
    elim (Bool-cases (b == node_start)) [
      | inl begins ↦ rw begins (
          parsed_then-Ends (suc (length rest)) (suc (suc (length rest))) _ _
            (parse_node-Ends n (read_type pos (suc pos) (c ∷ rest)) (omega arith))
            (λ child' pos' rest' small.
              let shorter = reach-skip_props false pos' rest' in
              Ends-le (reach (skip_props false pos' rest')) (suc (suc (length rest))) _
                (omega (arith, shorter, small))
                (parse_node-Ends n
                  (read_props start t (some _) child' (skip_props false pos' rest'))
                  (omega (arith, shorter, small)))))
      | inr ends ↦ elim (Bool-cases (c == node_start)) [
        | inl follows ↦
            rw (ends, follows)
              (in_front-Ends _ (length rest) (suc (suc (length rest))) _ (omega arith)
                (parse_node-Ends n (read_type (suc pos) (pos + 2) rest) (omega arith)))
        | inr other ↦ elim (Bool-cases (c == node_end)) [
          | inl closes ↦ rw (ends, other, closes) (omega arith)
          | inr wrong ↦ rw (ends, other, wrong) tt
        ]
      ]
    ]

-- On any bytes behind the version, with fuel above twice their number, opening the file comes to an
-- end, with nodes or with an error.
pub open_nodes_ends :
    (fuel : ℕ) (bytes : List ℕ) → 2 * length bytes + 1 ≤ fuel → open_nodes fuel bytes ≢ out_of_fuel
unfolding open_nodes
open_nodes_ends fuel [] h e = cc
open_nodes_ends fuel (b ∷ rest) h e =
    let ended = parse_node-Ends fuel (read_type 4 5 rest) (omega arith) in
    elim (Bool-cases (b == node_start)) [
      | inl begins ↦ subst (Ends (length rest)) (rw begins at e) ended
      | inr other ↦ absurd (ground arith)
    ]
