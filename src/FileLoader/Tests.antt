-- ===== src/FileLoader/Tests.antt =====
-- A node with a child and a node behind it, some of their properties being special bytes.
use darghos_tfs04_86_v.Base.{ℕ, some, ◌+◌, ◌≡◌, ◌≢◌, [], ◌∷◌, ◌++◌, length, arith}
use darghos_tfs04_86_v.FileLoader.{Nodes, parsed, out_of_fuel, open_nodes, write_data}
use darghos_tfs04_86_v.FileLoader.Fuel.{open_nodes_ends}
use darghos_tfs04_86_v.FileLoader.RoundTrip.{read_tree-write_tree}
use darghos_tfs04_86_v.FileLoader.Trees.{Tree, leaf, branch, write_tree, read_tree}

abbrev town : Tree
town = branch 12 (0xFE ∷ 1 ∷ 0xFD ∷ []) leaf leaf

abbrev tile : Tree
tile = branch 4 (7 ∷ 0xFF ∷ []) town leaf

read_tree-write_tree_example :
    (nodes : Nodes) × (b : ℕ) × (open_nodes 12 (write_tree (branch 0 [] tile town))
      ≡ parsed nodes (4 + length (write_tree (branch 0 [] tile town))) [])
    × (read_tree 0 (0 ∷ 0 ∷ 0 ∷ 0 ∷ [] ++ write_tree (branch 0 [] tile town)) 1024 nodes
        ≡ some (b, branch 0 [] tile town))
unfolding write_data
read_tree-write_tree_example =
    read_tree-write_tree 12 0 1024 0 0 0 0 0 [] tile town
      (omega arith, (omega arith, (omega arith, tt, tt), tt), (omega arith, tt, tt))
      (omega arith, (omega arith, (omega arith, tt, tt), tt), (omega arith, tt, tt)) (omega arith)
      (omega arith)

-- A node that is not closed.
open_nodes_ends_example : open_nodes 7 (0xFE ∷ 1 ∷ 5 ∷ []) ≢ out_of_fuel
open_nodes_ends_example = open_nodes_ends 7 (0xFE ∷ 1 ∷ 5 ∷ []) (omega arith)
