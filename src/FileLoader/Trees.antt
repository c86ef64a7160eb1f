-- ===== src/FileLoader/Trees.antt =====
-- Trees of nodes, the bytes of their calls, and the parser on these bytes.
use darghos_tfs04_86_v.Base.{
  ℕ, zero, suc, ◌+◌, ◌-◌, ◌<◌, ◌≤◌, ◌≡◌, refl, sym, ap, ap₂, ◌∙◌, true, false, Option, none, some,
  List, [], ◌∷◌, ◌++◌, length, ◌==◌, arith, ◌||◌,
}
use darghos_tfs04_86_v.FileLoader.{
  Props, props_of, no_props, overflow, node_start, node_end, escape_char, Nodes, no_node, node,
  Parsed, parsed, read_type, read_props, in_front, parsed_then, props_end, parse_node, skip_props,
  get_props, write_data, start_node, end_node,
}
use darghos_tfs04_86_v.FileLoader.Escape.{skip_props-write_data}

-- The nodes that a program writes: a type, properties, the children, and what follows the node.
pub data Tree : Type 0 where
  leaf : Tree
  branch : (type : ℕ) (props : List ℕ) (children next : Tree) → Tree

-- The calls `startNode`, `setProps`, those for the children, and `endNode`.
unfoldable pub write_tree : Tree → List ℕ
write_tree leaf = []
write_tree (branch t props children next) =
    start_node t ++ (write_data props ++ (write_tree children ++ (end_node ++ write_tree next)))

-- The node with what is read behind it, and the size of the buffer then; none after an overflow.
-- `getProps` of a `PropStream` has no bytes if there are none.
abbrev pub with_props : Props → Option (List ℕ)
with_props (props_of bytes) = some bytes
with_props no_props = some []
with_props overflow = none

abbrev pub then_next : Option (ℕ × Tree) → (ℕ → Tree → Option (ℕ × Tree)) → Option (ℕ × Tree)
then_next none f = none
then_next (some (buffer_size, tree)) f = f buffer_size tree

abbrev pub built :
    ℕ → Option (List ℕ) → Option (ℕ × Tree) → (ℕ → Option (ℕ × Tree)) → Option (ℕ × Tree)
built t none below behind = none
built t (some props) below behind =
    then_next below
      (λ b children. then_next (behind b) (λ b' next. some (b', branch t props children next)))

-- What a program reads of the nodes, by `getProps`, `getChildNode` and `getNextNode`, with a buffer of
-- a size.
unfoldable pub read_tree : ℕ → List ℕ → ℕ → Nodes → Option (ℕ × Tree)
unfolding get_props
read_tree stale file buffer_size no_node = some (buffer_size, leaf)
read_tree stale file buffer_size (node start size t child next) =
    let (grown, props) = get_props stale buffer_size file start size in
    built t (with_props props) (read_tree stale file grown child) (λ b. read_tree stale file b next)

-- The properties of each node are escaped to no more than 2048 bytes.
abbrev pub IsRoomy : Tree → Type 0
IsRoomy leaf = Unit {0}
IsRoomy (branch t props children next) =
    (length (write_data props) ≤ 2048) × IsRoomy children × IsRoomy next

-- No type is a special byte.
abbrev pub IsTyped : Tree → Type 0
IsTyped leaf = Unit {0}
IsTyped (branch t props children next) = (t < escape_char) × IsTyped children × IsTyped next

-- The calls and turns that a tree takes.
abbrev pub turns : Tree → ℕ
turns leaf = 0
turns (branch t props children next) = turns children + turns next + 3

-- The bytes of a tree without special types, in front of others, and their number.
abbrev pub encode_onto : Tree → List ℕ → List ℕ
encode_onto leaf rest = rest
encode_onto (branch t props children next) rest =
    node_start ∷ t ∷ (write_data props ++ encode_onto children (node_end ∷ encode_onto next rest))

abbrev pub width : Tree → ℕ
width leaf = 0
width (branch t props children next) = length (write_data props) + width children + width next + 3

-- The nodes of a tree that is written at a position.
abbrev pub placed : ℕ → Tree → Nodes
placed start leaf = no_node
placed start (branch t props children next) =
    let inner = start + 2 + length (write_data props) in
    node start (length (write_data props)) t (placed inner children)
      (placed (inner + width children + 1) next)

-- What follows a chain of nodes: the end of the file, or the end of the node around it.
pub data Follows : List ℕ → Type 0 where
  file_ends : Follows []
  node_ends : (rest : List ℕ) → Follows (node_end ∷ rest)

-- The parser reads the tree behind its first byte.
abbrev pub IsRead : Tree → Type 0
IsRead leaf = Unit {0}
IsRead (branch t props children next) =
    (n start : ℕ) (rest : List ℕ)
    → turns (branch t props children next) ≤ n
    → Follows rest
    → parse_node n (
        read_type start (suc start)
          (t ∷ (write_data props ++ encode_onto children (node_end ∷ encode_onto next rest))))
      ≡ parsed (placed start (branch t props children next))
          (start + width (branch t props children next)) rest

opens :
    (n start t : ℕ) (props : List ℕ) (b : ℕ) (xs : List ℕ)
    → (b == node_start || b == node_end) ≡ true
    → parse_node (suc n) (read_type start (suc start) (t ∷ (write_data props ++ b ∷ xs)))
      ≡ parse_node n
          (read_props start t none no_node (some (start + 2 + length (write_data props), b ∷ xs)))
unfolding parse_node
opens n start t props b xs h =
    ap (λ o. parse_node n (read_props start t none no_node o))
      (skip_props-write_data (suc (suc start)) props b xs h
        ∙ ap (λ p. some (p, b ∷ xs)) (omega arith))

closes :
    (m start t q : ℕ) (size : Option ℕ) (child : Nodes) (next : Tree) (rest : List ℕ)
    → IsRead next
    → turns next ≤ m
    → Follows rest
    → parse_node
        (suc m)
        (read_props start t size child (some (q, node_end ∷ encode_onto next rest)))
      ≡ parsed
          (node start (props_end start q size) t child (placed (q + 1) next))
          (q + 1 + width next)
          rest
unfolding parse_node
closes m start t q size child leaf [] r h f =
    ap (λ p. parsed (node start (props_end start q size) t child no_node) p []) (omega arith)
closes m start t q size child leaf _ r h (node_ends rest) =
    ap (λ p. parsed (node start (props_end start q size) t child no_node) p (node_end ∷ rest))
      (omega arith)
closes m start t q size child (branch u props children next) rest r h f =
    let this = node start (props_end start q size) t child in
    let tree = branch u props children next in
    let e : q + 1 ≡ suc q = omega arith in
    let e' : q + 2 ≡ suc (suc q) = omega arith in
    ap
      (λ p. in_front this (
        parse_node m (
          read_type (suc q) p
            (u ∷ (write_data props ++ encode_onto children (node_end ∷ encode_onto next rest))))))
      e'
    ∙ ap (in_front this) (r m (suc q) rest h f)
    ∙ ap (λ p. parsed (this (placed p tree)) (p + width tree) rest) (sym e)

child_read :
    (m start t q : ℕ) (child next : Tree) (rest : List ℕ)
    → IsRead child
    → IsRead next
    → turns child + turns next + 1 ≤ m
    → Follows rest
    → parse_node (suc m) (
        read_props start t none no_node
          (some (start + 2 + q, encode_onto child (node_end ∷ encode_onto next rest))))
      ≡ parsed
          (node start q t
            (placed (start + 2 + q) child)
            (placed (start + 2 + q + width child + 1) next))
          (start + 2 + q + width child + 1 + width next)
          rest
unfolding parse_node skip_props
child_read m start t q leaf next rest rc rn h f =
    closes m start t (start + 2 + q) none no_node next rest rn (omega arith) f
    ∙ ap₂ (λ a b. parsed (node start a t no_node (placed b next)) (b + width next) rest)
        (omega arith) (omega arith)
child_read zero start t q (branch u ps c nx) next rest rc rn h f = absurd (omega arith)
child_read (suc m) start t q (branch u ps c nx) next rest rc rn h f =
    let tree = branch u ps c nx in
    let p = start + 2 + q in
    let back : Nodes → ℕ → List ℕ → Parsed = λ child' pos' rest'.
      parse_node (suc m)
        (read_props start t (some (p - start - 2)) child' (skip_props false pos' rest')) in
    ap (λ r. parsed_then r back)
      (rc (suc m) p (node_end ∷ encode_onto next rest) (omega arith) (node_ends _))
    ∙ closes m start t (p + width tree) (some (p - start - 2)) (placed p tree) next rest rn
        (omega arith) f
    ∙ ap
        (λ a.
          parsed (node start a t (placed p tree) (placed (p + width tree + 1) next))
            (p + width tree + 1 + width next) rest)
        (omega arith)

starts :
    (tree : Tree) (rest : List ℕ)
    → (b : ℕ) × (xs : List ℕ) × (encode_onto tree (node_end ∷ rest) ≡ b ∷ xs)
      × ((b == node_start || b == node_end) ≡ true)
starts leaf rest = (node_end, rest, refl, refl)
starts (branch t props children next) rest = (node_start, _, refl, refl)

branch_read :
    (n start t : ℕ) (props : List ℕ) (children next : Tree) (rest : List ℕ)
    → IsRead children
    → IsRead next
    → turns (branch t props children next) ≤ n
    → Follows rest
    → parse_node n (
        read_type start
          (suc start)
          (t ∷ (write_data props ++ encode_onto children (node_end ∷ encode_onto next rest))))
      ≡ parsed
          (placed start (branch t props children next))
          (start + width (branch t props children next))
          rest
branch_read zero start t props children next rest rc rn h f = absurd (omega arith)
branch_read (suc zero) start t props children next rest rc rn h f = absurd (omega arith)
branch_read (suc (suc n)) start t props children next rest rc rn h f =
    let (b, xs, e, hb) = starts children (encode_onto next rest) in
    let w = length (write_data props) in
    ap (λ ys. parse_node (suc (suc n)) (read_type start (suc start) (t ∷ (write_data props ++ ys))))
      e
    ∙ opens (suc n) start t props b xs hb
    ∙ ap (λ ys. parse_node (suc n) (read_props start t none no_node (some (start + 2 + w, ys))))
        (sym e)
    ∙ child_read n start t w children next rest rc rn (omega arith) f
    ∙ ap (λ p. parsed (placed start (branch t props children next)) p rest) (omega arith)

pub tree-IsRead : (tree : Tree) → IsRead tree
tree-IsRead leaf = tt
tree-IsRead (branch t props children next) = λ n start rest h f.
    branch_read n start t props children next rest (tree-IsRead children) (tree-IsRead next) h f
