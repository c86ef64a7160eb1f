-- ===== src/FileLoader/RoundTrip.antt =====
-- Trees of nodes: the calls that write them, the parser, and the calls that read them.
use darghos_tfs04_86_v.Base.{
  ltb, ℕ, ◌+◌, ◌<◌, ◌≤◌, ◌≡◌, refl, sym, ap, ap₂, ◌∙◌, false, some, List, [], ◌∷◌, ◌++◌,
  append_assoc, length, length-append, take-length, drop-length, drop, min, subst, Option, arith,
}
use darghos_tfs04_86_v.FileLoader.{
  props_of, grow_buffer, read_props_into, node_start, node_end, escape_char, Nodes, parsed,
  open_nodes, get_props, unescape, write_data, start_node, end_node,
}
use darghos_tfs04_86_v.FileLoader.Escape.{unescape-write_data}
use darghos_tfs04_86_v.FileLoader.Trees.{
  Tree, leaf, branch, write_tree, read_tree, IsTyped, IsRoomy, with_props, built, turns,
  encode_onto, width, placed, file_ends, tree-IsRead,
}

start_byte : (t : ℕ) → t < escape_char → write_data (t ∷ []) ≡ t ∷ []
unfolding write_data
start_byte t h = ground arith

-- Bytes behind a tree stay behind it.
encode-append :
    (tree : Tree) (xs ys : List ℕ) → encode_onto tree (xs ++ ys) ≡ encode_onto tree xs ++ ys
encode-append leaf xs ys = refl
encode-append (branch t props children next) xs ys =
    ap (λ zs. node_start ∷ t ∷ (write_data props ++ zs))
      (ap (λ zs. encode_onto children (node_end ∷ zs)) (encode-append next xs ys)
        ∙ encode-append children (node_end ∷ encode_onto next xs) ys)
    ∙ ap (λ zs. node_start ∷ t ∷ zs)
        (sym (
          append_assoc (write_data props) (encode_onto children (node_end ∷ encode_onto next xs))
            ys))

length-encode : (tree : Tree) (xs : List ℕ) → length (encode_onto tree xs) ≡ width tree + length xs
length-encode leaf xs = omega arith
length-encode (branch t props children next) xs = omega (
  arith,
  length-append (write_data props) (encode_onto children (node_end ∷ encode_onto next xs)),
  length-encode children (node_end ∷ encode_onto next xs),
  length-encode next xs,
)

write_tree-encode : (tree : Tree) → IsTyped tree → write_tree tree ≡ encode_onto tree []
unfolding write_tree start_node end_node
write_tree-encode leaf h = refl
write_tree-encode (branch t props children next) (ht, hc, hn) =
    ap₂ (λ xs ys. node_start ∷ (xs ++ (write_data props ++ ys))) (start_byte t ht)
      (ap₂ (λ xs ys. xs ++ node_end ∷ ys) (write_tree-encode children hc)
          (write_tree-encode next hn)
        ∙ sym (encode-append children [] (node_end ∷ encode_onto next [])))

-- The properties of a node whose bytes stand in the file at its position, if the buffer takes them.
props_in :
    (stale buffer_size : ℕ) (props after : List ℕ)
    → length (write_data props) ≤ buffer_size
    → read_props_into stale buffer_size (write_data props ++ after) (length (write_data props))
      ≡ props_of props
unfolding read_props_into
props_in stale buffer_size props after h =
    let n = length (write_data props) in
    let whole = length-append (write_data props) after in
    let fits : ltb buffer_size (min n (length (write_data props ++ after))) ≡ false =
      rw whole (ground (arith, h)) in
    let there : ltb (length (write_data props ++ after)) n ≡ false = rw whole (ground arith) in
    rw (fits, there)
      (ap props_of (
        ap (unescape stale false) (take-length (write_data props) after)
        ∙ unescape-write_data stale props))

-- The buffer grows by 1024 bytes once, which is enough for 2048 bytes.
grown_enough :
    (buffer_size n : ℕ)
    → 1024 ≤ buffer_size
    → n ≤ 2048
    → (n ≤ grow_buffer buffer_size n) × (1024 ≤ grow_buffer buffer_size n)
unfolding grow_buffer
grown_enough buffer_size n h k = ground (arith, h, k)

props_at :
    (stale buffer_size a b : ℕ) (before props after : List ℕ)
    → 1024 ≤ buffer_size
    → length (write_data props) ≤ 2048
    → get_props stale buffer_size
        (before ++ a ∷ b ∷ (write_data props ++ after))
        (length before)
        (length (write_data props))
      ≡ (grow_buffer buffer_size (length (write_data props)), props_of props)
unfolding get_props
props_at stale buffer_size a b before props after h k =
    let header = before ++ a ∷ b ∷ [] in
    let n = length (write_data props) in
    let grown = grow_buffer buffer_size n in
    let e : length before + 2 ≡ length header = omega (arith, length-append before (a ∷ b ∷ [])) in
    ap (λ r. (grown, r))
      (ap₂ (λ j file. read_props_into stale grown (drop j file) n) e
          (sym (append_assoc before (a ∷ b ∷ []) (write_data props ++ after)))
        ∙ ap (λ xs. read_props_into stale grown xs n)
            (drop-length header (write_data props ++ after))
        ∙ props_in stale grown props after (grown_enough buffer_size n h k).0)

-- A tree that is read back, and the buffer then.
abbrev IsReadBack : Tree → Option (ℕ × Tree) → Type 0
IsReadBack tree r = (b : ℕ) × (r ≡ some (b, tree)) × (1024 ≤ b)

built-IsReadBack :
    (t : ℕ) (props : List ℕ) (children next : Tree) (below : Option (ℕ × Tree))
    (behind : ℕ → Option (ℕ × Tree))
    → IsReadBack children below
    → ((b : ℕ) → 1024 ≤ b → IsReadBack next (behind b))
    → IsReadBack (branch t props children next) (built t (some props) below behind)
built-IsReadBack t props children next below behind (b, e, h) others =
    let (b', e', h') = others b h in (b', rw (e, e') refl, h')

read_placed :
    (stale : ℕ) (file : List ℕ) (tree : Tree) (start buffer_size : ℕ) (before rest : List ℕ)
    → file ≡ before ++ encode_onto tree rest
    → start ≡ length before
    → 1024 ≤ buffer_size
    → IsRoomy tree
    → IsReadBack tree (read_tree stale file buffer_size (placed start tree))
unfolding read_tree
read_placed stale file leaf start buffer_size before rest e h k roomy = (buffer_size, refl, k)
read_placed stale file (branch t props children next) start buffer_size before rest e h k
      (small, below, behind) =
    let header = node_start ∷ t ∷ write_data props in
    let after = node_end ∷ encode_onto next rest in
    let inner = header ++ encode_onto children (node_end ∷ []) in
    let n = length (write_data props) in
    let grown = grow_buffer buffer_size n in
    let own : get_props stale buffer_size file start n ≡ (grown, props_of props) =
      ap₂ (λ f j. get_props stale buffer_size f j n) e h
      ∙ props_at stale buffer_size node_start t before props (encode_onto children after) k small in
    let kids =
      read_placed stale file children (start + 2 + n) grown (before ++ header) after
        (e ∙ sym (append_assoc before header (encode_onto children after)))
        (omega (arith, h, length-append before header)) (grown_enough buffer_size n k small).1
        below in
    let others = λ (b : ℕ) (enough : 1024 ≤ b).
      read_placed stale file next (start + 2 + n + width children + 1) b (before ++ inner) rest
        (e
          ∙ ap (λ xs. before ++ (header ++ xs))
              (encode-append children (node_end ∷ []) (encode_onto next rest))
          ∙ ap (◌++◌ before) (
              sym (
                append_assoc header (encode_onto children (node_end ∷ [])) (encode_onto next rest)))
          ∙ sym (append_assoc before inner (encode_onto next rest)))
        (omega (
          arith,
          h,
          length-append before inner,
          length-append header (encode_onto children (node_end ∷ [])),
          length-encode children (node_end ∷ []),
        ))
        enough behind in
    subst
      (λ r. IsReadBack (branch t props children next) (
        built t (with_props r.1) (read_tree stale file r.0 (placed (start + 2 + n) children))
          (λ b. read_tree stale file b (placed (start + 2 + n + width children + 1) next))))
      (sym own) (built-IsReadBack t props children next _ _ kids others)

-- A tree whose types are below ESCAPE_CHAR, and whose properties are escaped to at most 2048 bytes for
-- each node, written behind the four bytes of the version, is opened with the fuel that its nodes
-- take, and with a buffer of 1024 bytes, as it is in the beginning, or more, its types and properties
-- are read back, nodes and children in their order, and the buffer never overflows.
pub read_tree-write_tree :
    (fuel stale buffer_size t v0 v1 v2 v3 : ℕ) (props : List ℕ) (children next : Tree)
    → let tree = branch t props children next in
      let version = v0 ∷ v1 ∷ v2 ∷ v3 ∷ [] in
      IsTyped tree
      → IsRoomy tree
      → turns tree ≤ fuel
      → 1024 ≤ buffer_size
      → (nodes : Nodes) × (b : ℕ) × (open_nodes fuel (write_tree tree)
          ≡ parsed nodes (4 + length (write_tree tree)) [])
        × (read_tree stale (version ++ write_tree tree) buffer_size nodes ≡ some (b, tree))
unfolding open_nodes
read_tree-write_tree fuel stale buffer_size t v0 v1 v2 v3 props children next typed roomy enough
      large =
    let tree = branch t props children next in
    let version = v0 ∷ v1 ∷ v2 ∷ v3 ∷ [] in
    let e = write_tree-encode tree typed in
    let (b, back, room) =
      read_placed stale (version ++ write_tree tree) tree 4 buffer_size version []
        (ap (◌++◌ version) e) refl large roomy in
    (
      placed 4 tree,
      b,
      ap (open_nodes fuel) e
          ∙ tree-IsRead tree fuel 4 [] enough file_ends
          ∙ ap (λ k. parsed (placed 4 tree) (4 + k) [])
              (omega (arith, length-encode tree []) ∙ ap length (sym e)),
      back,
    )
