-- ===== src/FileLoader.antt =====
-- `FileLoader` of fileloader.h and fileloader.cpp, without its cache: the tree of nodes in a file.
-- A file is its bytes. The seeks and tells of the C library succeed.
pub mod Escape
pub mod Trees
pub mod RoundTrip
pub mod Fuel
mod Tests
use darghos_tfs04_86_v.Base.{
  ℕ, zero, suc, ◌+◌, ◌-◌, Bool, true, false, ◌||◌, Option, none, some, List, [], ◌∷◌, ◌++◌, length,
  take, drop, min, leb, ltb, ◌==◌, if◌then◌else◌,
}

-- SPECIAL_BYTES.
abbrev pub node_start : ℕ
node_start = 0xFE

abbrev pub node_end : ℕ
node_end = 0xFF

abbrev pub escape_char : ℕ
escape_char = 0xFD

-- A `NODE` pointer: null, or a node with its pointers `child` and `next`.
pub data Nodes : Type 0 where
  no_node : Nodes
  node : (start props_size type : ℕ) (child next : Nodes) → Nodes

pub data Error : Type 0 where
  error_none error_invalid_file_version error_can_not_open error_can_not_create error_eof : Error
  error_seek_error error_not_open error_invalid_node error_invalid_format : Error
  error_tell_error error_couldnotwrite error_cache_error : Error

-- What `parseNode` does: the node with those behind it, the position, and the bytes from there on;
-- an error; or more turns than were allowed.
pub data Parsed : Type 0 where
  parsed : Nodes → ℕ → List ℕ → Parsed
  failed : Error → Parsed
  out_of_fuel : Parsed

-- The turns of the inner loop over plain and escaped bytes, by whether the last byte was ESCAPE_CHAR:
-- the position of the first other byte, with the bytes from there on, or none at the end of the file.
unfoldable pub skip_props : Bool → ℕ → List ℕ → Option (ℕ × List ℕ)
skip_props escaped pos [] = none
skip_props escaped pos (b ∷ bs) =
    let plain = skip_props false (suc pos) bs in
    let next = skip_props true (suc pos) bs in
    if escaped
    then plain
    else if b == node_start || b == node_end
    then some (pos, b ∷ bs)
    else if b == escape_char
    then next
    else plain

-- Where `parseNode` stands: in front of a node's type; or behind the property bytes, with the
-- node's size, if it is set, and its child.
pub data Turn : Type 0 where
  read_type : (start pos : ℕ) → List ℕ → Turn
  read_props : (start type : ℕ) → Option ℕ → Nodes → Option (ℕ × List ℕ) → Turn

abbrev pub props_end : ℕ → ℕ → Option ℕ → ℕ
props_end start pos none = pos - start - 2
props_end start pos (some size) = size

-- The result with a node in front.
abbrev pub in_front : (Nodes → Nodes) → Parsed → Parsed
in_front f (parsed next pos rest) = parsed (f next) pos rest
in_front f (failed e) = failed e
in_front f out_of_fuel = out_of_fuel

abbrev pub parsed_then : Parsed → (Nodes → ℕ → List ℕ → Parsed) → Parsed
parsed_then (parsed child pos rest) f = f child pos rest
parsed_then (failed e) f = failed e
parsed_then out_of_fuel f = out_of_fuel

-- `parseNode`, with fuel for its calls and for the turns of its loops.
unfoldable pub parse_node : ℕ → Turn → Parsed
unfolding skip_props
parse_node zero turn = out_of_fuel
parse_node (suc n) (read_type start pos []) = failed error_eof
parse_node (suc n) (read_type start pos (t ∷ rest)) =
    parse_node n (read_props start t none no_node (skip_props false (suc pos) rest))
parse_node (suc n) (read_props start t size child none) = failed error_eof
parse_node (suc n) (read_props start t size child (some (pos, []))) = failed error_eof
parse_node (suc n) (read_props start t size child (some (pos, b ∷ []))) =
    if b == node_start
    then failed error_eof
    else parsed (node start (props_end start pos size) t child no_node) (suc pos) []
parse_node (suc n) (read_props start t size child (some (pos, b ∷ c ∷ rest))) =
    let inside =
      parsed_then (parse_node n (read_type pos (suc pos) (c ∷ rest))) (λ child' pos' rest'.
        parse_node n
          (read_props start t (some (pos - start - 2)) child' (skip_props false pos' rest'))) in
    let this = node start (props_end start pos size) t child in
    let behind = in_front this (parse_node n (read_type (suc pos) (pos + 2) rest)) in
    if b == node_start
    then inside
    else if c == node_start
    then behind
    else if c == node_end
    then parsed (this no_node) (suc pos) (c ∷ rest)
    else failed error_invalid_format

-- The end of `openFile` for a file to read, from the byte behind the version on. If that is no
-- NODE_START, the result is `false` and no error is set.
unfoldable pub open_nodes : ℕ → List ℕ → Parsed
unfolding parse_node
open_nodes fuel [] = failed error_eof
open_nodes fuel (b ∷ rest) =
    if b == node_start then parse_node fuel (read_type 4 5 rest) else failed error_none

-- `getProps`: the buffer grows by 1024 bytes at most once.
unfoldable pub grow_buffer : ℕ → ℕ → ℕ
grow_buffer buffer_size props_size =
    if leb buffer_size props_size then buffer_size + 1024 else buffer_size

-- The loop of `getProps`, by whether the last byte was ESCAPE_CHAR. Behind a last escape byte it
-- takes the byte that the buffer has there.
unfoldable pub unescape : ℕ → Bool → List ℕ → List ℕ
unescape stale true [] = stale ∷ []
unescape stale false [] = []
unescape stale true (b ∷ bs) = b ∷ unescape stale false bs
unescape stale false (b ∷ bs) =
    let next = unescape stale true bs in
    let plain = unescape stale false bs in if b == escape_char then next else b ∷ plain

-- What `getProps` does: bytes; NULL, if the file ends before; or a write behind the end of the buffer.
pub data Props : Type 0 where
  props_of : List ℕ → Props
  no_props overflow : Props

-- The bytes from a position in the file on that a buffer takes, before they are unescaped.
unfoldable pub read_props_into : ℕ → ℕ → List ℕ → ℕ → Props
unfolding unescape
read_props_into stale buffer_size bytes props_size =
    if ltb buffer_size (min props_size (length bytes))
    then overflow
    else if ltb (length bytes) props_size
    then no_props
    else props_of (unescape stale false (take props_size bytes))

-- `getProps` of a node of a file, with the size of the buffer behind it.
unfoldable pub get_props : ℕ → ℕ → List ℕ → ℕ → ℕ → ℕ × Props
unfolding grow_buffer read_props_into
get_props stale buffer_size file start props_size =
    let grown = grow_buffer buffer_size props_size in
    (grown, read_props_into stale grown (drop (start + 2) file) props_size)

-- `writeData`.
unfoldable pub write_data : List ℕ → List ℕ
write_data [] = []
write_data (c ∷ cs) =
    let rest = write_data cs in
    if c == node_start || c == node_end || c == escape_char
    then escape_char ∷ c ∷ rest
    else c ∷ rest

-- `startNode`, `setProps` and `endNode`, by the bytes that they write.
unfoldable pub start_node : ℕ → List ℕ
unfolding write_data
start_node t = node_start ∷ write_data (t ∷ [])

unfoldable pub end_node : List ℕ
end_node = node_end ∷ []
