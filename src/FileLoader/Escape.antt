-- ===== src/FileLoader/Escape.antt =====
-- Property bytes are escaped by the writer, skipped by the parser and unescaped by `getProps`.
use darghos_tfs04_86_v.Base.{
  ℕ, ◌≤◌, ◌↔◌, ◌+◌, ◌≡◌, refl, ap, Bool, true, false, ◌||◌, some, List, [], ◌∷◌, ◌++◌, length, ◌==◌,
  arith, Bool-cases, inl, inr,
}
use darghos_tfs04_86_v.FileLoader.{
  node_start, node_end, escape_char, skip_props, grow_buffer, unescape, write_data,
}

abbrev is_special : ℕ → Bool
is_special c = c == node_start || c == node_end || c == escape_char

plain_byte : (c : ℕ) → is_special c ≡ false → (c == escape_char) ≡ false
plain_byte c h = ground arith

-- `getProps` undoes `writeData`.
pub unescape-write_data : (stale : ℕ) (cs : List ℕ) → unescape stale false (write_data cs) ≡ cs
unfolding unescape write_data
unescape-write_data stale [] = refl
unescape-write_data stale (c ∷ cs) = elim (Bool-cases (is_special c)) [
  | inl special ↦ rw special (ap (◌∷◌ c) (unescape-write_data stale cs))
  | inr plain ↦ rw (plain, plain_byte c plain) (ap (◌∷◌ c) (unescape-write_data stale cs))
]

-- The parser passes over what `writeData` writes, up to the start or the end of a node.
pub skip_props-write_data :
    (pos : ℕ) (cs : List ℕ) (b : ℕ) (rest : List ℕ)
    → (b == node_start || b == node_end) ≡ true
    → skip_props false pos (write_data cs ++ b ∷ rest)
      ≡ some (pos + length (write_data cs), b ∷ rest)
unfolding skip_props write_data
skip_props-write_data pos [] b rest h = ground (arith, h)
skip_props-write_data pos (c ∷ cs) b rest h = ground (
  arith,
  skip_props-write_data (pos + 1) cs b rest h,
  skip_props-write_data (pos + 2) cs b rest h,
)

-- The buffer of `getProps` has room for the properties exactly if they have at most 1024 bytes more
-- than it had; longer ones are written behind its end.
pub grow_buffer-le :
    (buffer_size props_size : ℕ)
    → (props_size ≤ grow_buffer buffer_size props_size) ↔ (props_size ≤ buffer_size + 1024)
unfolding grow_buffer
grow_buffer-le buffer_size props_size = ground arith
