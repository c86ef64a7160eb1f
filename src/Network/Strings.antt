-- ===== src/Network/Strings.antt =====
-- Writing to a message, and reading it.
use darghos_tfs04_86_v.Base.{
  ℕ, suc, ◌+◌, ◌-◌, ◌≤◌, ◌<◌, ◌≡◌, ◌≢◌, refl, ◌∙◌, true, false, List, [], ◌∷◌, ◌++◌, length, ==_iff,
  u16, Text, update, arith,
}
use darghos_tfs04_86_v.Network.{
  NetworkMessage, network_max_size, has_space, read_bytes, write_bytes, u16_bytes, u16_of, get_u16,
  put_u16, append_bytes, append_string, put_string, get_string, c_str,
}

write_bytes_before : (b : ℕ → ℕ) (p : ℕ) (xs : List ℕ) (j : ℕ) → j < p → write_bytes b p xs j ≡ b j
write_bytes_before b p [] j h = refl
write_bytes_before b p (x ∷ xs) j h =
    write_bytes_before (update b p x) (suc p) xs j (omega arith) ∙ ground (arith, ==_iff j p)

pub read-write_bytes :
    (b : ℕ → ℕ) (p : ℕ) (xs ys : List ℕ)
    → read_bytes (write_bytes b p (xs ++ ys)) p (length xs) ≡ xs
read-write_bytes b p [] ys = refl
read-write_bytes b p (x ∷ xs) ys = ground (
  arith,
  write_bytes_before (update b p x) (suc p) (xs ++ ys) p,
  read-write_bytes (update b p x) (suc p) xs ys,
  ==_iff p p,
)

has_space_lt : (n : ℕ) (m : NetworkMessage) → has_space n m ≡ true → n + m.position < 15344
unfolding has_space
has_space_lt n m h = ground arith

put_string_written :
    (m : NetworkMessage) (value : Text)
    → length (c_str value) ≤ 8192
    → length (c_str value) + 2 + m.position < 15344
    → put_string value true m
      ≡ append_string (c_str value) (append_bytes (u16_bytes (length (c_str value))) m)
unfolding put_string put_u16 has_space
put_string_written m value h k = ground arith

get_string_at :
    (m : NetworkMessage) (n : ℕ)
    → u16_of (m.buffer m.position) (m.buffer (m.position + 1)) ≡ n
    → m.position + 2 + n < 16384
    → get_string false 0 m
      ≡ (read_bytes m.buffer (m.position + 2) n, record m { position = m.position + 2 + n })
unfolding get_string get_u16
get_string_at m n e h =
    let p : u16 (m.position + 2) ≡ m.position + 2 = omega arith in
    let q : u16 (m.position + 2 + n) ≡ m.position + 2 + n = omega arith in
    rw (e, p, q) (ground arith)

header_read :
    (b : ℕ → ℕ) (p n : ℕ) (ys : List ℕ)
    → n < 0x1_0000
    → u16_of
        (write_bytes (write_bytes b p (u16_bytes n)) (p + 2) ys p)
        (write_bytes (write_bytes b p (u16_bytes n)) (p + 2) ys (p + 1))
      ≡ n
header_read b p n ys h =
    rw
      (
        write_bytes_before (write_bytes b p (u16_bytes n)) (p + 2) ys p (omega arith),
        write_bytes_before (write_bytes b p (u16_bytes n)) (p + 2) ys (p + 1) (omega arith),
      )
      (ground (arith, ==_iff p p, ==_iff p (suc p), ==_iff (p + 1) (suc p)))

-- A text of at most 8192 characters before its first NUL, which fits into the buffer with its length,
-- is read back up to that NUL, and the reader stands where the writer does.
pub get_string-put_string :
    (m : NetworkMessage) (value : Text)
    → length (c_str value) ≤ 8192
    → length (c_str value) + 2 + m.position < 15344
    → get_string false 0 (record (put_string value true m) { position = m.position })
      ≡ (c_str value, put_string value true m)
unfolding append_string append_bytes
get_string-put_string m value h k =
    let n = length (c_str value) in
    let b = write_bytes m.buffer m.position (u16_bytes n) in
    let p : u16 (m.position + 2) ≡ m.position + 2 = omega arith in
    let q : u16 (m.position + 2 + n) ≡ m.position + 2 + n = omega arith in
    rw (put_string_written m value h k, p)
      (get_string_at
          (record {
            size = u16 (u16 (m.size + 2) + n);
            position = m.position;
            buffer = write_bytes b (m.position + 2) (c_str value ++ 0 ∷ []);
          })
          n (header_read m.buffer m.position n (c_str value ++ 0 ∷ []) (omega arith)) (omega arith)
        ∙ rw (read-write_bytes b (m.position + 2) (c_str value) (0 ∷ []), q))

-- `getString` of a given size above 0 accepts a text that ends behind the buffer, as long as it ends
-- before 16384: the last byte that it reads stands at NETWORK_MAX_SIZE or later.
pub get_string_past_end :
    (m : NetworkMessage) (n : ℕ)
    → n ≢ 0
    → network_max_size < m.position + n
    → m.position + n < 16384
    → (get_string false n m
        ≡ (read_bytes m.buffer m.position n, record m { position = m.position + n }))
      × (network_max_size ≤ m.position + n - 1)
unfolding get_string
get_string_past_end m n h k l =
    let q : u16 (m.position + n) ≡ m.position + n = omega arith in
    (ground (arith, ==_iff n 0), omega arith)
