-- ===== src/PropStream/RoundTrip.antt =====
-- Writing a field to a stream, and reading it.
use darghos_tfs04_86_v.Base.{
  ℕ, zero, suc, ◌+◌, ◌/◌, ◌<◌, ◌≡◌, refl, sym, ap, ◌∙◌, false, List, [], ◌∷◌, ◌++◌, append_assoc,
  length, ◌-◌, length-append, take-length, drop-length, take, drop, Text, ltb, u16, u32, arith,
}
use darghos_tfs04_86_v.PropStream.{
  PropStream, left, int_ltb, got, and_then, word_bytes, word_of, get_type, get_short, get_chars,
  get_string, PropWriteStream, make_room, append_copy, add_type, add_short, add_chars, add_string,
}

-- The pointer between the bytes that were read and the bytes to come.
abbrev pub at : List ℕ → List ℕ → PropStream
at before after = record { bytes = before ++ after; p = length before }

pub take_all : (xs : List ℕ) → take (length xs) xs ≡ xs
take_all [] = refl
take_all (x ∷ xs) = ap (◌∷◌ x) (take_all xs)

pub rest-at : (before after : List ℕ) → length (before ++ after) - length before ≡ length after
rest-at before after = omega (arith, length-append before after)

pub left-at : (before after : List ℕ) → left (at before after) ≡ u32 (length after)
unfolding left
left-at before after = ap u32 (rest-at before after)

pub length-word_bytes : (n v : ℕ) → length (word_bytes n v) ≡ n
length-word_bytes zero v = refl
length-word_bytes (suc n) v = ap suc (length-word_bytes n (v / 0x100))

pub word_of-bytes2 : (v : ℕ) → v < 0x1_0000 → word_of (word_bytes 2 v) ≡ v
word_of-bytes2 v h = omega arith

pub word_of-bytes1 : (v : ℕ) → v < 0x100 → word_of (word_bytes 1 v) ≡ v
word_of-bytes1 v h = omega arith

pub word_of-bytes4 : (v : ℕ) → v < 0x1_0000_0000 → word_of (word_bytes 4 v) ≡ v
word_of-bytes4 v h = omega arith

-- Fewer than 2^31 bytes are to come, and those of `bs` are among them.
enough : (n k : ℕ) → n + k < 0x8000_0000 → int_ltb (u32 (n + k)) n ≡ false
unfolding int_ltb
enough n k h = let e : u32 (n + k) ≡ n + k = omega (arith, h) in rw e (ground (arith, h))

room-at :
    (before bs after : List ℕ)
    → length (bs ++ after) < 0x8000_0000
    → int_ltb (left (at before (bs ++ after))) (length bs) ≡ false
room-at before bs after h =
    rw (left-at before (bs ++ after), length-append bs after)
      (enough (length bs) (length after) (omega (arith, h, length-append bs after)))

inside-at :
    (before bs after : List ℕ)
    → ltb (length (before ++ (bs ++ after)) - length before) (length bs) ≡ false
inside-at before bs after = rw (rest-at before (bs ++ after), length-append bs after) (ground arith)

copied :
    (before bs after : List ℕ)
    → take (length bs) (drop (length before) (before ++ (bs ++ after))) ≡ bs
copied before bs after = rw (drop-length before (bs ++ after)) (take-length bs after)

at_end :
    (before bs after : List ℕ)
    → record (at before (bs ++ after)) { p = length before + length bs } ≡ at (before ++ bs) after
at_end before bs after = rw (length-append before bs, append_assoc before bs after)

get_type-at :
    (before bs after : List ℕ)
    → length (bs ++ after) < 0x8000_0000
    → get_type (length bs) (at before (bs ++ after)) ≡ got (word_of bs) (at (before ++ bs) after)
unfolding get_type
get_type-at before bs after h = rw (
  room-at before bs after h,
  inside-at before bs after,
  copied before bs after,
  at_end before bs after,
)

pub get_word-at :
    (n v : ℕ) (before after : List ℕ)
    → word_of (word_bytes n v) ≡ v
    → length (word_bytes n v ++ after) < 0x8000_0000
    → get_type n (at before (word_bytes n v ++ after)) ≡ got v (at (before ++ word_bytes n v) after)
get_word-at n v before after h l =
    ap (λ k. get_type k (at before (word_bytes n v ++ after))) (sym (length-word_bytes n v))
    ∙ get_type-at before (word_bytes n v) after l
    ∙ ap (λ u. got u (at (before ++ word_bytes n v) after)) h

pub get_chars-at :
    (before text after : List ℕ)
    → length (text ++ after) < 0x8000_0000
    → get_chars (length text) (at before (text ++ after)) ≡ got text (at (before ++ text) after)
unfolding get_chars
get_chars-at before text after h = rw (
  room-at before text after h,
  inside-at before text after,
  copied before text after,
  at_end before text after,
)

-- The bytes that `addString` writes of a short text.
abbrev pub string_bytes : Text → List ℕ
string_bytes text = word_bytes 2 (length text) ++ text

pub get_string-at :
    (before text after : List ℕ)
    → length text < 0x1_0000
    → length (string_bytes text ++ after) < 0x8000_0000
    → get_string (at before (string_bytes text ++ after))
      ≡ got text (at (before ++ string_bytes text) after)
unfolding get_string get_short
get_string-at before text after h l =
    let whole = ap length (append_assoc (word_bytes 2 (length text)) text after) in
    let split = length-append (word_bytes 2 (length text)) (text ++ after) in
    ap (λ bs. and_then (get_type 2 (at before bs)) get_chars)
      (append_assoc (word_bytes 2 (length text)) text after)
    ∙ ap (λ r. and_then r get_chars)
        (get_word-at 2 (length text) before (text ++ after) (word_of-bytes2 (length text) h)
          (omega (arith, l, whole)))
    ∙ get_chars-at (before ++ word_bytes 2 (length text)) text after
        (omega (arith, l, whole, split))
    ∙ ap (λ bs. got text (at bs after)) (append_assoc before (word_bytes 2 (length text)) text)

-- The size counts the bytes.
abbrev pub IsCounted : PropWriteStream → Type 0
IsCounted s = s.size ≡ length s.stream

-- The bytes that a write puts behind a stream whose sizes stay words.
abbrev pub Appends : List ℕ → PropWriteStream → PropWriteStream → Type 0
Appends bs s t = (t.stream ≡ s.stream ++ bs) × IsCounted t

pub take_counted : (s : PropWriteStream) → IsCounted s → take s.size s.stream ≡ s.stream
take_counted s c = ap (λ k. take k s.stream) c ∙ take_all s.stream

append-Appends :
    (n : ℕ) (bs : List ℕ) (s : PropWriteStream)
    → IsCounted s
    → length s.stream + length bs < 0x1_0000_0000
    → Appends bs s (append_copy bs (make_room n s))
unfolding make_room append_copy
append-Appends n bs s c h =
    let whole = take_counted s c in
    let same_stream : (make_room n s).stream ≡ s.stream = ground arith in
    let same_size : (make_room n s).size ≡ s.size = ground arith in
    (
      rw (same_stream, same_size, whole) refl,
      rw (same_stream, same_size, whole) (omega (arith, c, h, length-append s.stream bs)),
    )

pub add_type-Appends :
    (n v : ℕ) (s : PropWriteStream)
    → IsCounted s
    → length s.stream + n < 0x1_0000_0000
    → Appends (word_bytes n v) s (add_type n v s)
unfolding add_type
add_type-Appends n v s c h =
    append-Appends n (word_bytes n v) s c (omega (arith, h, length-word_bytes n v))

pub add_chars-Appends :
    (n : ℕ) (text : Text) (s : PropWriteStream)
    → IsCounted s
    → length s.stream + length (take n text) < 0x1_0000_0000
    → Appends (take n text) s (add_chars n text s)
unfolding add_chars
add_chars-Appends n text s c h = append-Appends n (take n text) s c h

pub add_string-Appends :
    (text : Text) (s : PropWriteStream)
    → length text < 0x1_0000
    → IsCounted s
    → length s.stream + length (string_bytes text) < 0x1_0000_0000
    → Appends (string_bytes text) s (add_string text s)
unfolding add_string add_short
add_string-Appends text s h c l =
    let e : u16 (length text) ≡ length text = omega arith in
    let two = length-word_bytes 2 (length text) in
    let both = length-append (word_bytes 2 (length text)) text in
    let headed = add_type 2 (length text) s in
    let (stream, count) = add_type-Appends 2 (length text) s c (omega (arith, l, both, two)) in
    let long : length headed.stream ≡ length s.stream + 2 =
      omega (arith, ap length stream, length-append s.stream (word_bytes 2 (length text)), two) in
    let (stream', count') =
      add_chars-Appends (length text) text headed count
        (omega (arith, l, both, two, long, ap length (take_all text))) in
    rw e (
      stream'
          ∙ rw (stream, take_all text) (append_assoc s.stream (word_bytes 2 (length text)) text),
      count',
    )
