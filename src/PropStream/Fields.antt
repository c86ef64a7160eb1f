-- ===== src/PropStream/Fields.antt =====
-- Sequences of fields, written to a new stream and read.
use darghos_tfs04_86_v.Base.{
  ℕ, ◌<◌, ◌≡◌, sym, ◌∙◌, List, [], ◌∷◌, ◌++◌, append_assoc, append-nil, length, length-append, Text,
  All, ◌+◌, refl, ap, arith,
}
use darghos_tfs04_86_v.PropStream.{
  PropStream, init, Read, got, and_then, word_bytes, get_byte, get_short, get_long, get_string,
  PropWriteStream, new_stream, add_byte, add_short, add_long, add_string,
}
use darghos_tfs04_86_v.PropStream.RoundTrip.{
  at, string_bytes, get_word-at, word_of-bytes1, word_of-bytes2, word_of-bytes4, get_string-at,
  length-word_bytes, IsCounted, Appends, add_type-Appends, add_string-Appends,
}

-- A field of a stream, by the operation that writes it.
pub data Field : Type 0 where
  byte short long : ℕ → Field
  string : Text → Field

abbrev pub IsField : Field → Type 0
IsField (byte v) = v < 0x100
IsField (short v) = v < 0x1_0000
IsField (long v) = v < 0x1_0000_0000
IsField (string text) = length text < 0x1_0000

unfoldable pub write : Field → PropWriteStream → PropWriteStream
write (byte v) s = add_byte v s
write (short v) s = add_short v s
write (long v) s = add_long v s
write (string text) s = add_string text s

unfoldable pub read_like : Field → PropStream → Read Field
read_like (byte v) s = and_then (get_byte s) (λ w t. got (byte w) t)
read_like (short v) s = and_then (get_short s) (λ w t. got (short w) t)
read_like (long v) s = and_then (get_long s) (λ w t. got (long w) t)
read_like (string text) s = and_then (get_string s) (λ w t. got (string w) t)

abbrev encode : Field → List ℕ
encode (byte v) = word_bytes 1 v
encode (short v) = word_bytes 2 v
encode (long v) = word_bytes 4 v
encode (string text) = string_bytes text

write-Appends :
    (f : Field) (s : PropWriteStream)
    → IsField f
    → IsCounted s
    → length s.stream + length (encode f) < 0x1_0000_0000
    → Appends (encode f) s (write f s)
unfolding write add_byte add_short add_long
write-Appends (byte v) s h c l = add_type-Appends 1 v s c (omega (arith, l, length-word_bytes 1 v))
write-Appends (short v) s h c l = add_type-Appends 2 v s c (omega (arith, l, length-word_bytes 2 v))
write-Appends (long v) s h c l = add_type-Appends 4 v s c (omega (arith, l, length-word_bytes 4 v))
write-Appends (string text) s h c l = add_string-Appends text s h c l

read_like-at :
    (f : Field) (before after : List ℕ)
    → IsField f
    → length (encode f ++ after) < 0x8000_0000
    → read_like f (at before (encode f ++ after)) ≡ got f (at (before ++ encode f) after)
unfolding read_like get_byte get_short get_long
read_like-at (byte v) before after h l = rw (get_word-at 1 v before after (word_of-bytes1 v h) l)
read_like-at (short v) before after h l = rw (get_word-at 2 v before after (word_of-bytes2 v h) l)
read_like-at (long v) before after h l = rw (get_word-at 4 v before after (word_of-bytes4 v h) l)
read_like-at (string text) before after h l = rw (get_string-at before text after h l)

pub write_all : List Field → PropWriteStream → PropWriteStream
write_all [] s = s
write_all (f ∷ fs) s = write_all fs (write f s)

-- The reads of the same kinds, up to the first that fails.
pub read_all : List Field → PropStream → Read (List Field)
read_all [] s = got [] s
read_all (f ∷ fs) s =
    and_then (read_like f s) (λ g t. and_then (read_all fs t) (λ gs u. got (g ∷ gs) u))

-- The bytes of the fields.
abbrev pub encode_all : List Field → List ℕ
encode_all [] = []
encode_all (f ∷ fs) = encode f ++ encode_all fs

write_all-stream :
    (fs : List Field) (s : PropWriteStream)
    → All IsField fs
    → IsCounted s
    → length s.stream + length (encode_all fs) < 0x1_0000_0000
    → (write_all fs s).stream ≡ s.stream ++ encode_all fs
unfolding write_all
write_all-stream [] s h c l = sym (append-nil s.stream)
write_all-stream (f ∷ fs) s (hf, hs) c l =
    let both = length-append (encode f) (encode_all fs) in
    let (stream, count) = write-Appends f s hf c (omega (arith, l, both)) in
    let long = ap length stream ∙ length-append s.stream (encode f) in
    write_all-stream fs (write f s) hs count (omega (arith, l, both, long))
    ∙ rw stream (append_assoc s.stream (encode f) (encode_all fs))

read_all-at :
    (fs : List Field) (before after : List ℕ)
    → All IsField fs
    → length (encode_all fs ++ after) < 0x8000_0000
    → read_all fs (at before (encode_all fs ++ after)) ≡ got fs (at (before ++ encode_all fs) after)
unfolding read_all
read_all-at [] before after h l = rw (append-nil before)
read_all-at (f ∷ fs) before after (hf, hs) l =
    let whole = ap length (append_assoc (encode f) (encode_all fs) after) in
    let split = length-append (encode f) (encode_all fs ++ after) in
    rw (
      append_assoc (encode f) (encode_all fs) after,
      read_like-at f before (encode_all fs ++ after) hf (omega (arith, l, whole)),
      read_all-at fs (before ++ encode f) after hs (omega (arith, l, whole, split)),
      append_assoc before (encode f) (encode_all fs),
    )

-- Whatever fields are written to a new stream, if they take less than 2^31 bytes, reading fields of
-- the same kinds in the same order gives them back and ends at the end of the stream; numbers fit
-- their width, and texts have less than 65536 characters.
pub read_all-write_all :
    (fs : List Field)
    → All IsField fs
    → length (encode_all fs) < 0x8000_0000
    → let s = write_all fs new_stream in read_all fs (init s.stream) ≡ got fs (at s.stream [])
unfolding init new_stream
read_all-write_all fs h l =
    rw (write_all-stream fs new_stream h refl (omega (arith, l)), append-nil (encode_all fs))
      (rw (append-nil (encode_all fs)) at
        (read_all-at fs [] [] h (omega (arith, l, ap length (append-nil (encode_all fs))))))
