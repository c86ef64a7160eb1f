-- ===== src/PropStream/Buffer.antt =====
-- The buffer of a stream to write, and its growth.
use darghos_tfs04_86_v.Base.{
  ℕ, ◌+◌, ◌-◌, ◌≤◌, ◌<◌, ◌≡◌, refl, ap, ◌++◌, List, length, length-append, Text, ltb, u16, u32,
  arith, Bool-cases, inl, inr, ltb→lt,
}
use darghos_tfs04_86_v.PropStream.{
  word_bytes, PropWriteStream, make_room, append_copy, add_type, add_byte, add_short, add_long,
  add_chars, add_string,
}
use darghos_tfs04_86_v.PropStream.RoundTrip.{length-word_bytes, take_all, take_counted}
use darghos_tfs04_86_v.PropStream.Fields.{Field, byte, short, long, string, IsField, write}

-- The size is that of the bytes, and the buffer has room for them.
pub record Fits (s : PropWriteStream) : Type 0 where
  pub counted : s.size ≡ length s.stream
  pub room : s.size ≤ s.buffer_size

-- A write keeps the room, and the buffer grows by not more than this.
abbrev Grows : ℕ → PropWriteStream → PropWriteStream → Type 0
Grows n s t = Fits t × (t.buffer_size ≤ s.buffer_size + n + 0x1F)

room-append :
    (n : ℕ) (bs : List ℕ) (s : PropWriteStream)
    → length bs ≡ n
    → s.buffer_size + n + 0x20 < 0x1_0000_0000
    → Fits s
    → Grows n s (append_copy bs (make_room n s))
unfolding make_room append_copy
room-append n bs s e h v =
    let small : u32 (s.buffer_size + 0x1_0000_0000 - s.size) ≡ s.buffer_size - s.size =
      omega (arith, v.room) in
    let whole = ap (λ xs. length (xs ++ bs)) (take_counted s v.counted) in
    elim (Bool-cases (ltb (u32 (s.buffer_size + 0x1_0000_0000 - s.size)) n)) [
      | inl full ↦ rw full (
        record {
          counted = omega (arith, length-append s.stream bs, whole, v.counted, v.room, e);
          room = omega (arith, v.room, e, small, ltb→lt _ _ full);
        },
        omega arith,
      )
      | inr free ↦ rw free (
        record {
          counted = omega (arith, length-append s.stream bs, whole, v.counted, v.room, e);
          room = ground (arith, v.room, e, small, free);
        },
        omega arith,
      )
    ]

add_type-Grows :
    (n v : ℕ) (s : PropWriteStream)
    → s.buffer_size + n + 0x20 < 0x1_0000_0000
    → Fits s
    → Grows n s (add_type n v s)
unfolding add_type
add_type-Grows n v s h f = room-append n (word_bytes n v) s (length-word_bytes n v) h f

add_string-Grows :
    (text : Text) (s : PropWriteStream)
    → length text < 0x1_0000
    → s.buffer_size < 0xFFFE_0000
    → Fits s
    → Grows (length text + 0x21) s (add_string text s)
unfolding add_string add_short add_chars
add_string-Grows text s h room f =
    let n : u16 (length text) ≡ length text = omega arith in
    let headed = add_type 2 (length text) s in
    let (fits, grown) = add_type-Grows 2 (length text) s (omega arith) f in
    let (fits', grown') = room-append (length text) text headed refl (omega (arith, grown)) fits in
    rw (n, take_all text) (fits', omega (arith, grown, grown'))

-- Every write to a stream whose buffer is below 0xFFFE0000 bytes and fits leaves one that fits: the
-- size counts the bytes, and the buffer has been enlarged so that they lie within it.
pub write-Fits :
    (f : Field) (s : PropWriteStream)
    → IsField f
    → s.buffer_size < 0xFFFE_0000
    → Fits s
    → Fits (write f s)
unfolding write add_byte add_short add_long
write-Fits (byte v) s h room fits = (add_type-Grows 1 v s (omega arith) fits).0
write-Fits (short v) s h room fits = (add_type-Grows 2 v s (omega arith) fits).0
write-Fits (long v) s h room fits = (add_type-Grows 4 v s (omega arith) fits).0
write-Fits (string text) s h room fits = (add_string-Grows text s h room fits).0
