-- ===== src/PropStream.antt =====
-- `PropStream` and `PropWriteStream` of fileloader.h: the attributes of items and nodes as bytes.
-- A stream to read is its bytes with the pointer's offset; what lies behind its end is unknown, and
-- a read there is `overrun`. The machine is little-endian.
pub mod RoundTrip
pub mod Fields
pub mod Bounds
pub mod Buffer
mod Tests
use darghos_tfs04_86_v.Base.{
  ℕ, zero, suc, ◌+◌, ◌-◌, ◌*◌, ◌/◌, ◌%◌, Bool, true, false, List, [], ◌∷◌, ◌++◌, length, take, drop,
  Text, ltb, leb, ◌&&◌, ◌||◌, if◌then◌else◌, u8, u16, u32,
}

pub record PropStream : Type 0 where
  pub bytes : List ℕ
  pub p : ℕ

-- `size`: the distance to the end, as the pattern of an `int32_t`.
unfoldable pub left : PropStream → ℕ
left s = u32 (length s.bytes - s.p)

-- `a < b` of two patterns of `int32_t`s: those in the upper half of the words are negative.
unfoldable pub int_ltb : ℕ → ℕ → Bool
int_ltb a b =
    if leb 0x8000_0000 a
    then leb 0x8000_0000 b && ltb a b || ltb b 0x8000_0000
    else ltb b 0x8000_0000 && ltb a b

-- `init`.
unfoldable pub init : List ℕ → PropStream
init bytes = record { bytes = bytes; p = 0 }

-- What a read does: a value, the result `false`, or a read behind the end.
pub data Read {ℓ} (A : Type ℓ) : Type ℓ where
  got : A → PropStream → Read A
  refused : PropStream → Read A
  overrun : Read A

abbrev pub and_then {ℓ} : {A B : Type ℓ} → Read A → (A → PropStream → Read B) → Read B
and_then (got a s) f = f a s
and_then (refused s) f = refused s
and_then overrun f = overrun

-- `n` bytes of a word, the lowest first, and the word that `n` bytes hold.
abbrev pub word_bytes : ℕ → ℕ → List ℕ
word_bytes zero v = []
word_bytes (suc n) v = (v % 0x100) ∷ word_bytes n (v / 0x100)

abbrev pub word_of : List ℕ → ℕ
word_of [] = 0
word_of (b ∷ bs) = b + word_of bs * 0x100

-- The copy of `n` bytes at the pointer, which then moves on.
unfoldable pub copy : ℕ → PropStream → Read Text
copy n s =
    if ltb (length s.bytes - s.p) n
    then overrun
    else got (take n (drop s.p s.bytes)) (record s { p = s.p + n })

-- `getType` of a type of `n` bytes.
unfoldable pub get_type : ℕ → PropStream → Read ℕ
unfolding left int_ltb copy
get_type n s =
    if int_ltb (left s) n then refused s else and_then (copy n s) (λ bs s'. got (word_of bs) s')

unfoldable pub get_byte : PropStream → Read ℕ
unfolding get_type
get_byte s = get_type 1 s

unfoldable pub get_short : PropStream → Read ℕ
unfolding get_type
get_short s = get_type 2 s

unfoldable pub get_long : PropStream → Read ℕ
unfolding get_type
get_long s = get_type 4 s

-- The text of a length that was read. If it is refused, the length has been passed over.
unfoldable pub get_chars : ℕ → PropStream → Read Text
unfolding left int_ltb copy
get_chars n s = if int_ltb (left s) n then refused s else copy n s

unfoldable pub get_string : PropStream → Read Text
unfolding get_short get_chars
get_string s = and_then (get_short s) get_chars

unfoldable pub get_long_string : PropStream → Read Text
unfolding get_long get_chars
get_long_string s = and_then (get_long s) get_chars

-- `skip`, whose `int16_t` is a pattern: a negative one moves the pointer back.
-- In front of the bytes, where the pointer is invalid in the source, the offset stops at 0.
unfoldable pub skip : ℕ → PropStream → PropStream × Bool
unfolding left int_ltb
skip n s =
    if int_ltb (left s) (if leb 0x8000 n then n + 0xFFFF_0000 else n)
    then (s, false)
    else if leb 0x8000 n
    then (record s { p = s.p + n - 0x1_0000 }, true)
    else (record s { p = s.p + n }, true)

-- The stream to write: the bytes in front of `size`, and the size of the buffer.
pub record PropWriteStream : Type 0 where
  pub stream : List ℕ
  pub size : ℕ
  pub buffer_size : ℕ

unfoldable pub new_stream : PropWriteStream
new_stream = record { stream = []; size = 0; buffer_size = 32 }

-- `(n + 0x1F) & 0xFFFFFFE0`.
abbrev pub blocks : ℕ → ℕ
blocks n = u32 (n + 0x1F) / 0x20 * 0x20

-- The test for room, with the growth of the buffer. The sizes are 32-bit words.
unfoldable pub make_room : ℕ → PropWriteStream → PropWriteStream
make_room n s =
    if ltb (u32 (s.buffer_size + 0x1_0000_0000 - s.size)) n
    then record s { buffer_size = u32 (s.buffer_size + blocks n) }
    else s

-- `memcpy` at `size`, and the new size, which is a word: behind a size that has wrapped around the
-- bytes in front are written over.
unfoldable pub append_copy : List ℕ → PropWriteStream → PropWriteStream
append_copy bs s = record s { stream = take s.size s.stream ++ bs; size = u32 (s.size + length bs) }

-- `addType` of a type of `n` bytes.
unfoldable pub add_type : ℕ → ℕ → PropWriteStream → PropWriteStream
unfolding make_room append_copy
add_type n v s = append_copy (word_bytes n v) (make_room n s)

unfoldable pub add_byte : ℕ → PropWriteStream → PropWriteStream
unfolding add_type
add_byte v s = add_type 1 v s

unfoldable pub add_short : ℕ → PropWriteStream → PropWriteStream
unfolding add_type
add_short v s = add_type 2 v s

unfoldable pub add_long : ℕ → PropWriteStream → PropWriteStream
unfolding add_type
add_long v s = add_type 4 v s

unfoldable pub add_chars : ℕ → Text → PropWriteStream → PropWriteStream
unfolding make_room append_copy
add_chars n text s = append_copy (take n text) (make_room n s)

-- `addString`; the length is cut to 16 bits.
unfoldable pub add_string : Text → PropWriteStream → PropWriteStream
unfolding add_short add_chars
add_string text s = let n = u16 (length text) in add_chars n text (add_short n s)

-- `addLongString`, where the length is cut to 16 bits too.
unfoldable pub add_long_string : Text → PropWriteStream → PropWriteStream
unfolding add_long add_chars
add_long_string text s = let n = u16 (length text) in add_chars n text (add_long n s)
