-- ===== src/Network.antt =====
-- networkmessage.h and networkmessage.cpp: the message buffer, with its reads and writes, and
-- protocol.cpp's encryption in a child. A buffer is a store of bytes; `m_size` and `m_position` are
-- 16-bit words. The reads and writes on sockets are left out.
pub mod Strings
pub mod Xtea
mod Tests
use darghos_tfs04_86_v.Base.{
  ℕ, suc, ◌+◌, ◌-◌, ◌*◌, ◌/◌, ◌%◌, Bool, true, false, not, ◌&&◌, ◌||◌, List, [], ◌∷◌, ◌++◌, length,
  ltb, leb, ◌==◌, if◌then◌else◌, u16, zero, replicate, Text, update,
}
use darghos_tfs04_86_v.Position.{Position}

-- NETWORK_MAX_SIZE.
abbrev pub network_max_size : ℕ
network_max_size = 15360

pub record NetworkMessage : Type 0 where
  pub size : ℕ
  pub position : ℕ
  pub buffer : ℕ → ℕ

-- `reset`; the bytes stay.
unfoldable pub reset : ℕ → NetworkMessage → NetworkMessage
reset size m = record m { size = 0; position = size }

unfoldable pub has_space : ℕ → NetworkMessage → Bool
has_space n m = ltb (n + m.position) (network_max_size - 16)

abbrev pub read_bytes : (ℕ → ℕ) → ℕ → ℕ → List ℕ
read_bytes b p zero = []
read_bytes b p (suc n) = b p ∷ read_bytes b (suc p) n

abbrev pub write_bytes : (ℕ → ℕ) → ℕ → List ℕ → ℕ → ℕ
write_bytes b p [] = b
write_bytes b p (x ∷ xs) = write_bytes (update b p x) (suc p) xs

-- Little-endian words.
abbrev pub u16_bytes : ℕ → List ℕ
u16_bytes v = (v % 0x100) ∷ (v / 0x100 % 0x100) ∷ []

abbrev pub u16_of : ℕ → ℕ → ℕ
u16_of a b = a + b * 0x100

-- `get<uint8_t>`, `get<uint16_t>` and `get<uint32_t>`: the value, and the message after it.
unfoldable pub get_u8 : Bool → NetworkMessage → ℕ × NetworkMessage
get_u8 peek m =
    (m.buffer m.position, if peek then m else record m { position = u16 (m.position + 1) })

unfoldable pub get_u16 : Bool → NetworkMessage → ℕ × NetworkMessage
get_u16 peek m = (
  u16_of (m.buffer m.position) (m.buffer (m.position + 1)),
  if peek then m else record m { position = u16 (m.position + 2) },
)

unfoldable pub get_u32 : Bool → NetworkMessage → ℕ × NetworkMessage
get_u32 peek m = (
  u16_of (m.buffer m.position) (m.buffer (m.position + 1))
      + u16_of (m.buffer (m.position + 2)) (m.buffer (m.position + 3)) * 0x1_0000,
  if peek then m else record m { position = u16 (m.position + 4) },
)

-- What `put` does once there is space: the bytes, the position and the size.
unfoldable pub append_bytes : List ℕ → NetworkMessage → NetworkMessage
append_bytes xs m = record {
  size = u16 (m.size + length xs);
  position = u16 (m.position + length xs);
  buffer = write_bytes m.buffer m.position xs;
}

-- `put<uint8_t>`, `put<uint16_t>` and `put<uint32_t>`; without space nothing is written.
unfoldable pub put_u8 : ℕ → NetworkMessage → NetworkMessage
unfolding has_space append_bytes
put_u8 v m = if not (has_space 1 m) then m else append_bytes ((v % 0x100) ∷ []) m

unfoldable pub put_u16 : ℕ → NetworkMessage → NetworkMessage
unfolding has_space append_bytes
put_u16 v m = if not (has_space 2 m) then m else append_bytes (u16_bytes v) m

unfoldable pub put_u32 : ℕ → NetworkMessage → NetworkMessage
unfolding has_space append_bytes
put_u32 v m =
    if not (has_space 4 m) then m else append_bytes (u16_bytes v ++ u16_bytes (v / 0x1_0000)) m

-- `getString`. The test is against 16384, and the subtraction is of `int`s.
unfoldable pub get_string : Bool → ℕ → NetworkMessage → Text × NetworkMessage
unfolding get_u16
get_string peek wanted m =
    let (read, after) = get_u16 peek m in
    let size = if wanted == 0 then read else wanted in
    let m' = if wanted == 0 then after else m in
    let start = if peek then u16 (m'.position + 2) else m'.position in
    if leb 16384 (size + start) then ([], m') else (
      read_bytes m'.buffer start size,
      if peek then m' else record m' { position = u16 (m'.position + size) },
    )

-- `getRaw`.
unfoldable pub get_raw : Bool → NetworkMessage → Text × NetworkMessage
unfolding get_string
get_raw peek m = get_string peek (u16 (m.size + 0x1_0000 - m.position)) m

-- The characters before the first NUL.
abbrev pub c_str : Text → Text
c_str [] = []
c_str (c ∷ cs) = let rest = c ∷ c_str cs in if c == 0 then [] else rest

-- `strcpy` with the sizes after it: the NUL behind the text is written too, and not counted.
unfoldable pub append_string : Text → NetworkMessage → NetworkMessage
append_string s m = record {
  size = u16 (m.size + length s);
  position = u16 (m.position + length s);
  buffer = write_bytes m.buffer m.position (s ++ 0 ∷ []);
}

-- `putString`.
unfoldable pub put_string : Text → Bool → NetworkMessage → NetworkMessage
unfolding has_space put_u16 append_string
put_string value add_size m =
    let size = length (c_str value) in
    let headed = if add_size then put_u16 size m else m in
    if not (has_space (size + (if add_size then 2 else 0)) m) || ltb 8192 size
    then m
    else append_string (c_str value) headed

-- `putPadding`; the position stays.
unfoldable pub put_padding : ℕ → NetworkMessage → NetworkMessage
unfolding has_space
put_padding amount m = if not (has_space amount m) then m else record m {
  buffer = write_bytes m.buffer m.position (replicate amount 0x33);
  size = u16 (m.size + amount);
}

-- A `char` is signed: as a word its upper half stands for the topmost words.
abbrev pub char_word : ℕ → ℕ
char_word c = if ltb c 0x80 then c else c + 0xff00

unfoldable pub get_position : NetworkMessage → Position × NetworkMessage
unfolding get_u16 get_u8
get_position m =
    let (x, m1) = get_u16 false m in
    let (y, m2) = get_u16 false m1 in
    let (z, m3) = get_u8 false m2 in (record { x = x; y = y; z = char_word z }, m3)

unfoldable pub put_position : Position → NetworkMessage → NetworkMessage
unfolding put_u16 put_u8
put_position p m = put_u8 p.z (put_u16 p.y (put_u16 p.x m))

-- `decodeHeader`.
unfoldable pub decode_header : NetworkMessage → ℕ × NetworkMessage
decode_header m = let size = u16_of (m.buffer 0) (m.buffer 1) in (size, record m { size = size })
