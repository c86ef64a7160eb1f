-- ===== src/Base/Words.antt =====
-- Machine words: a w-bit integer is a number, and arithmetic on it wraps.
use Prim.Native.Nat.{ℕ, ◌%◌}

abbrev pub u8 : ℕ → ℕ
u8 n = n % 0x100

abbrev pub u16 : ℕ → ℕ
u16 n = n % 0x1_0000

abbrev pub u32 : ℕ → ℕ
u32 n = n % 0x1_0000_0000
