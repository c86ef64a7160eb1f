-- ===== src/Network/Xtea.antt =====
-- `Protocol::XTEA_encrypt` and `Protocol::XTEA_decrypt` of protocol.cpp: the cipher on the words of
-- a message. A block is two 32-bit words, which the machine reads little-endian from the bytes.
use Prim.Native.Nat.{bit_xor}
pub mod RoundTrip
use darghos_tfs04_86_v.Base.{
  ℕ, zero, suc, ◌+◌, ◌-◌, ◌*◌, ◌/◌, ◌%◌, ◌<◌, ◌≡◌, refl, ap, sym, ◌∙◌, List, [], ◌∷◌, ◌++◌, u32,
  arith, All,
}

-- The key's four words.
pub record Key : Type 0 where
  pub k0 : ℕ
  pub k1 : ℕ
  pub k2 : ℕ
  pub k3 : ℕ

abbrev pub key_word : Key → ℕ → ℕ
key_word k zero = k.k0
key_word k (suc zero) = k.k1
key_word k (suc (suc zero)) = k.k2
key_word k (suc (suc (suc n))) = k.k3

abbrev pub delta : ℕ
delta = 0x61C88647

-- `a - b` of 32-bit words.
abbrev pub sub32 : ℕ → ℕ → ℕ
sub32 a b = u32 (a + 0x1_0000_0000 - u32 b)

-- `(v << 4 ^ v >> 5) + v`.
mix : ℕ → ℕ
mix v = u32 (bit_xor (u32 (v * 16)) (v / 32) + v)

-- The summands of a round, at the sum before and behind its change.
pub first_term : Key → ℕ → ℕ → ℕ
unfolding mix
first_term k sum v = bit_xor (mix v) (u32 (sum + key_word k (sum % 4)))

pub second_term : Key → ℕ → ℕ → ℕ
unfolding mix
second_term k sum v = bit_xor (mix v) (u32 (sum + key_word k (sum / 2048 % 4)))

pub record Block : Type 0 where
  pub v0 : ℕ
  pub v1 : ℕ

-- The body of the loop of `XTEA_encrypt`, at the sum with which it starts.
pub encrypt_round : Key → ℕ → Block → Block
encrypt_round k sum b =
    let v0 = u32 (b.v0 + first_term k sum b.v1) in
    record { v0 = v0; v1 = u32 (b.v1 + second_term k (sub32 sum delta) v0) }

-- The body of the loop of `XTEA_decrypt`.
pub decrypt_round : Key → ℕ → Block → Block
decrypt_round k sum b =
    let v1 = sub32 b.v1 (second_term k sum b.v0) in
    record { v0 = sub32 b.v0 (first_term k (u32 (sum + delta)) v1); v1 = v1 }

-- The loops, by the rounds that are left.
pub encrypt_rounds : Key → ℕ → ℕ → Block → Block
unfolding encrypt_round
encrypt_rounds k zero sum b = b
encrypt_rounds k (suc n) sum b = encrypt_rounds k n (sub32 sum delta) (encrypt_round k sum b)

pub decrypt_rounds : Key → ℕ → ℕ → Block → Block
unfolding decrypt_round
decrypt_rounds k zero sum b = b
decrypt_rounds k (suc n) sum b = decrypt_rounds k n (u32 (sum + delta)) (decrypt_round k sum b)

pub encrypt_block : Key → Block → Block
encrypt_block k b = encrypt_rounds k 32 0 b

pub decrypt_block : Key → Block → Block
decrypt_block k b = decrypt_rounds k 32 0xC6EF3720 b

-- The loop over the words of the message. The padding to 8 bytes leaves no last word without a
-- partner, so that what is done with one does not matter.
pub encrypt_words : Key → List ℕ → List ℕ
encrypt_words k [] = []
encrypt_words k (v ∷ []) = v ∷ []
encrypt_words k (v0 ∷ v1 ∷ vs) =
    let b = encrypt_block k (record { v0 = v0; v1 = v1 }) in b.v0 ∷ b.v1 ∷ encrypt_words k vs

pub decrypt_words : Key → List ℕ → List ℕ
decrypt_words k [] = []
decrypt_words k (v ∷ []) = v ∷ []
decrypt_words k (v0 ∷ v1 ∷ vs) =
    let b = decrypt_block k (record { v0 = v0; v1 = v1 }) in b.v0 ∷ b.v1 ∷ decrypt_words k vs

abbrev pub IsBlock : Block → Type 0
IsBlock b = (b.v0 < 0x1_0000_0000) × (b.v1 < 0x1_0000_0000)
