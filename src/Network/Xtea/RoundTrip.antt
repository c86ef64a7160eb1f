-- ===== src/Network/Xtea/RoundTrip.antt =====
-- Encryption and decryption of a round, of a block and of the words of a message.
use darghos_tfs04_86_v.Base.{
  ℕ, zero, suc, ◌+◌, ◌<◌, ◌≡◌, refl, ap, ap₂, ◌∙◌, List, [], ◌∷◌, u32, arith, All,
}
use darghos_tfs04_86_v.Network.Xtea.{
  Key, Block, delta, sub32, first_term, second_term, encrypt_round, decrypt_round, encrypt_rounds,
  decrypt_rounds, encrypt_block, decrypt_block, encrypt_words, decrypt_words, IsBlock,
}

-- The sum after some rounds of encryption.
sum_after : ℕ → ℕ → ℕ
sum_after zero sum = sum
sum_after (suc n) sum = sum_after n (sub32 sum delta)

word_undone : (v t : ℕ) → v < 0x1_0000_0000 → sub32 (u32 (v + t)) t ≡ v
word_undone v t h = omega arith

sum_undone : (sum : ℕ) → sum < 0x1_0000_0000 → u32 (sub32 sum delta + delta) ≡ sum
sum_undone sum h = omega arith

round_undone :
    (k : Key) (sum : ℕ) (b : Block)
    → sum < 0x1_0000_0000
    → IsBlock b
    → decrypt_round k (sub32 sum delta) (encrypt_round k sum b) ≡ b
unfolding encrypt_round decrypt_round
round_undone k sum b hs (h0, h1) =
    let v0 = u32 (b.v0 + first_term k sum b.v1) in
    rw (
      word_undone b.v1 (second_term k (sub32 sum delta) v0) h1,
      sum_undone sum hs,
      word_undone b.v0 (first_term k sum b.v1) h0,
    )

encrypt_round-IsBlock : (k : Key) (sum : ℕ) (b : Block) → IsBlock (encrypt_round k sum b)
unfolding encrypt_round
encrypt_round-IsBlock k sum b = (omega arith, omega arith)

-- The sum at which the last of some rounds of decryption starts.
sum_before : ℕ → ℕ → ℕ
sum_before zero sum = sum
sum_before (suc n) sum = sum_before n (u32 (sum + delta))

sum_after_last : (n sum : ℕ) → sum_after n (sub32 sum delta) ≡ sub32 (sum_after n sum) delta
unfolding sum_after
sum_after_last zero sum = refl
sum_after_last (suc n) sum = sum_after_last n (sub32 sum delta)

sum_after-lt : (n sum : ℕ) → sum < 0x1_0000_0000 → sum_after n sum < 0x1_0000_0000
unfolding sum_after
sum_after-lt zero sum h = h
sum_after-lt (suc n) sum h = sum_after-lt n (sub32 sum delta) (omega arith)

sum_before-after : (n sum : ℕ) → sum < 0x1_0000_0000 → sum_before n (sum_after n sum) ≡ sum
unfolding sum_before sum_after
sum_before-after zero sum h = refl
sum_before-after (suc n) sum h =
    rw (sum_after_last n sum, sum_undone (sum_after n sum) (sum_after-lt n sum h))
      (sum_before-after n sum h)

decrypt_last :
    (k : Key) (n sum : ℕ) (b : Block)
    → decrypt_rounds k (suc n) sum b ≡ decrypt_round k (sum_before n sum) (decrypt_rounds k n sum b)
unfolding decrypt_rounds sum_before
decrypt_last k zero sum b = refl
decrypt_last k (suc n) sum b = decrypt_last k n (u32 (sum + delta)) (decrypt_round k sum b)

rounds_undone :
    (k : Key) (n sum : ℕ) (b : Block)
    → sum < 0x1_0000_0000
    → IsBlock b
    → decrypt_rounds k n (sum_after n sum) (encrypt_rounds k n sum b) ≡ b
unfolding encrypt_rounds sum_after
rounds_undone k zero sum b hs hb = unfold decrypt_rounds in refl
rounds_undone k (suc n) sum b hs hb =
    let start = sum_after n (sub32 sum delta) in
    decrypt_last k n start (encrypt_rounds k n (sub32 sum delta) (encrypt_round k sum b))
    ∙ ap₂ (decrypt_round k) (sum_before-after n (sub32 sum delta) (omega arith)) (
        rounds_undone k n (sub32 sum delta) (encrypt_round k sum b) (omega arith)
          (encrypt_round-IsBlock k sum b))
    ∙ round_undone k sum b hs hb

last_sum : 0xC6EF3720 ≡ sum_after 32 0
unfolding sum_after
last_sum = refl

-- The 32 rounds of decryption undo the 32 rounds of encryption, under every key.
decrypt-encrypt_block : (k : Key) (b : Block) → IsBlock b → decrypt_block k (encrypt_block k b) ≡ b
unfolding encrypt_block decrypt_block
decrypt-encrypt_block k b h =
    ap (λ s. decrypt_rounds k 32 s (encrypt_rounds k 32 0 b)) last_sum
    ∙ rounds_undone k 32 0 b (omega arith) h

-- Decryption under the same key gives back the 32-bit words of a message, however many there are.
pub decrypt-encrypt_words :
    (k : Key) (vs : List ℕ)
    → All (λ v. v < 0x1_0000_0000) vs
    → decrypt_words k (encrypt_words k vs) ≡ vs
unfolding encrypt_words decrypt_words
decrypt-encrypt_words k [] h = refl
decrypt-encrypt_words k (v ∷ []) h = refl
decrypt-encrypt_words k (v0 ∷ v1 ∷ vs) (h0, (h1, hs)) =
    rw (
      decrypt-encrypt_block k (record { v0 = v0; v1 = v1 }) (h0, h1),
      decrypt-encrypt_words k vs hs,
    )
