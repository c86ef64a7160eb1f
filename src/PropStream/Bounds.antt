-- ===== src/PropStream/Bounds.antt =====
-- The end of the bytes that are read, and texts with a length of 32 bits.
use darghos_tfs04_86_v.Base.{
  ℕ, ◌-◌, zero, suc, All, drop, ◌≤◌, ◌<◌, ◌≡◌, ap, false, List, [], ◌∷◌, length, take, ltb, arith,
  Bool-cases, inl, inr,
}
use darghos_tfs04_86_v.PropStream.{
  PropStream, left, Read, got, refused, overrun, and_then, word_of, get_type, get_byte, get_short,
  get_long, int_ltb, get_chars, get_string,
}
use darghos_tfs04_86_v.PropStream.Fields.{Field, byte, short, long, string, read_like}

abbrev pub IsWithin : List ℕ → PropStream → Type 0
IsWithin bytes s = (s.bytes ≡ bytes) × (s.p ≤ length bytes)

-- The read did not pass the end of the bytes, and left the pointer within them.
abbrev pub IsSafe {ℓ} : {A : Type ℓ} → List ℕ → Read A → Type 0
IsSafe bytes (got a s) = IsWithin bytes s
IsSafe bytes (refused s) = IsWithin bytes s
IsSafe bytes overrun = ⊥

and_then-IsSafe {ℓ} :
    {A B : Type ℓ} (bytes : List ℕ) (r : Read A) (f : A → PropStream → Read B)
    → IsSafe bytes r
    → ((a : A) (s : PropStream) → IsWithin bytes s → IsSafe bytes (f a s))
    → IsSafe bytes (and_then r f)
and_then-IsSafe bytes (got a s) f h k = k a s h
and_then-IsSafe bytes (refused s) f h k = h
and_then-IsSafe bytes overrun f h k = absurd h

-- A length that is not negative, and not more than the size, is within the bytes.
within_rest :
    (n : ℕ) (s : PropStream)
    → n < 0x8000_0000
    → int_ltb (left s) n ≡ false
    → ltb (length s.bytes - s.p) n ≡ false
unfolding int_ltb left
within_rest n s small h = ground (arith, small, h)

get_type-IsSafe :
    (bytes : List ℕ) (n : ℕ) (s : PropStream)
    → n < 0x8000_0000
    → IsWithin bytes s
    → IsSafe bytes (get_type n s)
unfolding get_type
get_type-IsSafe bytes n s small (e, h) = elim (Bool-cases (int_ltb (left s) n)) [
  | inl short_of ↦ rw short_of (e, h)
  | inr enough ↦
      let inside = within_rest n s small enough in
      rw (enough, inside) (e, ground (arith, ap length e, inside))
]

get_chars-IsSafe :
    (bytes : List ℕ) (n : ℕ) (s : PropStream)
    → n < 0x8000_0000
    → IsWithin bytes s
    → IsSafe bytes (get_chars n s)
unfolding get_chars
get_chars-IsSafe bytes n s small (e, h) = elim (Bool-cases (int_ltb (left s) n)) [
  | inl short_of ↦ rw short_of (e, h)
  | inr enough ↦
      let inside = within_rest n s small enough in
      rw (enough, inside) (e, ground (arith, ap length e, inside))
]

abbrev pub AreBytes : List ℕ → Type 0
AreBytes bs = All (λ b. b < 0x100) bs

AreBytes-drop : (n : ℕ) (bs : List ℕ) → AreBytes bs → AreBytes (drop n bs)
AreBytes-drop zero bs h = h
AreBytes-drop (suc n) [] h = h
AreBytes-drop (suc n) (b ∷ bs) h = AreBytes-drop n bs h.1

word_of-take2_lt : (bs : List ℕ) → AreBytes bs → word_of (take 2 bs) < 0x1_0000
word_of-take2_lt [] h = omega arith
word_of-take2_lt (a ∷ []) (ha, h) = omega arith
word_of-take2_lt (a ∷ b ∷ bs) (ha, (hb, h)) = omega arith

get_string-IsSafe :
    (bytes : List ℕ) (s : PropStream)
    → AreBytes bytes
    → IsWithin bytes s
    → IsSafe bytes (get_string s)
unfolding get_string get_short get_type
get_string-IsSafe bytes s hb (e, h) = elim (Bool-cases (int_ltb (left s) 2)) [
  | inl short_of ↦ rw short_of (e, h)
  | inr enough ↦
      let inside = within_rest 2 s (omega arith) enough in
      rw (enough, inside)
        (get_chars-IsSafe bytes (word_of (take 2 (drop s.p s.bytes))) _
          (omega (arith, word_of-take2_lt (drop s.p s.bytes) (AreBytes-drop s.p s.bytes (rw e hb))))
          (e, ground (arith, ap length e, inside)))
]

-- On bytes, from a pointer within them, the read of a byte, a 16-bit or 32-bit number or a text
-- never passes the end, and leaves the bytes as they are and the pointer within them, whether it
-- succeeds or is refused.
pub read_like-IsSafe :
    (bytes : List ℕ) (f : Field) (s : PropStream)
    → AreBytes bytes
    → IsWithin bytes s
    → IsSafe bytes (read_like f s)
unfolding read_like get_byte get_short get_long
read_like-IsSafe bytes (byte v) s hb h =
    and_then-IsSafe bytes (get_type 1 s) _ (get_type-IsSafe bytes 1 s (omega arith) h) (λ a t k. k)
read_like-IsSafe bytes (short v) s hb h =
    and_then-IsSafe bytes (get_type 2 s) _ (get_type-IsSafe bytes 2 s (omega arith) h) (λ a t k. k)
read_like-IsSafe bytes (long v) s hb h =
    and_then-IsSafe bytes (get_type 4 s) _ (get_type-IsSafe bytes 4 s (omega arith) h) (λ a t k. k)
read_like-IsSafe bytes (string text) s hb h =
    and_then-IsSafe bytes (get_string s) _ (get_string-IsSafe bytes s hb h) (λ a t k. k)
