-- ===== src/Gate/Work/Bits.antt =====
-- `zero_bits` against the bits of a digest, from the top bit of its first byte.
use aamio_go.Prelude.{
  ℕ, zero, suc, ◌+◌, ◌/◌, ◌%◌, ◌^◌, ◌≤◌, ◌<◌, ◌≡◌, ◌↔◌, ◌≢◌, refl, List, [], ◌∷◌, ◌++◌, Text, All,
  IsBytes, take, length, ◌==◌, if◌then◌else◌, arith,
}
use aamio_go.Gate.Work.{top_zeros, zero_bits}

-- The k lowest bits of a byte, highest first, and the bits of a digest.
abbrev pub byte_bits : ℕ → ℕ → List ℕ
byte_bits zero b = []
byte_bits (suc k) b = (b / 2 ^ k % 2) ∷ byte_bits k b

abbrev pub bits : Text → List ℕ
bits [] = []
bits (b ∷ d) = byte_bits 8 b ++ bits d

-- How many zeros a list of bits begins with.
leading : List ℕ → ℕ
leading [] = 0
leading (b ∷ bs) = if b == 0 then suc (leading bs) else 0

leading_iff :
    (bs : List ℕ) (n : ℕ) → n ≤ length bs → (n ≤ leading bs) ↔ All (λ b. b ≡ 0) (take n bs)
unfolding leading
leading_iff bs zero h = (λ _. tt, λ _. omega arith)
leading_iff [] (suc n) h = absurd (omega arith)
leading_iff (b ∷ bs) (suc n) h = ground (arith, leading_iff bs n (omega arith))

top_zeros-leading :
    (k b : ℕ) (rest : List ℕ) → top_zeros k b < k → leading (byte_bits k b ++ rest) ≡ top_zeros k b
unfolding leading top_zeros
top_zeros-leading zero b rest h = absurd (omega arith)
top_zeros-leading (suc k) b rest h = ground (arith, top_zeros-leading k b rest)

top_zeros-lt : (b : ℕ) → b < 256 → b ≢ 0 → top_zeros 8 b < 8
unfolding top_zeros
top_zeros-lt b h n = ground arith

zero_byte : (rest : List ℕ) → leading (byte_bits 8 0 ++ rest) ≡ 8 + leading rest
unfolding leading
zero_byte rest = omega arith

zero_bits-leading : (d : Text) → IsBytes d → zero_bits d ≡ leading (bits d)
unfolding zero_bits
zero_bits-leading [] h = unfold leading in refl
zero_bits-leading (b ∷ d) (hb, h) = ground (
  arith,
  top_zeros-leading 8 b (bits d),
  top_zeros-lt b hb,
  zero_byte (bits d),
  zero_bits-leading d h,
)

-- For every digest and every n up to its number of bits, n is at most `zero_bits` exactly when the
-- first n bits are zero.
pub zero_bits_iff :
    (d : Text) (n : ℕ)
    → IsBytes d
    → n ≤ length (bits d)
    → (n ≤ zero_bits d) ↔ All (λ b. b ≡ 0) (take n (bits d))
zero_bits_iff d n h len = rw (zero_bits-leading d h) (leading_iff (bits d) n len)
