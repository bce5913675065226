-- ===== src/Codec/Base64/RoundTrip.antt =====
-- Decoding what was encoded, in either alphabet.
use aamio_go.Prelude.{
  ℕ, ◌+◌, ◌*◌, ◌/◌, ◌%◌, ◌<◌, ◌≤◌, length, ◌≡◌, refl, false, ◌||◌, [], ◌∷◌, Option, none, some,
  List, Text, IsBytes, ◌==◌, arith, map, All,
}
use aamio_go.Codec.Base64.{Alphabet, char_of, value_of, encode, values, bytes, decode}

module _ (a : Alphabet) (v : ℕ) (h : v < 64) where
  value_of-char_of : value_of a (char_of a v) ≡ some v
  unfolding value_of char_of
  value_of-char_of = ground arith

  pub char_of-ne-break : (char_of a v == b'\n' || char_of a v == b'\r') ≡ false
  unfolding char_of
  char_of-ne-break = ground arith

abbrev onto : ℕ → Option (List ℕ) → Option (List ℕ)
onto v none = none
onto v (some vs) = some (v ∷ vs)

values-char_of :
    (a : Alphabet) (v : ℕ) (s : Text) → v < 64 → values a (char_of a v ∷ s) ≡ onto v (values a s)
unfolding values
values-char_of a v s h = ground (arith, value_of-char_of a v h, char_of-ne-break a v h)

-- The six-bit values that the groups of three bytes become.
pub sextets : Text → List ℕ
sextets [] = []
sextets (x ∷ []) = (x / 4) ∷ (x % 4 * 16) ∷ []
sextets (x ∷ y ∷ []) = (x / 4) ∷ (x % 4 * 16 + y / 16) ∷ (y % 16 * 4) ∷ []
sextets (x ∷ y ∷ z ∷ s) =
    (x / 4) ∷ (x % 4 * 16 + y / 16) ∷ (y % 16 * 4 + z / 64) ∷ (z % 64) ∷ sextets s

pub encode-map : (a : Alphabet) (s : Text) → encode a s ≡ map (char_of a) (sextets s)
unfolding encode sextets
encode-map a [] = refl
encode-map a (x ∷ []) = refl
encode-map a (x ∷ y ∷ []) = refl
encode-map a (x ∷ y ∷ z ∷ s) = rw (encode-map a s)

pub sextets-bound : (s : Text) → IsBytes s → All (λ v. v < 64) (sextets s)
unfolding sextets
sextets-bound [] h = tt
sextets-bound (x ∷ []) h = omega arith
sextets-bound (x ∷ y ∷ []) h = omega arith
sextets-bound (x ∷ y ∷ z ∷ s) h =
    (omega arith, (omega arith, (omega arith, (omega arith, sextets-bound s h.1.1.1))))

values-map :
    (a : Alphabet) (vs : List ℕ) → All (λ v. v < 64) vs → values a (map (char_of a) vs) ≡ some vs
values-map a [] h = unfold values in refl
values-map a (v ∷ vs) (hv, h) = rw (values-char_of a v _ hv, values-map a vs h)

bytes-sextets : (s : Text) → IsBytes s → bytes (sextets s) ≡ some s
unfolding bytes sextets
bytes-sextets [] h = refl
bytes-sextets (x ∷ []) h = ground arith
bytes-sextets (x ∷ y ∷ []) h = ground arith
bytes-sextets (x ∷ y ∷ z ∷ s) h = ground (arith, bytes-sextets s h.1.1.1)

-- A decoder gives back what an encoder of the same alphabet was given.
pub decode-encode : (a : Alphabet) (s : Text) → IsBytes s → decode a (encode a s) ≡ some s
unfolding decode
decode-encode a s h =
    rw (encode-map a s)
      (ground (arith, values-map a (sextets s) (sextets-bound s h), bytes-sextets s h))

-- n bytes are ⌈4n/3⌉ values.
pub length-sextets :
    (s : Text)
    → (4 * length s ≤ 3 * length (sextets s)) × (3 * length (sextets s) ≤ 4 * length s + 2)
unfolding sextets
length-sextets [] = omega arith
length-sextets (x ∷ []) = omega arith
length-sextets (x ∷ y ∷ []) = omega arith
length-sextets (x ∷ y ∷ z ∷ s) = omega (arith, length-sextets s)
