-- ===== src/Gate/Canonical/Strings.antt =====
-- Strings of the canonical text, byte by byte: the escapes, and that the reader of Reading reads them.
use aamio_go.Prelude.{
  ℕ, ◌/◌, ◌%◌, ◌<◌, ◌≡◌, refl, true, List, [], ◌∷◌, ◌++◌, some, Text, ltb, if◌then◌else◌,
  append_assoc, arith, ◌∙◌, sym, All, append-nil, ◌≤◌,
}
use native.Mathlib.Decide.{dec_lt}
use aamio_go.Codec.Hex.{hex_char}
use aamio_go.Codec.Utf8.{runes, encode_rune, encode_runes, to_valid}
use aamio_go.Gate.Canonical.Reading.{unhex, prepend, read_string}
use aamio_go.Gate.Canonical.{quote, escape_rune, escape_runes, canonical_string}

-- The escapes of a byte: those of the rune, where the byte is one.
escape_byte : ℕ → Text
escape_byte c = if ltb c 0x80 then escape_rune c else c ∷ []

pub escape_bytes : Text → Text
escape_bytes [] = []
escape_bytes (c ∷ s) = escape_byte c ++ escape_bytes s

escape_bytes-append : (s t : Text) → escape_bytes (s ++ t) ≡ escape_bytes s ++ escape_bytes t
unfolding escape_bytes
escape_bytes-append [] t = refl
escape_bytes-append (c ∷ s) t = simp (escape_bytes-append s t, append_assoc)

-- Only the bytes of ASCII are escaped.
escape_bytes-high : (s : Text) → All (λ c. 0x80 ≤ c) s → escape_bytes s ≡ s
unfolding escape_bytes escape_byte
escape_bytes-high [] h = refl
escape_bytes-high (c ∷ s) (b, h) = ground (arith, escape_bytes-high s h)

encode_rune-high : (r : ℕ) → 0x80 ≤ r → All (λ c. 0x80 ≤ c) (encode_rune r)
unfolding encode_rune
encode_rune-high r h = ground arith

escape_rune-high : (r : ℕ) → 0x80 ≤ r → escape_rune r ≡ encode_rune r
unfolding escape_rune
escape_rune-high r h = ground arith

encode_rune-low : (r : ℕ) → r < 0x80 → encode_rune r ≡ r ∷ []
unfolding encode_rune
encode_rune-low r h = ground arith

escape_bytes_one : (c : ℕ) → c < 0x80 → escape_bytes (c ∷ []) ≡ escape_rune c
unfolding escape_bytes escape_byte
escape_bytes_one c h =
    let low : ltb c 0x80 ≡ true = ground arith in rw low (append-nil (escape_rune c))

escape_rune-bytes : (r : ℕ) → escape_rune r ≡ escape_bytes (encode_rune r)
escape_rune-bytes r = elim (dec_lt r 0x80) [
  | yes h ↦ rw (encode_rune-low r h) (sym (escape_bytes_one r h))
  | no h ↦
      let high : 0x80 ≤ r = omega arith in
      escape_rune-high r high ∙ sym (escape_bytes-high (encode_rune r) (encode_rune-high r high))
]

escape_runes-bytes : (rs : List ℕ) → escape_runes rs ≡ escape_bytes (encode_runes rs)
unfolding escape_runes encode_runes escape_bytes
escape_runes-bytes [] = refl
escape_runes-bytes (r ∷ rs) =
    simp (escape_rune-bytes r, escape_runes-bytes rs, escape_bytes-append (encode_rune r))

-- The text with its invalid bytes replaced, escaped byte by byte.
pub canonical_string-bytes :
    (s : Text) → canonical_string s ≡ quote ∷ (escape_bytes (to_valid s) ++ quote ∷ [])
unfolding canonical_string to_valid
canonical_string-bytes s = rw (escape_runes-bytes (runes s))

unhex-hex_char : (v : ℕ) → v < 16 → unhex (hex_char v) ≡ v
unfolding unhex hex_char
unhex-hex_char v h = ground arith

read_string-escape_byte :
    (c : ℕ) (s : Text) → read_string 0 (escape_byte c ++ s) ≡ prepend c (read_string 0 s)
unfolding read_string escape_byte escape_rune encode_rune
read_string-escape_byte c s = ground (arith, unhex-hex_char (c / 16), unhex-hex_char (c % 16))

pub read_string-escape_bytes :
    (s rest : Text) → read_string 0 (escape_bytes s ++ quote ∷ rest) ≡ some (s, rest)
unfolding escape_bytes
read_string-escape_bytes [] rest = unfold read_string in refl
read_string-escape_bytes (c ∷ s) rest =
    rw (append_assoc (escape_byte c) (escape_bytes s))
      (rw (read_string-escape_byte c) (rw (read_string-escape_bytes s rest)))
