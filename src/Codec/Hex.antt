-- ===== src/Codec/Hex.antt =====
-- encoding/hex as the client uses it: lowercase hex of bytes.
use aamio_go.Prelude.{
  ℕ, ◌+◌, ◌-◌, ◌*◌, ◌/◌, ◌%◌, ◌≡◌, refl, Bool, true, ◌&&◌, ◌||◌, [], ◌∷◌, Text, IsBytes, ltb, leb,
  if◌then◌else◌, arith, Option, none, some, ◌<◌, all, length,
}

unfoldable pub hex_char : ℕ → ℕ
hex_char v = if ltb v 10 then b'0' + v else b'a' + (v - 10)

unfoldable pub encode : Text → Text
unfolding hex_char
encode [] = []
encode (c ∷ s) = hex_char (c / 16) ∷ hex_char (c % 16) ∷ encode s

unfoldable pub is_hex_char : ℕ → Bool
is_hex_char c = (leb b'0' c && leb c b'9') || (leb b'a' c && leb c b'f')

pub length-encode : (s : Text) → length (encode s) ≡ 2 * length s
unfolding encode
length-encode [] = refl
length-encode (c ∷ s) = omega (arith, length-encode s)

hex_char_lem : (v : ℕ) → ltb v 16 ≡ true → is_hex_char (hex_char v) ≡ true
unfolding is_hex_char hex_char
hex_char_lem v h = ground arith

pub encode-IsHex : (s : Text) → IsBytes s → all is_hex_char (encode s) ≡ true
unfolding encode
encode-IsHex [] h = refl
encode-IsHex (c ∷ s) (b, h) =
    ground (arith, hex_char_lem (c / 16), hex_char_lem (c % 16), encode-IsHex s h)

-- hex.DecodeString: both cases of letters, and an error at another character or an odd length.
unfoldable pub hex_value : ℕ → Option ℕ
hex_value c =
    if leb b'0' c && leb c b'9'
    then some (c - b'0')
    else if leb b'a' c && leb c b'f'
    then some (c - b'a' + 10)
    else if leb b'A' c && leb c b'F'
    then some (c - b'A' + 10)
    else none

abbrev joined : Option ℕ → Option ℕ → Option Text → Option Text
joined (some h) (some l) (some s) = some ((h * 16 + l) ∷ s)
joined _ _ _ = none

unfoldable pub decode : Text → Option Text
unfolding hex_value
decode [] = some []
decode (h ∷ []) = none
decode (h ∷ l ∷ s) = joined (hex_value h) (hex_value l) (decode s)

hex_value-hex_char : (v : ℕ) → v < 16 → hex_value (hex_char v) ≡ some v
unfolding hex_value hex_char
hex_value-hex_char v h = ground arith

pub decode-encode : (s : Text) → IsBytes s → decode (encode s) ≡ some s
unfolding decode encode
decode-encode [] h = refl
decode-encode (c ∷ s) (b, h) =
    ground (arith, hex_value-hex_char (c / 16), hex_value-hex_char (c % 16), decode-encode s h)
