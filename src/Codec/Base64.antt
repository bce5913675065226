-- ===== src/Codec/Base64.antt =====
-- encoding/base64 as codec.go uses it: RawURLEncoding and RawStdEncoding, which differ in two
-- characters. A decoder skips '\r' and '\n', takes 4 characters to 3 bytes, ends on 2 or 3
-- characters, ignores their unused bits, and refuses a single last character.
pub mod RoundTrip
use aamio_go.Prelude.{
  ℕ, ◌+◌, ◌-◌, ◌*◌, ◌/◌, ◌%◌, Bool, true, false, ◌&&◌, ◌||◌, List, [], ◌∷◌, Option, none, some,
  Text, ltb, leb, ◌==◌, if◌then◌else◌,
}

pub data Alphabet : Type 0 where
  std url : Alphabet

-- The character of the value 62, and of 63.
abbrev pub char_62 : Alphabet → ℕ
char_62 std = b'+'
char_62 url = b'-'

abbrev pub char_63 : Alphabet → ℕ
char_63 std = b'/'
char_63 url = b'_'

unfoldable pub char_of : Alphabet → ℕ → ℕ
char_of a v =
    if ltb v 26
    then b'A' + v
    else if ltb v 52
    then b'a' + (v - 26)
    else if ltb v 62
    then b'0' + (v - 52)
    else if v == 62
    then char_62 a
    else char_63 a

unfoldable pub value_of : Alphabet → ℕ → Option ℕ
value_of a c =
    if leb b'A' c && leb c b'Z'
    then some (c - b'A')
    else if leb b'a' c && leb c b'z'
    then some (c - b'a' + 26)
    else if leb b'0' c && leb c b'9'
    then some (c - b'0' + 52)
    else if c == char_62 a
    then some 62
    else if c == char_63 a
    then some 63
    else none

abbrev push : Option ℕ → Option (List ℕ) → Option (List ℕ)
push none rest = none
push (some v) none = none
push (some v) (some vs) = some (v ∷ vs)

module _ (a : Alphabet) where
  unfoldable pub encode : Text → Text
  unfolding char_of
  encode [] = []
  encode (x ∷ []) = char_of a (x / 4) ∷ char_of a (x % 4 * 16) ∷ []
  encode (x ∷ y ∷ []) =
      char_of a (x / 4) ∷ char_of a (x % 4 * 16 + y / 16) ∷ char_of a (y % 16 * 4) ∷ []
  encode (x ∷ y ∷ z ∷ s) =
      char_of a (x / 4)
      ∷ char_of a (x % 4 * 16 + y / 16)
      ∷ char_of a (y % 16 * 4 + z / 64)
      ∷ char_of a (z % 64)
      ∷ encode s

  -- The six-bit values of the characters; a line break is skipped.
  unfoldable pub values : Text → Option (List ℕ)
  unfolding value_of
  values [] = some []
  values (c ∷ s) =
      let rest = values s in if c == b'\n' || c == b'\r' then rest else push (value_of a c) rest

abbrev group : ℕ → ℕ → ℕ → Option Text → Option Text
group x y z none = none
group x y z (some s) = some (x ∷ y ∷ z ∷ s)

unfoldable pub bytes : List ℕ → Option Text
bytes [] = some []
bytes (p ∷ []) = none
bytes (p ∷ q ∷ []) = some ((p * 4 + q / 16) ∷ [])
bytes (p ∷ q ∷ r ∷ []) = some ((p * 4 + q / 16) ∷ (q % 16 * 16 + r / 4) ∷ [])
bytes (p ∷ q ∷ r ∷ t ∷ vs) =
    group (p * 4 + q / 16) (q % 16 * 16 + r / 4) (r % 4 * 64 + t) (bytes vs)

unfoldable pub decode : Alphabet → Text → Option Text
unfolding values bytes
decode a s = elim (values a s) [ none ↦ none | some vs ↦ bytes vs ]

unfoldable pub encode_url : Text → Text
encode_url = encode url

-- strings.ContainsAny(s, "+/").
unfoldable pub has_std_char : Text → Bool
has_std_char [] = false
has_std_char (c ∷ s) = c == b'+' || c == b'/' || has_std_char s
