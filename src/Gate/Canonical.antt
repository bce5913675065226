-- ===== src/Gate/Canonical.antt =====
-- The canonical text of a gate and its hash, of gate.go. A value that is none of decoded JSON,
-- which canonicalEncode refuses, is in Values.
pub mod Strings
pub mod Reading
pub mod Normal
pub mod RoundTrip
pub mod Numbers
pub mod Reads
pub mod Order
pub mod Values
pub mod Refused
mod Refuses
mod Tests
use aamio_go.Prelude.{
  ℕ, suc, ◌+◌, ◌-◌, ◌/◌, ◌%◌, Bool, true, false, ◌&&◌, ◌||◌, List, [], ◌∷◌, ◌++◌, Option, none,
  some, Text, codes, text_eq, ltb, ◌==◌, if◌then◌else◌, itoa_ℤ,
}
use aamio_go.Json.{
  Json, Items, Fields, null, bool, number, int, int64, float, string, array, object, nil, cons, end,
  field,
}
use aamio_go.Json.Number.{Float64, is_int64, int64_of}
use aamio_go.Json.Keys.{sorted_keys}
use aamio_go.Codec.{sha256_hex}
use aamio_go.Codec.Hex.{hex_char}
use aamio_go.Codec.Utf8.{runes, encode_rune}
use aamio_go.External.{External}

abbrev pub quote : ℕ
quote = b'"'

abbrev pub backslash : ℕ
backslash = 92

-- The switch of canonicalString; `%04x` of a rune below 0x20.
unfoldable pub escape_rune : ℕ → Text
unfolding hex_char
escape_rune r =
    if r == quote
    then backslash ∷ quote ∷ []
    else if r == backslash
    then backslash ∷ backslash ∷ []
    else if r == b'\n'
    then backslash ∷ b'n' ∷ []
    else if r == b'\r'
    then backslash ∷ b'r' ∷ []
    else if r == b'\t'
    then backslash ∷ b't' ∷ []
    else if r == 8
    then backslash ∷ b'b' ∷ []
    else if r == 12
    then backslash ∷ b'f' ∷ []
    else if ltb r 0x20
    then backslash ∷ b'u' ∷ b'0' ∷ b'0' ∷ hex_char (r / 16) ∷ hex_char (r % 16) ∷ []
    else encode_rune r

unfoldable pub escape_runes : List ℕ → Text
escape_runes [] = []
escape_runes (r ∷ rs) = escape_rune r ++ escape_runes rs

unfoldable pub canonical_string : Text → Text
unfolding escape_runes
canonical_string s = quote ∷ (escape_runes (runes s) ++ quote ∷ [])

-- `if i > 0 { out.WriteByte(',') }`
unfoldable pub sep : Bool → Text
sep true = []
sep false = b',' ∷ []

-- The text of value[k], from the texts of the values; a missing key would be a nil.
unfoldable pub value_text : Text → List (Text × Text) → Text
value_text k [] = codes "null"
value_text k ((j, t) ∷ ts) = if text_eq k j then t else value_text k ts

-- The loop over the sorted keys of a map, from the texts of its values.
unfoldable pub write_keys : Bool → List Text → List (Text × Text) → Text
write_keys first [] ts = []
write_keys first (k ∷ ks) ts =
    sep first ++ (canonical_string k ++ b':' ∷ (value_text k ts ++ write_keys false ks ts))

-- canonicalEncode; x formats the floats that are no int64.
unfoldable mutual
  unfolding sep write_keys canonical_string

  pub canonical_encode : External → Json → Text
  canonical_encode x null = codes "null"
  canonical_encode x (bool true) = codes "true"
  canonical_encode x (bool false) = codes "false"
  canonical_encode x (number t) = t
  canonical_encode x (int n) = itoa_ℤ n
  canonical_encode x (int64 n) = itoa_ℤ n
  canonical_encode x (float f) = if is_int64 f then itoa_ℤ (int64_of f) else x.format_float f
  canonical_encode x (string s) = canonical_string s
  canonical_encode x (array l) = b'[' ∷ (encode_items x true l ++ b']' ∷ [])
  canonical_encode x (object m) =
      b'{' ∷ (write_keys true (sorted_keys m) (encode_values x m) ++ b'}' ∷ [])

  pub encode_items : External → Bool → Items → Text
  encode_items x first nil = []
  encode_items x first (cons v l) = sep first ++ (canonical_encode x v ++ encode_items x false l)

  pub encode_values : External → Fields → List (Text × Text)
  encode_values x end = []
  encode_values x (field k v m) = (k, canonical_encode x v) ∷ encode_values x m

abbrev pub is_empty_object : Json → Bool
is_empty_object (object end) = true
is_empty_object _ = false

abbrev pub is_empty_bucket : Text → Json → Bool
is_empty_bucket k v =
    (text_eq k (codes "require") || text_eq k (codes "advise")) && is_empty_object v

unfoldable pub pruned : Fields → Fields
pruned end = end
pruned (field k v m) = if is_empty_bucket k v then pruned m else field k v (pruned m)

unfoldable pub canonical : External → Fields → Text
canonical x gate = canonical_encode x (object (pruned gate))

unfoldable pub gate_hash : External → Fields → Text
unfolding canonical
gate_hash x gate = sha256_hex (canonical x gate)

-- A decoder that takes a single value, with UseNumber: what stands behind it is not read.
unfoldable pub parse_gate : External → Text → Option Fields
parse_gate x text = x.decode_object text
