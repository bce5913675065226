-- ===== src/Gate/Canonical/Normal.antt =====
-- What a canonical text says of a gate: the fields of each object by their sorted keys, the text of
-- each number, and each string with its invalid bytes replaced.
use aamio_go.Prelude.{
  ◌≡◌, refl, Bool, true, false, List, [], ◌∷◌, ◌++◌, Text, codes, text_eq, if◌then◌else◌, itoa_ℤ,
  arith,
}
use aamio_go.Json.{
  Json, Items, Fields, null, bool, number, int, int64, float, string, array, object, nil, cons, end,
  field,
}
use aamio_go.Json.Number.{is_int64, int64_of}
use aamio_go.Json.Keys.{sorted_keys}
use aamio_go.Codec.Utf8.{to_valid}
use aamio_go.External.{External}
use aamio_go.Gate.Canonical.{
  quote, sep, value_text, write_keys, canonical_encode, encode_items, encode_values,
}
use aamio_go.Gate.Canonical.Strings.{escape_bytes, canonical_string-bytes}

unfoldable pub value_at : Text → Fields → Json
value_at k end = null
value_at k (field j v m) = if text_eq k j then v else value_at k m

-- The fields of the keys, in their order.
unfoldable pub pick : List Text → Fields → Fields
unfolding value_at
pick [] m = end
pick (k ∷ ks) m = field (to_valid k) (value_at k m) (pick ks m)

unfoldable mutual
  unfolding pick

  pub normal : External → Json → Json
  normal x null = null
  normal x (bool b) = bool b
  normal x (number t) = number t
  normal x (int n) = number (itoa_ℤ n)
  normal x (int64 n) = number (itoa_ℤ n)
  normal x (float f) = number (if is_int64 f then itoa_ℤ (int64_of f) else x.format_float f)
  normal x (string s) = string (to_valid s)
  normal x (array l) = array (normal_items x l)
  normal x (object m) = object (pick (sorted_keys m) (normal_values x m))

  pub normal_items : External → Items → Items
  normal_items x nil = nil
  normal_items x (cons v l) = cons (normal x v) (normal_items x l)

  pub normal_values : External → Fields → Fields
  normal_values x end = end
  normal_values x (field k v m) = field k (normal x v) (normal_values x m)

-- The text of a normal value, its fields in the order in which they stand.
unfoldable mutual
  unfolding sep

  pub print : Json → Text
  print null = codes "null"
  print (bool true) = codes "true"
  print (bool false) = codes "false"
  print (number t) = t
  print (string s) = quote ∷ (escape_bytes s ++ quote ∷ [])
  print (array l) = b'[' ∷ (print_items true l ++ b']' ∷ [])
  print (object m) = b'{' ∷ (print_fields true m ++ b'}' ∷ [])
  print _ = []

  pub print_items : Bool → Items → Text
  print_items first nil = []
  print_items first (cons v l) = sep first ++ (print v ++ print_items false l)

  pub print_fields : Bool → Fields → Text
  print_fields first end = []
  print_fields first (field k v m) =
      sep first
      ++ ((quote ∷ (escape_bytes k ++ quote ∷ [])) ++ b':' ∷ (print v ++ print_fields false m))

module _ (x : External) where
  -- The loop over the keys prints the fields that are picked, where each text is that of its value.
  write_keys-pick :
      (first : Bool) (ks : List Text) (ts : List (Text × Text)) (m : Fields)
      → ((k : Text) → value_text k ts ≡ print (value_at k m))
      → write_keys first ks ts ≡ print_fields first (pick ks m)
  unfolding write_keys pick print
  write_keys-pick first [] ts m h = refl
  write_keys-pick first (k ∷ ks) ts m h =
      simp (canonical_string-bytes, h k, write_keys-pick false ks ts m h)

  mutual
    unfolding canonical_encode normal print value_at value_text

    encode-print : (v : Json) → canonical_encode x v ≡ print (normal x v)
    encode-print null = refl
    encode-print (bool true) = refl
    encode-print (bool false) = refl
    encode-print (number t) = refl
    encode-print (int n) = refl
    encode-print (int64 n) = refl
    encode-print (float f) = refl
    encode-print (string s) = canonical_string-bytes s
    encode-print (array l) = rw (encode_items-print true l)
    encode-print (object m) = rw (
        write_keys-pick true (sorted_keys m) (encode_values x m) (normal_values x m)
          (value_text-print m))

    encode_items-print :
        (first : Bool) (l : Items) → encode_items x first l ≡ print_items first (normal_items x l)
    encode_items-print first nil = refl
    encode_items-print first (cons v l) = rw (encode-print v, encode_items-print false l)

    value_text-print :
        (m : Fields) (k : Text)
        → value_text k (encode_values x m) ≡ print (value_at k (normal_values x m))
    value_text-print end k = refl
    value_text-print (field j v m) k = ground (arith, encode-print v, value_text-print m k)

  -- The canonical text of a value prints its normal form.
  pub canonical_encode-print : (v : Json) → canonical_encode x v ≡ print (normal x v)
  canonical_encode-print v = encode-print v
