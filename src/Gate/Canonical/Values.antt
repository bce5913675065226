-- ===== src/Gate/Canonical/Values.antt =====
-- Canonical of gate.go for maps that a program made, which may hold values of types that are none of
-- decoded JSON: canonicalEncode refuses these.
use aamio_go.Prelude.{
  Bool, true, false, ◌&&◌, ◌||◌, List, [], ◌∷◌, ◌++◌, Text, codes, text_eq, if◌then◌else◌,
}
use aamio_go.Errors.{Result, ok, err, ◌>>=◌, no_canonical}
use aamio_go.External.{External}
use aamio_go.Json.{Json, Fields, end, field, object}
use aamio_go.Json.Keys.{sort}
use aamio_go.Gate.Canonical.{sep, canonical_string, canonical_encode}

-- A value of decoded JSON, a value of another type with its name, and slices and maps of values.
mutual
  pub data Value : Type 0 where
    json : Json → Value
    other : Text → Value
    slice : Values → Value
    dict : Entries → Value

  pub data Values : Type 0 where
    no_value : Values
    value : Value → Values → Values

  pub data Entries : Type 0 where
    no_entry : Entries
    entry : Text → Value → Entries → Entries

unfoldable pub entry_keys : Entries → List Text
entry_keys no_entry = []
entry_keys (entry k v m) = k ∷ entry_keys m

unfoldable pub value_result : Text → List (Text × Result Text) → Result Text
value_result k [] = ok (codes "null")
value_result k ((j, t) ∷ ts) = if text_eq k j then t else value_result k ts

-- The loop over the sorted keys, which returns the first error.
unfoldable pub write_entries : Bool → List Text → List (Text × Result Text) → Result Text
write_entries first [] ts = ok []
write_entries first (k ∷ ks) ts = do
  t ← value_result k ts
  rest ← write_entries false ks ts
  ok (sep first ++ (canonical_string k ++ b':' ∷ (t ++ rest)))

unfoldable mutual
  unfolding write_entries entry_keys

  pub canonical_value : External → Value → Result Text
  canonical_value x (json v) = ok (canonical_encode x v)
  canonical_value x (other name) = err (no_canonical name)
  canonical_value x (slice l) = do t ← canonical_values x true l; ok (b'[' ∷ (t ++ b']' ∷ []))
  canonical_value x (dict m) = do
    t ← write_entries true (sort (entry_keys m)) (entry_results x m)
    ok (b'{' ∷ (t ++ b'}' ∷ []))

  pub canonical_values : External → Bool → Values → Result Text
  canonical_values x first no_value = ok []
  canonical_values x first (value v l) = do
    t ← canonical_value x v
    rest ← canonical_values x false l
    ok (sep first ++ (t ++ rest))

  pub entry_results : External → Entries → List (Text × Result Text)
  entry_results x no_entry = []
  entry_results x (entry k v m) = (k, canonical_value x v) ∷ entry_results x m

-- isEmptyObject, and the entries that Canonical leaves out.
abbrev pub is_empty_value : Value → Bool
is_empty_value (json (object end)) = true
is_empty_value (dict no_entry) = true
is_empty_value _ = false

unfoldable pub pruned_entries : Entries → Entries
pruned_entries no_entry = no_entry
pruned_entries (entry k v m) =
    let rest = pruned_entries m in
    if (text_eq k (codes "require") || text_eq k (codes "advise")) && is_empty_value v
    then rest
    else entry k v rest

unfoldable pub canonical_any : External → Entries → Result Text
unfolding canonical_value pruned_entries
canonical_any x gate = canonical_value x (dict (pruned_entries gate))

-- A map of decoded JSON.
abbrev pub entries_of : Fields → Entries
entries_of end = no_entry
entries_of (field k v m) = entry k (json v) (entries_of m)
