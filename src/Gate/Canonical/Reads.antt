-- ===== src/Gate/Canonical/Reads.antt =====
-- What a canonical text says: it reads back, so gates with one text agree.
use aamio_go.Prelude.{
  ◌≡◌, refl, sym, ap, ◌∙◌, List, [], ◌∷◌, none, some, Text, text_eq_iff, if◌then◌else◌, arith, All,
  contains,
}
use mathlib.Core.Option
use aamio_go.Json.{Fields, end, field, object, get}
use aamio_go.Json.Keys.{sorted_keys, contains-sorted_keys, is_some, keys, All-sort}
use aamio_go.Codec.Utf8.{to_valid}
use aamio_go.External.{External}
use aamio_go.Gate.Canonical.{canonical, pruned}
use aamio_go.Gate.Canonical.Reading.{read_gate}
use aamio_go.Gate.Canonical.Normal.{normal, normal_values, value_at, pick, canonical_encode-print}
use aamio_go.Gate.Canonical.RoundTrip.{read_gate-print}
use aamio_go.Gate.Canonical.Numbers.{HasNumeric, object-HasPlain, pruned-HasNumeric}

-- The gate that a canonical text shows: empty buckets left out, the fields by their sorted keys.
unfoldable pub shown : External → Fields → Fields
unfolding pick normal_values
shown x gate = pick (sorted_keys (pruned gate)) (normal_values x (pruned gate))

-- Keys of valid UTF-8.
abbrev pub HasValidKeys : Fields → Type 0
HasValidKeys m = All (λ k. to_valid k ≡ k) (keys m)

module _ (x : External) where
  pub read_gate-canonical :
      (gate : Fields) → HasNumeric x gate → read_gate (canonical x gate) ≡ some (shown x gate)
  unfolding canonical shown normal
  read_gate-canonical gate h =
      ap read_gate (canonical_encode-print x (object (pruned gate)))
      ∙ read_gate-print (shown x gate)
          (object-HasPlain x (pruned gate) (pruned-HasNumeric x gate h))

  get-pick :
      (c : Text) (ks : List Text) (m : Fields)
      → All (λ k. to_valid k ≡ k) ks
      → get c (pick ks m) ≡ (if contains c ks then some (value_at c m) else none)
  unfolding get pick
  get-pick c [] m h = refl
  get-pick c (k ∷ ks) m (e, h) = rw e (ground (arith, text_eq_iff c k, get-pick c ks m h))

  get-normal_values :
      (c : Text) (m : Fields)
      → (if is_some (get c m) then some (value_at c (normal_values x m)) else none)
        ≡ Option.map (normal x) (get c m)
  unfolding get normal value_at
  get-normal_values c end = refl
  get-normal_values c (field k v m) = ground (arith, get-normal_values c m)

  get-shown :
      (c : Text) (gate : Fields)
      → HasValidKeys (pruned gate)
      → get c (shown x gate) ≡ Option.map (normal x) (get c (pruned gate))
  unfolding shown sorted_keys
  get-shown c gate h =
      let m = pruned gate in
      get-pick c (sorted_keys m) (normal_values x m) ((All-sort _ (keys m)).1 h)
      ∙ rw (contains-sorted_keys c m) (get-normal_values c m)

  -- Two gates whose numbers are JSON numbers and whose keys are UTF-8, with the same canonical text,
  -- have the same keys and at each key the same value, up to the order of fields, the type that
  -- holds a number and invalid bytes; an empty require or advise counts as missing.
  pub canonical-agrees :
      (gate gate' : Fields)
      → HasNumeric x gate
      → HasNumeric x gate'
      → HasValidKeys (pruned gate)
      → HasValidKeys (pruned gate')
      → canonical x gate ≡ canonical x gate'
      → (k : Text)
      → Option.map (normal x) (get k (pruned gate)) ≡ Option.map (normal x) (get k (pruned gate'))
  canonical-agrees gate gate' h h' v v' e k =
      let agree : shown x gate ≡ shown x gate' =
        cc (read_gate-canonical gate h, read_gate-canonical gate' h', e) in
      sym (get-shown k gate v) ∙ ap (get k) agree ∙ get-shown k gate' v'
