-- ===== src/Gate/Canonical/Refused.antt =====
-- That Canonical takes maps of decoded JSON, and names what it refuses.
use aamio_go.Prelude.{
  Bool, true, false, ◌&&◌, ◌||◌, List, [], ◌∷◌, Text, codes, text_eq, ◌≡◌, refl, ap, Bool-cases,
  inl, inr,
}
use aamio_go.Errors.{Result, ok, err, ◌>>=◌, no_canonical}
use aamio_go.External.{External}
use aamio_go.Json.{
  Json, null, bool, number, int, int64, float, string, array, Fields, end, field, object,
}
use aamio_go.Json.Keys.{sort, keys, sorted_keys}
use aamio_go.Gate.Canonical.{
  write_keys, value_text, encode_values, is_empty_object, is_empty_bucket, pruned, canonical,
  canonical_encode,
}
use aamio_go.Gate.Canonical.Values.{
  Value, json, other, slice, dict, Values, no_value, value, Entries, no_entry, entry, entry_keys,
  value_result, write_entries, canonical_value, canonical_values, entry_results, is_empty_value,
  pruned_entries, canonical_any, entries_of,
}

entry_keys-entries_of : (m : Fields) → entry_keys (entries_of m) ≡ keys m
unfolding entry_keys keys
entry_keys-entries_of end = refl
entry_keys-entries_of (field k v m) = ap (λ ks. k ∷ ks) (entry_keys-entries_of m)

is_empty_value-json : (v : Json) → is_empty_value (json v) ≡ is_empty_object v
is_empty_value-json null = refl
is_empty_value-json (bool b) = refl
is_empty_value-json (number t) = refl
is_empty_value-json (int n) = refl
is_empty_value-json (int64 n) = refl
is_empty_value-json (float f) = refl
is_empty_value-json (string s) = refl
is_empty_value-json (array l) = refl
is_empty_value-json (object end) = refl
is_empty_value-json (object (field k v m)) = refl

pruned_entries-entries_of : (m : Fields) → pruned_entries (entries_of m) ≡ entries_of (pruned m)
unfolding pruned_entries pruned
pruned_entries-entries_of end = refl
pruned_entries-entries_of (field k v m) =
    let rest = pruned_entries-entries_of m in
    elim (Bool-cases (is_empty_bucket k v)) [
      | inl e ↦ rw (is_empty_value-json v, e, rest) refl
      | inr e ↦ rw (is_empty_value-json v, e, rest) refl
    ]

module _ (x : External) where
  value_result-entries_of :
      (k : Text) (m : Fields)
      → value_result k (entry_results x (entries_of m)) ≡ ok (value_text k (encode_values x m))
  unfolding value_result entry_results value_text encode_values canonical_value
  value_result-entries_of k end = refl
  value_result-entries_of k (field j v m) = elim (Bool-cases (text_eq k j)) [
    | inl e ↦ rw e refl
    | inr e ↦ rw e (value_result-entries_of k m)
  ]

  write_entries-entries_of :
      (first : Bool) (ks : List Text) (m : Fields)
      → write_entries first ks (entry_results x (entries_of m))
        ≡ ok (write_keys first ks (encode_values x m))
  unfolding write_entries write_keys
  write_entries-entries_of first [] m = refl
  write_entries-entries_of first (k ∷ ks) m =
      rw (value_result-entries_of k m, write_entries-entries_of false ks m) refl

  pub canonical_any-entries_of : (m : Fields) → canonical_any x (entries_of m) ≡ ok (canonical x m)
  unfolding canonical_any canonical_value canonical canonical_encode sorted_keys
  canonical_any-entries_of m =
      rw
        (
          pruned_entries-entries_of m,
          entry_keys-entries_of (pruned m),
          write_entries-entries_of true (sort (keys (pruned m))) (pruned m),
        )
        refl

-- A value that holds, at any depth, one of the type of that name, which is none of decoded JSON.
mutual
  pub data Holds (name : Text) : Value → Type 0 where
    itself : Holds name (other name)
    in_slice : {l : Values} → HoldsIn name l → Holds name (slice l)
    in_dict : {m : Entries} → HoldsAt name m → Holds name (dict m)

  pub data HoldsIn (name : Text) : Values → Type 0 where
    at_first : {v : Value} {l : Values} → Holds name v → HoldsIn name (value v l)
    at_later : {v : Value} {l : Values} → HoldsIn name l → HoldsIn name (value v l)

  pub data HoldsAt (name : Text) : Entries → Type 0 where
    in_first : {k : Text} {v : Value} {m : Entries} → Holds name v → HoldsAt name (entry k v m)
    in_later : {k : Text} {v : Value} {m : Entries} → HoldsAt name m → HoldsAt name (entry k v m)

-- A text, or an error that names a type that P holds of.
abbrev pub Outcome : (Text → Type 0) → Result Text → Type 0
Outcome P (ok t) = Unit
Outcome P (err e) = (name : Text) × (e ≡ no_canonical name) × P name

Outcome-then :
    (P : Text → Type 0) (r : Result Text) (f : Text → Result Text)
    → Outcome P r
    → ((t : Text) → Outcome P (f t))
    → Outcome P (r >>= f)
Outcome-then P (ok t) f h g = g t
Outcome-then P (err e) f h g = h

pub Outcome-weaken :
    (P Q : Text → Type 0) (r : Result Text)
    → ((name : Text) → P name → Q name)
    → Outcome P r
    → Outcome Q r
Outcome-weaken P Q (ok t) f h = tt
Outcome-weaken P Q (err e) f (name, same, p) = (name, same, f name p)

write_entries-Outcome :
    (P : Text → Type 0) (first : Bool) (ks : List Text) (ts : List (Text × Result Text))
    → ((k : Text) → Outcome P (value_result k ts))
    → Outcome P (write_entries first ks ts)
unfolding write_entries
write_entries-Outcome P first [] ts h = tt
write_entries-Outcome P first (k ∷ ks) ts h = Outcome-then P (value_result k ts) _ (h k) (λ t.
    Outcome-then P (write_entries false ks ts) _ (write_entries-Outcome P false ks ts h)
      (λ rest. tt))

module _ (x : External) where
  mutual
    unfolding canonical_value canonical_values entry_results value_result

    pub value-Outcome : (v : Value) → Outcome (λ name. Holds name v) (canonical_value x v)
    value-Outcome (json v) = tt
    value-Outcome (other name) = (name, refl, itself)
    value-Outcome (slice l) =
        Outcome-then (λ name. Holds name (slice l)) (canonical_values x true l) _
          (Outcome-weaken (λ name. HoldsIn name l) _ (canonical_values x true l)
            (λ name h. in_slice h) (values-Outcome true l))
          (λ t. tt)
    value-Outcome (dict m) =
        let ts = entry_results x m in
        let ks = sort (entry_keys m) in
        Outcome-then (λ name. Holds name (dict m)) (write_entries true ks ts) _
          (Outcome-weaken (λ name. HoldsAt name m) _ (write_entries true ks ts)
            (λ name h. in_dict h)
            (write_entries-Outcome (λ name. HoldsAt name m) true ks ts (λ k. entry-Outcome k m)))
          (λ t. tt)

    values-Outcome :
        (first : Bool) (l : Values) → Outcome (λ name. HoldsIn name l) (canonical_values x first l)
    values-Outcome first no_value = tt
    values-Outcome first (value v l) =
        Outcome-then (λ name. HoldsIn name (value v l)) (canonical_value x v) _
          (Outcome-weaken (λ name. Holds name v) _ (canonical_value x v) (λ name h. at_first h)
            (value-Outcome v))
          (λ t.
            Outcome-then (λ name. HoldsIn name (value v l)) (canonical_values x false l) _
              (Outcome-weaken (λ name. HoldsIn name l) _ (canonical_values x false l)
                (λ name h. at_later h) (values-Outcome false l))
              (λ rest. tt))

    entry-Outcome :
        (k : Text) (m : Entries)
        → Outcome (λ name. HoldsAt name m) (value_result k (entry_results x m))
    entry-Outcome k no_entry = tt
    entry-Outcome k (entry j v m) = elim (Bool-cases (text_eq k j)) [
      | inl e ↦ rw e (
          Outcome-weaken (λ name. Holds name v) (λ name. HoldsAt name (entry j v m))
            (canonical_value x v) (λ name h. in_first h) (value-Outcome v))
      | inr e ↦ rw e (
          Outcome-weaken (λ name. HoldsAt name m) (λ name. HoldsAt name (entry j v m))
            (value_result k (entry_results x m)) (λ name h. in_later h) (entry-Outcome k m))
    ]

  kept-HoldsAt :
      (name k : Text) (v : Value) (m n : Entries)
      → (HoldsAt name m → HoldsAt name n)
      → HoldsAt name (entry k v m)
      → HoldsAt name (entry k v n)
  kept-HoldsAt name k v m n f (in_first p) = in_first p
  kept-HoldsAt name k v m n f (in_later p) = in_later (f p)

  pub HoldsAt-pruned :
      (name : Text) (m : Entries) → HoldsAt name (pruned_entries m) → HoldsAt name m
  unfolding pruned_entries
  HoldsAt-pruned name no_entry h = h
  HoldsAt-pruned name (entry k v m) h =
      elim (Bool-cases
        ((text_eq k (codes "require") || text_eq k (codes "advise")) && is_empty_value v)) [
          | inl e ↦ in_later (HoldsAt-pruned name m (rw e at h))
          | inr e ↦ kept-HoldsAt name k v (pruned_entries m) m (HoldsAt-pruned name m) (rw e at h)
        ]
