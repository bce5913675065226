-- ===== src/Gate/Canonical/Refuses.antt =====
-- When Canonical refuses a map.
use aamio_go.Prelude.{
  Bool, true, false, ◌&&◌, ◌||◌, List, [], ◌∷◌, Option, none, some, Text, codes, text_eq, contains,
  subst, text_eq_iff, if◌then◌else◌, ◌≡◌, ◌∙◌, refl, sym, ap, arith, Bool-cases, inl, inr,
}
use aamio_go.Errors.{Result, ok, err, ◌>>=◌}
use aamio_go.External.{External}
use aamio_go.Json.{Fields}
use aamio_go.Json.Keys.{sort, contains-sort}
use aamio_go.Gate.Canonical.{canonical}
use aamio_go.Gate.Canonical.Values.{
  Value, json, other, slice, dict, Values, no_value, value, Entries, no_entry, entry, entry_keys,
  value_result, write_entries, canonical_value, canonical_values, entry_results, is_empty_value,
  pruned_entries, canonical_any, entries_of,
}
use aamio_go.Gate.Canonical.Refused.{
  Holds, in_dict, HoldsAt, Outcome, Outcome-weaken, value-Outcome, HoldsAt-pruned,
  canonical_any-entries_of,
}

-- m[k]
abbrev pub value_at : Text → Entries → Option Value
value_at k no_entry = none
value_at k (entry j v m) = if text_eq k j then some v else value_at k m

-- A value of a type that is none of decoded JSON, or a slice or map that has such a value in it.
mutual
  pub data Refused : Value → Type 0 where
    of_type : {name : Text} → Refused (other name)
    an_item : {l : Values} → RefusedIn l → Refused (slice l)
    at_key :
        {m : Entries} (k : Text) (v : Value) → value_at k m ≡ some v → Refused v → Refused (dict m)

  pub data RefusedIn : Values → Type 0 where
    this_item : {v : Value} {l : Values} → Refused v → RefusedIn (value v l)
    other_item : {v : Value} {l : Values} → RefusedIn l → RefusedIn (value v l)

abbrev pub Fails : Result Text → Type 0
Fails (ok t) = ⊥
Fails (err e) = Unit

Fails-first : (r : Result Text) (f : Text → Result Text) → Fails r → Fails (r >>= f)
Fails-first (ok t) f h = absurd h
Fails-first (err e) f h = tt

Fails-next :
    (r : Result Text) (f : Text → Result Text) → ((t : Text) → Fails (f t)) → Fails (r >>= f)
Fails-next (ok t) f h = h t
Fails-next (err e) f h = tt

write_entries-Fails :
    (first : Bool) (k : Text) (ks : List Text) (ts : List (Text × Result Text))
    → contains k ks ≡ true
    → Fails (value_result k ts)
    → Fails (write_entries first ks ts)
unfolding write_entries
write_entries-Fails first k [] ts c h = absurd cc
write_entries-Fails first k (j ∷ ks) ts c h = elim (Bool-cases (text_eq k j)) [
  | inl e ↦
      Fails-first (value_result j ts) _
        (subst (λ i. Fails (value_result i ts)) ((text_eq_iff k j).0 e) h)
  | inr e ↦ Fails-next (value_result j ts) _ (λ t.
      Fails-first (write_entries false ks ts) _
        (write_entries-Fails false k ks ts (ground arith) h))
]

contains-entry_keys :
    (k : Text) (v : Value) (m : Entries) → value_at k m ≡ some v → contains k (entry_keys m) ≡ true
unfolding entry_keys
contains-entry_keys k v no_entry h = absurd cc
contains-entry_keys k v (entry j u m) h = elim (Bool-cases (text_eq k j)) [
  | inl e ↦ rw e refl
  | inr e ↦ rw e (contains-entry_keys k v m (rw e at h))
]

module _ (x : External) where
  value_result-at :
      (k : Text) (v : Value) (m : Entries)
      → value_at k m ≡ some v
      → value_result k (entry_results x m) ≡ canonical_value x v
  unfolding value_result entry_results
  value_result-at k v no_entry h = absurd cc
  value_result-at k v (entry j u m) h = elim (Bool-cases (text_eq k j)) [
    | inl e ↦
        let same : some u ≡ some v = rw e at h in
        let here : u ≡ v = cc same in rw e (ap (canonical_value x) here)
    | inr e ↦ rw e (value_result-at k v m (rw e at h))
  ]

  mutual
    unfolding canonical_value canonical_values

    value-Fails : (v : Value) → Refused v → Fails (canonical_value x v)
    value-Fails (json v) h = elim h [ ]
    value-Fails (other name) of_type = tt
    value-Fails (slice l) (an_item h) =
        Fails-first (canonical_values x true l) _ (values-Fails true l h)
    value-Fails (dict m) (at_key k v at h) =
        let listed = contains-sort k (entry_keys m) ∙ contains-entry_keys k v m at in
        let fails = subst Fails (sym (value_result-at k v m at)) (value-Fails v h) in
        Fails-first (write_entries true (sort (entry_keys m)) (entry_results x m)) _
          (write_entries-Fails true k (sort (entry_keys m)) (entry_results x m) listed fails)

    values-Fails : (first : Bool) (l : Values) → RefusedIn l → Fails (canonical_values x first l)
    values-Fails first no_value h = elim h [ ]
    values-Fails first (value v l) (this_item h) =
        Fails-first (canonical_value x v) _ (value-Fails v h)
    values-Fails first (value v l) (other_item h) =
        Fails-next (canonical_value x v) _
          (λ t. Fails-first (canonical_values x false l) _ (values-Fails false l h))

  Refused-not_empty : (v : Value) → Refused v → is_empty_value v ≡ false
  Refused-not_empty (json v) h = elim h [ ]
  Refused-not_empty (other name) h = refl
  Refused-not_empty (slice l) h = refl
  Refused-not_empty (dict no_entry) (at_key k v at h) = absurd cc
  Refused-not_empty (dict (entry k v m)) h = refl

  value_at-pruned :
      (k : Text) (v : Value) (m : Entries)
      → is_empty_value v ≡ false
      → value_at k m ≡ some v
      → value_at k (pruned_entries m) ≡ some v
  unfolding pruned_entries
  value_at-pruned k v no_entry e h = absurd cc
  value_at-pruned k v (entry j u m) e h =
      let bucket = text_eq j (codes "require") || text_eq j (codes "advise") in
      elim (Bool-cases (text_eq k j)) [
        | inl here ↦
            let found : some u ≡ some v = rw here at h in
            let same : u ≡ v = cc found in
            let stays : (bucket && is_empty_value u) ≡ false = rw (same, e) (ground arith) in
            rw (stays, here) found
        | inr past ↦
            let later = value_at-pruned k v m e (rw past at h) in
            elim (Bool-cases (bucket && is_empty_value u)) [
              | inl out ↦ rw out later
              | inr stays ↦ rw (stays, past) later
            ]
      ]

  -- Canonical gives a text, or an error that names the type of a value in the map that is none of
  -- decoded JSON: always an error when a value under some key is of such a type or has one in it, and
  -- for a map of decoded JSON the text that a gate hash is taken over.
  pub canonical_any-Outcome :
      (m : Entries)
      → Outcome (λ name. HoldsAt name m) (canonical_any x m)
        × ((k : Text) (v : Value) → value_at k m ≡ some v → Refused v → Fails (canonical_any x m))
        × ((gate : Fields) → m ≡ entries_of gate → canonical_any x m ≡ ok (canonical x gate))
  unfolding canonical_any
  canonical_any-Outcome m = (
    Outcome-weaken (λ name. Holds name (dict (pruned_entries m))) (λ name. HoldsAt name m)
        (canonical_value x (dict (pruned_entries m))) (λ name h. at_map name h)
        (value-Outcome x (dict (pruned_entries m))),
    λ k v at h.
        value-Fails (dict (pruned_entries m))
          (at_key k v (value_at-pruned k v m (Refused-not_empty v h) at) h),
    λ gate e. ap (canonical_any x) e ∙ canonical_any-entries_of x gate,
  )
    where
      at_map : (name : Text) → Holds name (dict (pruned_entries m)) → HoldsAt name m
      at_map name (in_dict h) = HoldsAt-pruned x name m h
