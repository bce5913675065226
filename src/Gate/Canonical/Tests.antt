-- ===== src/Gate/Canonical/Tests.antt =====
-- The canonical text at a gate with an empty bucket, an escape and a byte that is no UTF-8, and the
-- theorems at gates.
use aamio_go.Prelude.{Text, pos, [], ◌∷◌, ◌++◌, some, codes, text_eq, refl, ◌≡◌, itoa, itoa_ℤ}
use mathlib.Core.Option
use aamio_go.Toy.{toy}
use aamio_go.Json.{Fields, null, number, int, string, array, object, nil, cons, end, field, get}
use aamio_go.Json.Keys.{keys, sort, sorted_keys, text_leb}
use aamio_go.Codec.Utf8.{runes, encode_rune, to_valid_ascii}
use aamio_go.Gate.Canonical.{
  canonical, canonical_encode, gate_hash, value_text, pruned, escape_rune, escape_runes,
}
use aamio_go.Gate.Canonical.Normal.{normal}
use aamio_go.Gate.Canonical.Reads.{canonical-agrees}
use aamio_go.Gate.Canonical.Values.{
  Value, other, dict, Entries, no_entry, entry, entry_keys, value_result, write_entries,
  canonical_value, entry_results, pruned_entries, canonical_any, entries_of,
}
use aamio_go.Gate.Canonical.Refused.{HoldsAt, Outcome}
use aamio_go.Gate.Canonical.Refuses.{value_at, Refused, Fails, canonical_any-Outcome}
use aamio_go.Errors.{ok, err, no_canonical}
use aamio_go.Gate.Canonical.Numbers.{HasNumeric}
use aamio_go.Gate.Canonical.Order.{
  keep, exchange, inside, same, gate_hash-reordered, after, no_more,
}

abbrev pow : Fields
pow = field (codes "pow") (object (field (codes "bits") (number (codes "20")) end)) end

-- {"require":{"pow":{"bits":20}},"advise":{},"about":["a\n\xff",null]}
abbrev gate : Fields
gate = field (codes "require") (object pow) (
    field (codes "advise") (object end) (
      field (codes "about") (array (cons (string (b'a' ∷ b'\n' ∷ 0xff ∷ [])) (cons null nil))) end))

-- The same with the number as an int and the fields the other way round.
abbrev gate_of_ints : Fields
gate_of_ints =
    field (codes "about") (array (cons (string (b'a' ∷ b'\n' ∷ 0xff ∷ [])) (cons null nil))) (
      field (codes "require")
        (object (field (codes "pow") (object (field (codes "bits") (int (pos 20)) end)) end)) end)

text_of_gate :
    canonical toy gate
    ≡ codes "{\"about\":[\"a\\n"
      ++ 0xef ∷ 0xbf ∷ 0xbd ∷ codes "\",null],\"require\":{\"pow\":{\"bits\":20}}}"
unfolding canonical pruned text_eq canonical_encode value_text sorted_keys text_leb escape_rune
    escape_runes runes encode_rune
text_of_gate = refl

same_text : canonical toy gate ≡ canonical toy gate_of_ints
unfolding canonical pruned text_eq canonical_encode value_text sorted_keys text_leb escape_rune
    escape_runes runes encode_rune itoa itoa_ℤ
same_text = refl

gate_numbers : HasNumeric toy gate
gate_numbers = (((((refl, refl), tt), tt)), (tt, ((tt, (tt, tt)), tt)))

ints_numbers : HasNumeric toy gate_of_ints
ints_numbers = ((tt, (tt, tt)), (((tt, tt), tt), tt))

canonical-agrees_example :
    Option.map (normal toy) (get (codes "require") (pruned gate))
    ≡ Option.map (normal toy) (get (codes "require") (pruned gate_of_ints))
unfolding pruned text_eq keys
canonical-agrees_example =
    canonical-agrees toy gate gate_of_ints gate_numbers ints_numbers
      (to_valid_ascii _ refl, (to_valid_ascii _ refl, tt))
      (to_valid_ascii _ refl, (to_valid_ascii _ refl, tt)) same_text (codes "require")

-- The fields of the gate and those of the bucket, the other way round.
abbrev two : Fields
two = field (codes "per_key") (number (codes "5")) pow

abbrev two_others : Fields
two_others =
    field (codes "pow") (object (field (codes "bits") (number (codes "20")) end))
      (field (codes "per_key") (number (codes "5")) end)

abbrev front : Fields
front = field (codes "require") (object two) (field (codes "ttl") null end)

abbrev back : Fields
back = field (codes "ttl") null (field (codes "require") (object two_others) end)

gate_hash-reordered_example :
    (canonical toy front ≡ canonical toy back) × (gate_hash toy front ≡ gate_hash toy back)
gate_hash-reordered_example =
    gate_hash-reordered toy front back
      (after (keep (inside (exchange (λ e. cc e))) (keep same no_more)) (exchange (λ e. cc e)))

-- A gate that a program made, with a []string in it.
abbrev made_gate : Entries
made_gate =
    entry (codes "require") (dict (entry (codes "tags") (other (codes "[]string")) no_entry))
      (entry (codes "advise") (dict no_entry) no_entry)

refused_type : canonical_any toy made_gate ≡ err (no_canonical (codes "[]string"))
unfolding canonical_any canonical_value pruned_entries entry_results entry_keys write_entries
    value_result sort text_eq
refused_type = refl

canonical_any-Outcome_example :
    Outcome (λ name. HoldsAt name made_gate) (canonical_any toy made_gate)
    × ((k : Text) (v : Value)
        → value_at k made_gate ≡ some v
        → Refused v
        → Fails (canonical_any toy made_gate))
    × ((gate : Fields)
        → made_gate ≡ entries_of gate
        → canonical_any toy made_gate ≡ ok (canonical toy gate))
canonical_any-Outcome_example = canonical_any-Outcome toy made_gate
