-- ===== src/Gate/Canonical/Numbers.antt =====
-- Gates whose numbers are written as JSON numbers: their normal forms are plain.
use aamio_go.Prelude.{
  ℕ, suc, ℤ, pos, negsuc, ◌≡◌, true, false, ◌&&◌, List, [], ◌∷◌, Text, leb, itoa, itoa_ℤ, all,
  all-itoa, length-itoa_pos, text_eq, if◌then◌else◌, arith, length, ◌⊎◌, inl, inr, is_empty, ◌≤◌,
}
use aamio_go.Json.{
  Json, Items, Fields, null, bool, number, int, int64, float, string, array, object, nil, cons, end,
  field,
}
use aamio_go.Json.Number.{is_int64, int64_of}
use aamio_go.Json.Keys.{sorted_keys}
use aamio_go.External.{External}
use aamio_go.Gate.Canonical.{pruned}
use aamio_go.Gate.Canonical.Reading.{is_number_char}
use aamio_go.Gate.Canonical.Normal.{normal, normal_items, normal_values, value_at, pick}
use aamio_go.Gate.Canonical.RoundTrip.{IsNumber, IsPlain, ArePlain, HasPlain}

-- A json.Number holds a JSON number, and a float that is no int64 is formatted as one, so it is
-- neither an infinity nor NaN.
abbrev mutual
  pub IsNumeric : External → Json → Type 0
  IsNumeric x (number t) = IsNumber t
  IsNumeric x (float f) = (is_int64 f ≡ true) ⊎ IsNumber (x.format_float f)
  IsNumeric x (array l) = AreNumeric x l
  IsNumeric x (object m) = HasNumeric x m
  IsNumeric x null = Unit
  IsNumeric x (bool b) = Unit
  IsNumeric x (int n) = Unit
  IsNumeric x (int64 n) = Unit
  IsNumeric x (string s) = Unit

  pub AreNumeric : External → Items → Type 0
  AreNumeric x nil = Unit
  AreNumeric x (cons v l) = IsNumeric x v × AreNumeric x l

  pub HasNumeric : External → Fields → Type 0
  HasNumeric x end = Unit
  HasNumeric x (field k v m) = IsNumeric x v × HasNumeric x m

digits-number :
    (t : Text) → all (λ c. leb b'0' c && leb c b'9') t ≡ true → all is_number_char t ≡ true
digits-number [] h = h
digits-number (c ∷ t) h = ground (arith, digits-number t)

is_empty-itoa : (t : Text) → 1 ≤ length t → is_empty t ≡ false
is_empty-itoa [] h = absurd (omega arith)
is_empty-itoa (c ∷ t) h = ground arith

itoa-IsNumber : (n : ℕ) → IsNumber (itoa n)
itoa-IsNumber n = (is_empty-itoa (itoa n) (length-itoa_pos n), digits-number (itoa n) (all-itoa n))

itoa_ℤ-IsNumber : (n : ℤ) → IsNumber (itoa_ℤ n)
unfolding itoa_ℤ
itoa_ℤ-IsNumber (pos n) = itoa-IsNumber n
itoa_ℤ-IsNumber (negsuc n) = (ground arith, (itoa-IsNumber (suc n)).1)

module _ (x : External) where
  value_at-IsPlain : (k : Text) (m : Fields) → HasPlain m → IsPlain (value_at k m)
  unfolding value_at
  value_at-IsPlain k end h = tt
  value_at-IsPlain k (field j v m) (p, h) =
      elim (text_eq k j) as (λ b. IsPlain (if b then v else value_at k m)) [
        | true ↦ p
        | false ↦ value_at-IsPlain k m h
      ]

  pick-HasPlain : (ks : List Text) (m : Fields) → HasPlain m → HasPlain (pick ks m)
  unfolding pick
  pick-HasPlain [] m h = tt
  pick-HasPlain (k ∷ ks) m h = (value_at-IsPlain k m h, pick-HasPlain ks m h)

  mutual
    unfolding normal

    normal-IsPlain : (v : Json) → IsNumeric x v → IsPlain (normal x v)
    normal-IsPlain null h = tt
    normal-IsPlain (bool b) h = tt
    normal-IsPlain (number t) h = h
    normal-IsPlain (int n) h = itoa_ℤ-IsNumber n
    normal-IsPlain (int64 n) h = itoa_ℤ-IsNumber n
    normal-IsPlain (float f) (inl e) = rw e (itoa_ℤ-IsNumber (int64_of f))
    normal-IsPlain (float f) (inr h) =
        elim (is_int64 f) as (λ b. IsNumber (if b then itoa_ℤ (int64_of f) else x.format_float f)) [
          | true ↦ itoa_ℤ-IsNumber (int64_of f)
          | false ↦ h
        ]
    normal-IsPlain (string s) h = tt
    normal-IsPlain (array l) h = items-ArePlain l h
    normal-IsPlain (object m) h =
        pick-HasPlain (sorted_keys m) (normal_values x m) (values-HasPlain m h)

    items-ArePlain : (l : Items) → AreNumeric x l → ArePlain (normal_items x l)
    items-ArePlain nil h = tt
    items-ArePlain (cons v l) (p, h) = (normal-IsPlain v p, items-ArePlain l h)

    values-HasPlain : (m : Fields) → HasNumeric x m → HasPlain (normal_values x m)
    values-HasPlain end h = tt
    values-HasPlain (field k v m) (p, h) = (normal-IsPlain v p, values-HasPlain m h)

  pub object-HasPlain :
      (m : Fields) → HasNumeric x m → HasPlain (pick (sorted_keys m) (normal_values x m))
  object-HasPlain m h = pick-HasPlain (sorted_keys m) (normal_values x m) (values-HasPlain m h)

  pub pruned-HasNumeric : (m : Fields) → HasNumeric x m → HasNumeric x (pruned m)
  unfolding pruned
  pruned-HasNumeric end h = tt
  pruned-HasNumeric (field k v m) (p, h) = ground (arith, pruned-HasNumeric m)
