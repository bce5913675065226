-- ===== src/Gate/Canonical/RoundTrip.antt =====
-- The reader reads back what the canonical text prints.
use aamio_go.Prelude.{
  ℕ, zero, suc, ◌+◌, ◌*◌, ◌≤◌, ◌≡◌, refl, Bool, true, false, not, [], ◌∷◌, ◌++◌, some, Text, all,
  append_assoc, arith, length, is_empty, length-append, and_left, append-nil,
}
use aamio_go.Json.{
  Json, Items, Fields, null, bool, number, int, int64, float, string, array, object, nil, cons, end,
  field,
}
use aamio_go.Gate.Canonical.{quote, sep}
use aamio_go.Gate.Canonical.Strings.{escape_bytes, read_string-escape_bytes}
use aamio_go.Gate.Canonical.Normal.{print, print_items, print_fields}
use aamio_go.Gate.Canonical.Reading.{
  comma, expect, is_number_char, read_number, starts, read_value, read_items, read_fields,
  read_gate,
}

abbrev pub IsNumber : Text → Type 0
IsNumber t = (is_empty t ≡ false) × (all is_number_char t ≡ true)

-- Decoded JSON with the numbers as their text.
abbrev mutual
  pub IsPlain : Json → Type 0
  IsPlain null = Unit
  IsPlain (bool b) = Unit
  IsPlain (number t) = IsNumber t
  IsPlain (int n) = ⊥
  IsPlain (int64 n) = ⊥
  IsPlain (float f) = ⊥
  IsPlain (string s) = Unit
  IsPlain (array l) = ArePlain l
  IsPlain (object m) = HasPlain m

  pub ArePlain : Items → Type 0
  ArePlain nil = Unit
  ArePlain (cons v l) = IsPlain v × ArePlain l

  pub HasPlain : Fields → Type 0
  HasPlain end = Unit
  HasPlain (field k v m) = IsPlain v × HasPlain m

-- The fuel that a value needs.
abbrev mutual
  nodes : Json → ℕ
  nodes (array l) = suc (nodes_items l)
  nodes (object m) = suc (nodes_fields m)
  nodes _ = 1

  nodes_items : Items → ℕ
  nodes_items nil = 1
  nodes_items (cons v l) = suc (nodes v + nodes_items l)

  nodes_fields : Fields → ℕ
  nodes_fields end = 1
  nodes_fields (field k v m) = suc (nodes v + nodes_fields m)

nodes_pos : (v : Json) → 1 ≤ nodes v
nodes_pos null = omega arith
nodes_pos (array l) = omega arith
nodes_pos (object m) = omega arith
nodes_pos _ = omega arith

-- No number goes on here.
abbrev stops : Text → Bool
stops [] = true
stops (c ∷ s) = not (is_number_char c)

read_number-stops :
    (t rest : Text)
    → all is_number_char t ≡ true
    → stops rest ≡ true
    → read_number (t ++ rest) ≡ (t, rest)
unfolding read_number
read_number-stops [] [] h k = refl
read_number-stops [] (c ∷ rest) h k = ground arith
read_number-stops (c ∷ t) rest h k = ground (arith, read_number-stops t rest)

starts-print : (v : Json) (s : Text) → IsPlain v → starts b']' (print v ++ s) ≡ false
unfolding print
starts-print null s h = refl
starts-print (bool true) s h = refl
starts-print (bool false) s h = refl
starts-print (number []) s h = ground arith
starts-print (number (c ∷ t)) s h = ground arith
starts-print (int n) s h = absurd h
starts-print (int64 n) s h = absurd h
starts-print (float f) s h = absurd h
starts-print (string t) s h = refl
starts-print (array l) s h = refl
starts-print (object m) s h = refl

starts-item :
    (first : Bool) (v : Json) (s : Text)
    → IsPlain v
    → starts b']' (sep first ++ (print v ++ s)) ≡ false
unfolding sep
starts-item true v s h = starts-print v s h
starts-item false v s h = refl

starts-field : (first : Bool) (s : Text) → starts b'}' (sep first ++ quote ∷ s) ≡ false
unfolding sep
starts-field true s = refl
starts-field false s = refl

expect-append : (t s : Text) → expect t (t ++ s) ≡ some s
unfolding expect
expect-append [] s = refl
expect-append (c ∷ t) s = ground (arith, expect-append t s)

-- The comma that the reader wants is the one that is written.
expect-comma : (first : Bool) (s : Text) → expect (comma first) (sep first ++ s) ≡ some s
unfolding expect sep
expect-comma true s = refl
expect-comma false s = refl

-- What stands behind an item or a field ends a number.
stops-items : (l : Items) (s : Text) → stops (print_items false l ++ b']' ∷ s) ≡ true
unfolding print sep
stops-items nil s = refl
stops-items (cons v l) s = refl

stops-fields : (m : Fields) (s : Text) → stops (print_fields false m ++ b'}' ∷ s) ≡ true
unfolding print sep
stops-fields end s = refl
stops-fields (field k v m) s = refl

ruleset steps = (append_assoc, starts-field, expect-append, expect-comma, read_string-escape_bytes)

mutual
  unfolding read_value print

  reads :
      (v : Json)
      → IsPlain v
      → (f : ℕ) (rest : Text) → nodes v ≤ f
      → stops rest ≡ true
      → read_value f (print v ++ rest) ≡ some (v, rest)
  reads v p zero rest h e = absurd (omega (arith, nodes_pos v))
  reads null p (suc f) rest h e = refl
  reads (bool true) p (suc f) rest h e = refl
  reads (bool false) p (suc f) rest h e = refl
  reads (number []) p (suc f) rest h e = ground arith
  reads (number (c ∷ t)) p (suc f) rest h e =
      let digit = and_left (is_number_char c) (all is_number_char t) p.1 in
      let digits : all is_number_char t ≡ true = ground arith in
      rw (digit, read_number-stops t rest digits e)
  reads (string t) p (suc f) rest h e = simp steps
  reads (array l) p (suc f) rest h e = simp (steps, reads_items l p true f rest (omega arith))
  reads (object m) p (suc f) rest h e = simp (steps, reads_fields m p true f rest (omega arith))
  reads (int n) p (suc f) rest h e = absurd p
  reads (int64 n) p (suc f) rest h e = absurd p
  reads (float x) p (suc f) rest h e = absurd p

  reads_items :
      (l : Items)
      → ArePlain l
      → (first : Bool) (f : ℕ) (rest : Text) → nodes_items l ≤ f
      → read_items f first (print_items first l ++ b']' ∷ rest) ≡ some (l, rest)
  reads_items nil p first zero rest h = absurd (omega arith)
  reads_items nil p first (suc f) rest h = refl
  reads_items (cons v l) p first zero rest h = absurd (omega arith)
  reads_items (cons v l) (pv, pl) first (suc f) rest h =
      let after = print_items false l ++ b']' ∷ rest in
      simp (
        steps,
        starts-item first v after pv,
        reads v pv f after (omega arith) (stops-items l rest),
        reads_items l pl false f rest (omega arith),
      )

  reads_fields :
      (m : Fields)
      → HasPlain m
      → (first : Bool) (f : ℕ) (rest : Text) → nodes_fields m ≤ f
      → read_fields f first (print_fields first m ++ b'}' ∷ rest) ≡ some (m, rest)
  reads_fields end p first zero rest h = absurd (omega arith)
  reads_fields end p first (suc f) rest h = refl
  reads_fields (field k v m) p first zero rest h = absurd (omega arith)
  reads_fields (field k v m) (pv, pm) first (suc f) rest h =
      let after = print_fields false m ++ b'}' ∷ rest in
      simp (
        steps,
        reads v pv f after (omega arith) (stops-fields m rest),
        reads_fields m pm false f rest (omega arith),
      )

length-append_texts : (s t : Text) → length (s ++ t) ≡ length s + length t
length-append_texts s t = length-append s t

ruleset sizes = (arith, length-append_texts)

-- Three steps of fuel for each character are enough.
mutual
  unfolding print

  nodes-le : (v : Json) → IsPlain v → nodes v + 1 ≤ 3 * length (print v)
  nodes-le null p = omega arith
  nodes-le (bool true) p = omega arith
  nodes-le (bool false) p = omega arith
  nodes-le (number []) p = ground arith
  nodes-le (number (c ∷ t)) p = omega arith
  nodes-le (string t) p = omega arith
  nodes-le (array l) p = omega (sizes, nodes_items-le l p true)
  nodes-le (object m) p = omega (sizes, nodes_fields-le m p true)
  nodes-le (int n) p = absurd p
  nodes-le (int64 n) p = absurd p
  nodes-le (float x) p = absurd p

  nodes_items-le :
      (l : Items)
      → ArePlain l
      → (first : Bool) → nodes_items l ≤ 1 + 3 * length (print_items first l)
  nodes_items-le nil p first = omega arith
  nodes_items-le (cons v l) (pv, pl) first = omega (sizes, nodes-le v pv, nodes_items-le l pl false)

  nodes_fields-le :
      (m : Fields)
      → HasPlain m
      → (first : Bool) → nodes_fields m ≤ 1 + 3 * length (print_fields first m)
  nodes_fields-le end p first = omega arith
  nodes_fields-le (field k v m) (pv, pm) first =
      let name = length-append_texts (escape_bytes k ++ quote ∷ []) in
      let behind = name (b':' ∷ (print v ++ print_fields false m)) in
      omega (sizes, behind, nodes-le v pv, nodes_fields-le m pm false)

-- An object reads back from its text.
pub read_gate-print : (m : Fields) → HasPlain m → read_gate (print (object m)) ≡ some m
unfolding read_gate
read_gate-print m p =
    let t = print (object m) in
    let h = reads (object m) p (3 * length t) [] (omega (arith, nodes-le (object m) p)) refl in
    rw (rw append-nil at h)
