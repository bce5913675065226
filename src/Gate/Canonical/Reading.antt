-- ===== src/Gate/Canonical/Reading.antt =====
-- A reader of canonical JSON, which uses nothing of the code that writes it: no white space, numbers
-- as their text, strings with the escapes of JSON. With each call in it goes one step of fuel.
use aamio_go.Prelude.{
  ℕ, zero, suc, ◌+◌, ◌-◌, ◌*◌, get_or, Bool, true, false, ◌&&◌, ◌||◌, [], ◌∷◌, Option, none, some,
  Text, codes, leb, ◌==◌, if◌then◌else◌, length,
}
use aamio_go.Json.{
  Json, Items, Fields, null, bool, number, string, array, object, nil, cons, end, field,
}

unfoldable pub unhex : ℕ → ℕ
unhex c = if leb c b'9' then c - b'0' else c - b'a' + 10

-- The character at c with s behind it, and how many characters of s belong to its escape.
unfoldable pub unescape : ℕ → Text → ℕ × ℕ
unfolding unhex
unescape c s =
    let d = get_or s 0 0 in
    if c == 92
    then (if d == b'u' then (unhex (get_or s 3 0) * 16 + unhex (get_or s 4 0), 5) else (
      (if d == b'n'
          then b'\n'
          else if d == b'r'
          then b'\r'
          else if d == b't'
          then b'\t'
          else if d == b'b'
          then 8
          else if d == b'f'
          then 12
          else d),
      1,
    ))
    else (c, 0)

abbrev pub prepend : ℕ → Option (Text × Text) → Option (Text × Text)
prepend c none = none
prepend c (some (s, rest)) = some (c ∷ s, rest)

-- The string up to its closing quote, and what stands behind it; the opening quote is read, and so
-- are as many characters as the number says.
unfoldable pub read_string : ℕ → Text → Option (Text × Text)
unfolding unescape
read_string k [] = none
read_string (suc k) (c ∷ s) = read_string k s
read_string zero (c ∷ s) =
    let (d, k) = unescape c s in if c == b'"' then some ([], s) else prepend d (read_string k s)

infixl 5 ◌>>=◌
abbrev pub ◌>>=◌ : {A B : Type 0} → Option A → (A → Option B) → Option B
none >>= f = none
some a >>= f = f a

-- What stands behind the given text.
unfoldable pub expect : Text → Text → Option Text
expect [] s = some s
expect (c ∷ t) [] = none
expect (c ∷ t) (d ∷ s) = if c == d then expect t s else none

abbrev pub is_number_char : ℕ → Bool
is_number_char c =
    (leb b'0' c && leb c b'9') || c == b'-' || c == b'+' || c == b'.' || c == b'e' || c == b'E'

unfoldable pub read_number : Text → Text × Text
read_number [] = ([], [])
read_number (c ∷ s) =
    let (t, rest) = read_number s in if is_number_char c then (c ∷ t, rest) else ([], c ∷ s)

abbrev pub starts : ℕ → Text → Bool
starts c [] = false
starts c (d ∷ s) = c == d

abbrev pub tail : Text → Text
tail [] = []
tail (c ∷ s) = s

-- What stands before an item or a field that is not the first.
abbrev pub comma : Bool → Text
comma true = []
comma false = b',' ∷ []

unfoldable mutual
  unfolding expect read_number

  pub read_value : ℕ → Text → Option (Json × Text)
  read_value zero s = none
  read_value (suc f) [] = none
  read_value (suc f) (c ∷ s) =
      if is_number_char c
      then (let (t, rest) = read_number (c ∷ s) in some (number t, rest))
      else if c == b'n'
      then (expect (codes "ull") s >>= λ rest. some (null, rest))
      else if c == b't'
      then (expect (codes "rue") s >>= λ rest. some (bool true, rest))
      else if c == b'f'
      then (expect (codes "alse") s >>= λ rest. some (bool false, rest))
      else if c == b'"'
      then (read_string 0 s >>= λ (t, rest). some (string t, rest))
      else if c == b'['
      then (read_items f true s >>= λ (l, rest). some (array l, rest))
      else if c == b'{'
      then (read_fields f true s >>= λ (m, rest). some (object m, rest))
      else none

  pub read_items : ℕ → Bool → Text → Option (Items × Text)
  read_items zero first s = none
  read_items (suc f) first s =
      if starts b']' s
      then some (nil, tail s)
      else (expect (comma first) s >>= λ at. read_value f at >>= λ (v, after).
          read_items f false after >>= λ (l, rest). some (cons v l, rest))

  pub read_fields : ℕ → Bool → Text → Option (Fields × Text)
  read_fields zero first s = none
  read_fields (suc f) first s =
      if starts b'}' s
      then some (end, tail s)
      else (expect (comma first) s >>= λ at. expect (b'"' ∷ []) at >>= λ name.
          read_string 0 name >>= λ (k, colon). expect (b':' ∷ []) colon >>= λ value.
          read_value f value >>= λ (v, after).
          read_fields f false after >>= λ (m, rest). some (field k v m, rest))

-- The object that a text is, with nothing behind it.
unfoldable pub read_gate : Text → Option Fields
unfolding read_value
read_gate s = read_value (3 * length s) s >>= λ (v, rest). whole v rest
  where
    whole : Json → Text → Option Fields
    whole (object m) [] = some m
    whole (object m) (c ∷ s) = none
    whole v rest = none
