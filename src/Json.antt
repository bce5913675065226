-- ===== src/Json.antt =====
-- Decoded JSON as the client holds it: `any` values, and objects as Go maps. A map is a list of
-- fields; a lookup finds the first of its key, and a nil map is the one with no field.
pub mod Number
pub mod Keys
pub mod Laws
use aamio_go.Prelude.{
  ℤ, pos, Bool, true, false, Option, none, some, List, [], ◌∷◌, Text, text_eq, if◌then◌else◌,
}
use Number.{Float64, parse_int, int64_of, is_int64}

mutual
  pub data Json : Type 0 where
    null : Json
    bool : Bool → Json
    -- json.Number, the text of the number
    number : Text → Json
    int : ℤ → Json
    int64 : ℤ → Json
    float : Float64 → Json
    string : Text → Json
    array : Items → Json
    object : Fields → Json

  pub data Items : Type 0 where
    nil : Items
    cons : Json → Items → Items

  pub data Fields : Type 0 where
    end : Fields
    field : Text → Json → Fields → Fields

-- m[k], with the second result of `v, ok := m[k]`
unfoldable pub get : Text → Fields → Option Json
get k end = none
get k (field j v m) = if text_eq k j then some v else get k m

-- m[k] = v
unfoldable pub put : Text → Json → Fields → Fields
put k v end = field k v end
put k v (field j u m) = if text_eq k j then field j v m else field j u (put k v m)

-- The type assertions x.(string), x.(bool), x.(map[string]any), x.([]any) on m[k], with their ok.
abbrev pub as_string : Option Json → Option Text
as_string none = none
as_string (some (string s)) = some s
as_string (some _) = none

abbrev pub as_bool : Option Json → Option Bool
as_bool none = none
as_bool (some (bool b)) = some b
as_bool (some _) = none

abbrev pub as_object : Option Json → Option Fields
as_object none = none
as_object (some (object m)) = some m
as_object (some _) = none

abbrev pub as_list : Option Json → Option Items
as_list none = none
as_list (some (array l)) = some l
as_list (some _) = none

-- `s, _ := v.(string)` and `b, _ := v.(bool)`: the zero value when it is not one.
abbrev pub string_or_empty : Option Text → Text
string_or_empty none = []
string_or_empty (some s) = s

abbrev pub bool_or_false : Option Bool → Bool
bool_or_false none = false
bool_or_false (some b) = b

-- `integer` of client.go: an exact int64, with its ok. The value beside a refused json.Number is
-- what ParseInt gives beside its error.
unfoldable pub integer : Option Json → ℤ × Bool
integer (some (number s)) = parse_int s
integer (some (float f)) = if is_int64 f then (int64_of f, true) else (pos 0, false)
integer (some (int64 n)) = (n, true)
integer (some (int n)) = (n, true)
integer _ = (pos 0, false)
