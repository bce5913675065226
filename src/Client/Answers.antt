-- ===== src/Client/Answers.antt =====
-- What an Answer of client.go says besides its fields: Reset, Error, Unknown and String.
use aamio_go.Prelude.{ℤ, Bool, ◌++◌, Option, none, some, Text, codes, ◌==◌, ◌∷◌, itoa}
use aamio_go.Json.{Fields, get, as_object, integer}
use aamio_go.Client.Http.{Answer}
use aamio_go.Client.Allow.Trim.{trim_space}
use aamio_go.Client.Message.{text_at}

pub record Reset : Type 0 where
  pub after : ℤ
  pub newest : ℤ
  pub what : Text

abbrev reset_in : Option Fields → Option Reset
reset_in none = none
reset_in (some raw) = some (record {
  after = (integer (get (codes "after") raw)).0;
  newest = (integer (get (codes "newest") raw)).0;
  what = text_at (codes "what") raw;
})

abbrev reset_object : Option Fields → Option Fields
reset_object none = none
reset_object (some m) = as_object (get (codes "reset") m)

unfoldable pub reset : Answer → Option Reset
reset a = reset_in (reset_object a.body)

abbrev sentences : Fields → Text
sentences m = trim_space (text_at (codes "error") m ++ (codes ". " ++ text_at (codes "fix") m))

abbrev error_of : Option Fields → Text → Text
error_of none text = text
error_of (some m) text = sentences m

unfoldable pub error_text : Answer → Text
error_text a = error_of a.body a.text

unfoldable pub is_unknown : Answer → Bool
is_unknown a = a.status == 0

-- `%d %s` of the status and the text.
unfoldable pub answer_text : Answer → Text
answer_text a = itoa a.status ++ b' ' ∷ a.text
