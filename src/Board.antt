-- ===== src/Board.antt =====
-- board.go: the reads of the board. A request is the map that find encodes as its body.
pub mod Reads
pub mod Post
pub mod Calls
pub mod Replies
mod Tests
use aamio_go.Prelude.{
  ℤ, pos, ltb_ℤ, Bool, true, false, List, [], ◌∷◌, Option, none, some, Text, codes, text_eq,
  is_empty, ◌==◌, not, if◌then◌else◌,
}
use aamio_go.Errors.{Result, ok, err, ◌>>=◌, scope_not_read}
use aamio_go.Json.{
  Json, Items, nil, cons, Fields, end, field, number, float, int, int64, string, array, object, get,
  put, as_string, as_object, as_list, string_or_empty,
}
use aamio_go.Json.Number.{parse_int, int64_of}
use aamio_go.Address.{scope_address}
use aamio_go.Gate.Plan.{advise_max_bits}
use aamio_go.Client.Http.{Answer}
use aamio_go.Client.Read.{cap_wait}

pub record FindOptions : Type 0 where
  pub kind : Text
  pub tags : List Text
  pub lang : Text
  pub key : Text
  pub after : ℤ
  pub wait : ℤ
  pub min_work_bits : ℤ

abbrev bits_value : Option Json → ℤ
bits_value (some (number s)) = (parse_int s).0
bits_value (some (float f)) = int64_of f
bits_value _ = pos 0

abbrev fields_or_end : Option Fields → Fields
fields_or_end none = end
fields_or_end (some m) = m

-- AdvisedBits, of the descriptor that was read.
unfoldable pub advised_bits : Fields → ℤ
advised_bits descriptor =
    let work = fields_or_end (as_object (get (codes "work") descriptor)) in
    let bits = bits_value (get (codes "advise_bits") work) in
    if ltb_ℤ advise_max_bits bits then advise_max_bits else bits

abbrev pub put_if : Bool → Text → Json → Fields → Fields
put_if b k v m = if b then put k v m else m

abbrev pub put_text : Text → Text → Fields → Fields
put_text k s m = put_if (not (is_empty s)) k (string s) m

abbrev pub items : List Text → Items
items [] = nil
items (s ∷ ss) = cons (string s) (items ss)

abbrev pub has_any : List Text → Bool
has_any [] = false
has_any (s ∷ ss) = true

abbrev pub is_positive : ℤ → Bool
is_positive n = ltb_ℤ (pos 0) n

-- The map req of find.
unfoldable pub find_fields : FindOptions → Text → Fields
find_fields o scope_key =
    let m0 = put (codes "after") (int64 o.after) end in
    let m1 = put_text (codes "scope_key") scope_key m0 in
    let m2 = put_text (codes "kind") o.kind m1 in
    let m3 = put_if (has_any o.tags) (codes "tags") (array (items o.tags)) m2 in
    let m4 = put_text (codes "lang") o.lang m3 in
    let m5 = put_text (codes "key") o.key m4 in
    let m6 = put_if (is_positive o.wait) (codes "wait") (int (cap_wait o.wait)) m5 in
    put_if (is_positive o.min_work_bits) (codes "min_work_bits") (int o.min_work_bits) m6

-- The maps among the items.
unfoldable pub posts_of : Items → List Fields
posts_of nil = []
posts_of (cons (object p) list) = p ∷ posts_of list
posts_of (cons _ list) = posts_of list

abbrev listed : Option Items → List Fields
listed none = []
listed (some list) = posts_of list

-- `next, _ = n.Int64()`, whatever its error
abbrev pub next_of : ℤ → Option Json → ℤ
next_of after (some (number s)) = (parse_int s).0
next_of after _ = after

abbrev pub find_body : ℤ → Bool → Option Fields → List Fields × ℤ
find_body after true (some body) =
    (listed (as_list (get (codes "posts") body)), next_of after (get (codes "next") body))
find_body after _ _ = ([], after)

-- What find makes of the answer.
unfoldable pub find_answer : FindOptions → Answer → List Fields × ℤ
unfolding posts_of
find_answer o a = find_body o.after (a.status == 200) a.body

abbrev pub scope_named : Option Fields → Text
scope_named none = []
scope_named (some body) = string_or_empty (as_string (get (codes "scope") body))

abbrev pub in_scope : FindOptions → Answer → Text → Result (List Fields × ℤ)
in_scope o a address =
    if a.status == 200
    then (if text_eq (scope_named a.body) address then ok (find_answer o a) else err scope_not_read)
    else ok (find_answer o a)

-- FindInScope with the answer it has; with a key that is none the board is not asked.
unfoldable pub find_in_scope : Text → FindOptions → Answer → Result (List Fields × ℤ)
unfolding find_answer
find_in_scope scope_key o a = do address ← scope_address scope_key; in_scope o a address
