-- ===== src/Board/Post/Said.antt =====
-- What the body of a post of board.go says.
use aamio_go.Prelude.{
  pos, ◌&&◌, not, Option, none, some, Text, codes, is_empty, ◌≡◌, text_eq, arith, if◌then◌else◌,
}
use aamio_go.Json.{Json, Fields, Items, get, string, array, int}
use aamio_go.Json.Laws.{get-put}
use aamio_go.Client.Requests.{texts}
use aamio_go.Client.Requests.Signed.{strings, strings-texts}
use aamio_go.Board.Post.{PostOptions, Draft, or_ttl, post_fields, put_text}

-- The text of an option that is not empty.
abbrev unless_empty : Text → Option Json
unless_empty s = if not (is_empty s) then some (string s) else none

get-put_text :
    (k j s : Text) (m : Fields)
    → get j (put_text k s m)
      ≡ (if text_eq j k && not (is_empty s) then some (string s) else get j m)
get-put_text k j s m = ground (arith, get-put k j (string s) m)

-- What a post says: all of the draft, the address of the inbox, the time it lives, which is half
-- an hour unless one is given, and those of its other options that are not empty.
abbrev pub Says : Draft → PostOptions → Text → Fields → Type 0
Says d o w m =
    (get (codes "w") m ≡ some (string w))
    × (get (codes "kind") m ≡ some (string d.kind))
    × (get (codes "title") m ≡ some (string d.title))
    × (get (codes "text") m ≡ some (string d.text))
    × (get (codes "ttl") m ≡ some (int (or_ttl o.ttl (pos 1800))))
    × (get (codes "lang") m ≡ unless_empty o.lang)
    × (get (codes "deadline") m ≡ unless_empty o.deadline)
    × (get (codes "scope") m ≡ unless_empty o.scope)
    × (l : Items) × (get (codes "tags") m ≡ some (array l))
    × (strings l ≡ d.tags)

pub post_fields-Says : (d : Draft) (o : PostOptions) (w : Text) → Says d o w (post_fields d o w)
unfolding post_fields text_eq get
post_fields-Says d o w = (
  simp (get-put_text, get-put),
  simp (get-put_text, get-put),
  simp (get-put_text, get-put),
  simp (get-put_text, get-put),
  simp (get-put_text, get-put),
  simp (get-put_text, get-put),
  simp (get-put_text, get-put),
  simp (get-put_text, get-put),
  texts d.tags,
  simp (get-put_text, get-put),
  strings-texts d.tags,
)
