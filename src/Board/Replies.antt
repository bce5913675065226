-- ===== src/Board/Replies.antt =====
-- decodeReplies of board.go, with Replies and RepliesThread over it. Go visits the entries of the
-- map of aliases in any order, which may differ from message to message.
pub mod Aliases
pub mod Tests
use aamio_go.Prelude.{ℕ, suc, ℤ, Bool, List, [], ◌∷◌, Option, none, some, Text, codes, insert}
use aamio_go.Json.{Json, Fields, end, get, put, as_object}
use aamio_go.External.{External}
use aamio_go.Keys.{Keys}
use aamio_go.Client.Http.{Answer}
use aamio_go.Client.Message.{Message, text_at}
use aamio_go.Client.Read.{Thread, KeptOut}
use aamio_go.Client.Session.{World, M, pure, ◌>>=◌}
use aamio_go.Client.Requests.{read, read_own}

pub record Reply : Type 0 where
  pub message : Message
  pub post : Text
  pub reply_to : Text
  pub text : Text
  pub extra : Option Fields
  pub renamed : List (Text × Text)

-- A name with its aliases.
abbrev pub Entry : Type 0
Entry = Text × List Text

abbrev pub post_names : Entry
post_names = (codes "post", codes "post_id" ∷ [])

abbrev pub reply_to_names : Entry
reply_to_names = (codes "reply_to", codes "w" ∷ codes "reply_address" ∷ codes "replyTo" ∷ [])

abbrev pub text_names : Entry
text_names = (codes "text", codes "reply" ∷ codes "message" ∷ [])

abbrev pub aliases : List Entry
aliases = post_names ∷ reply_to_names ∷ text_names ∷ []

abbrev pub Renamed : Type 0
Renamed = Fields × List (Text × Text)

-- The first alias that is there gives its value to the name.
abbrev pub rename_by : Text → Text → Renamed → Renamed → Option Json → Renamed
rename_by canonical alias (j, renamed) rest none = rest
rename_by canonical alias (j, renamed) rest (some v) =
    (put canonical v j, insert alias canonical renamed)

unfoldable pub rename_first : Text → List Text → Renamed → Renamed
rename_first canonical [] s = s
rename_first canonical (alias ∷ names) s =
    rename_by canonical alias s (rename_first canonical names s) (get alias s.0)

abbrev pub unless_there : Option Json → Renamed → Renamed → Renamed
unless_there none s rest = rest
unless_there (some v) s rest = s

unfoldable pub rename_one : Entry → Renamed → Renamed
unfolding rename_first
rename_one (canonical, names) s =
    unless_there (get canonical s.0) s (rename_first canonical names s)

unfoldable pub rename_all : List Entry → Renamed → Renamed
unfolding rename_one
rename_all [] s = s
rename_all (e ∷ order) s = rename_all order (rename_one e s)

-- The map of a message is the one that is changed; a message without one keeps none.
abbrev pub fields_or_new : Option Fields → Fields
fields_or_new none = end
fields_or_new (some j) = j

abbrev pub changed : Option Fields → Fields → Option Fields
changed none j = none
changed (some old) j = some j

unfoldable pub decode_reply : List Entry → Message → Reply
unfolding rename_all
decode_reply order m =
    let (j, renamed) = rename_all order (fields_or_new m.json, []) in
    record {
      message = record m { json = changed m.json j };
      post = text_at (codes "post") j;
      reply_to = text_at (codes "reply_to") j;
      text = text_at (codes "text") j;
      extra = as_object (get (codes "data") j);
      renamed = renamed;
    }

-- With the order in which the map is visited for the n-th message.
unfoldable pub decode_replies : (ℕ → List Entry) → ℕ → List Message → List Reply
unfolding decode_reply
decode_replies order n [] = []
decode_replies order n (m ∷ messages) =
    decode_reply (order n) m ∷ decode_replies order (suc n) messages

module _ (x : External) (world : World) (order : ℕ → List Entry) where
  unfoldable pub replies_thread :
      Option Keys → Thread → ℤ → ℤ → M (Answer × List Reply × List KeptOut × ℤ)
  unfolding decode_replies read_own
  replies_thread keys t after wait = do
    r ← read_own x world keys t after wait
    let (a, handed, kept, next) = r in pure (a, decode_replies order 0 handed, kept, next)

  unfoldable pub replies : Option Keys → Text → Text → ℤ → ℤ → M (Answer × List Reply × ℤ)
  unfolding decode_replies read
  replies keys w id after wait = do
    r ← read x world keys w id after wait
    let (a, messages, next) = r in pure (a, decode_replies order 0 messages, next)
