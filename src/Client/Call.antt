-- ===== src/Client/Call.antt =====
-- New, NewBoard and Call of client.go and board.go around the transport: the host, the headers that
-- are sent, and the Answer made of what came back. A World answers with such Answers.
use aamio_go.Prelude.{
  ℕ, ◌≤◌, ◌≡◌, ◌↔◌, refl, Bool, true, false, ◌&&◌, List, [], ◌∷◌, ◌++◌, some, Text, codes, is_empty,
  insert, if◌then◌else◌, ◌==◌, arith, Bool-cases, inl, inr,
}
use aamio_go.Json.{end, field, string}
use aamio_go.External.{External}
use aamio_go.Client.Http.{Answer}
use aamio_go.Client.Answers.{is_unknown}

abbrev default_host : Text
default_host = codes "https://aamio.at"

abbrev default_board_host : Text
default_board_host = codes "https://board.aamio.at"

abbrev user_agent : Text
user_agent = codes "aamio-go/0.3.1"

-- strings.TrimRight(host, "/")
trim_slashes : Text → Text
trim_slashes [] = []
trim_slashes (c ∷ s) =
    let rest = trim_slashes s in if c == b'/' && is_empty rest then [] else c ∷ rest

-- The host of a client that New makes, and of a board that NewBoard makes.
new_host : Text → Text
unfolding trim_slashes
new_host host = trim_slashes (if is_empty host then default_host else host)

new_board_host : Text → Text
unfolding trim_slashes
new_board_host host = trim_slashes (if is_empty host then default_board_host else host)

-- req.Header.Set for each header that is not empty, over the two that every request has. net/http
-- puts the names into their canonical form, under which no two names of this client meet.
set_headers : List (Text × Text) → List (Text × Text) → List (Text × Text)
set_headers [] sent = sent
set_headers ((k, v) ∷ headers) sent =
    set_headers headers (if is_empty v then sent else insert k v sent)

sent_headers : List (Text × Text) → List (Text × Text)
unfolding set_headers
sent_headers headers =
    set_headers headers (
      insert (codes "User-Agent") user_agent
        (insert (codes "Accept") (codes "application/json") []))

-- What the transport gives: an error of NewRequest, one of Do, or a response with its status, its
-- body and its X-Seconds-Left.
data Response : Type 0 where
  no_request : Text → Response
  no_answer : Text → Response
  response : ℕ → Text → Text → Response

abbrev no_response : Text → Text → Text → Answer
no_response what fix text = record {
  status = 0;
  body =
      some (field (codes "error") (string (what ++ text)) (field (codes "fix") (string fix) end));
  text = text;
  seconds_left = [];
}

answer_of : External → Response → Answer
answer_of x (no_request e) =
    no_response (codes "no request: ") (codes "This is a client-side error; nothing was sent.") e
answer_of x (no_answer e) =
    no_response (codes "no answer: ")
      (codes
        "The request may have landed. Keep the bytes, mark the send unknown, and retry only when somebody has decided it is safe to.")
      e
answer_of x (response status text left) = record {
  status = status;
  body = x.decode_object text;
  text = text;
  seconds_left = left;
}

abbrev is_response : Response → Bool
is_response (response status text left) = true
is_response _ = false

abbrev status_of : Response → ℕ
status_of (response status text left) = status
status_of _ = 100

-- Where responses have a status of HTTP, an answer is unknown exactly when none came.
is_unknown-answer_of :
    (x : External) (r : Response)
    → 100 ≤ status_of r
    → (is_unknown (answer_of x r) ≡ true) ↔ (is_response r ≡ false)
unfolding is_unknown answer_of
is_unknown-answer_of x (no_request e) h = ground arith
is_unknown-answer_of x (no_answer e) h = ground arith
is_unknown-answer_of x (response status text left) h = ground arith

-- No slash is left at the end of a host, so that a path can follow.
no_slash : Text → Bool
no_slash [] = true
no_slash (c ∷ []) = if c == b'/' then false else true
no_slash (c ∷ d ∷ s) = no_slash (d ∷ s)

no_slash-cons :
    (c : ℕ) (s : Text)
    → no_slash s ≡ true
    → (c == b'/' && is_empty s) ≡ false
    → no_slash (c ∷ s) ≡ true
unfolding no_slash
no_slash-cons c [] h k = ground arith
no_slash-cons c (d ∷ s) h k = h

no_slash-trim_slashes : (s : Text) → no_slash (trim_slashes s) ≡ true
unfolding trim_slashes
no_slash-trim_slashes [] = unfold no_slash in refl
no_slash-trim_slashes (c ∷ s) = elim (Bool-cases (c == b'/' && is_empty (trim_slashes s))) [
  | inl e ↦ rw e (unfold no_slash in refl)
  | inr e ↦ rw e (no_slash-cons c (trim_slashes s) (no_slash-trim_slashes s) e)
]

no_slash-new_host :
    (host : Text) → (no_slash (new_host host) ≡ true) × (no_slash (new_board_host host) ≡ true)
unfolding new_host new_board_host
no_slash-new_host host = (
  no_slash-trim_slashes (if is_empty host then default_host else host),
  no_slash-trim_slashes (if is_empty host then default_board_host else host),
)
