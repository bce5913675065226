-- ===== src/Delivery/Tests.antt =====
-- A letter in the clear and a sealed one, from one client to another, over the stand-in whose boxes
-- are their text.
use aamio_go.Prelude.{
  pos, true, false, [], none, some, Text, codes, ◌≡◌, inl, inr, refl, arith, text_eq,
}
use aamio_go.Errors.{ok}
use aamio_go.External.{External}
use aamio_go.Address.{is_w}
use aamio_go.Codec.{sha256_hex, b64url, is_key, is_url_char, unb64url}
use aamio_go.Codec.Base64
use aamio_go.Codec.Base64.{encode_url, has_std_char}
use aamio_go.Codec.Sha256.{sum256}
use aamio_go.Codec.Hex
use aamio_go.Toy.{toy_public}
use aamio_go.Codec.Base32.{is_base32_char}
use aamio_go.Json.{Fields, end, field, string, bool, number, object, array, nil, cons, get, integer}
use aamio_go.Json.Number.{parse_int}
use aamio_go.Keys.{seal, curve_public, hash_prefix_of}
use aamio_go.Keys.Tests.{
  boxed, boxed-SignsWell, boxed-SealsWell, seed, other_seed, made_first, made_other, box_nonce,
}
use aamio_go.Client.Http.{Request, Answer}
use aamio_go.Client.Allow.{normalize_allow}
use aamio_go.Client.Message.{Message, sealed}
use aamio_go.Client.Message.Tests.{address}
use aamio_go.Client.Read.{Thread, read_thread}
use aamio_go.Client.Session.Letter.{SendOptions, Letter, letter_of, post_request}
use aamio_go.Delivery.{Returns, Answers, header}
use aamio_go.Delivery.Arrives.{HandedOver, signed_letter-HandedOver, sealed_letter-HandedOver}

-- What the service makes of a post.
abbrev pub taken : Request → Text → Fields
taken r body =
    let stamps =
      field (codes "seq") (number (codes "7")) (field (codes "at") (number (codes "9")) end) in
    let flag = field (codes "sealed") (bool true) stamps in
    let sig = field (codes "sig") (string (header (codes "X-Sig") r)) flag in
    let from = field (codes "from") (string (header (codes "X-Key") r)) sig in
    let hash = field (codes "sha256") (string (sha256_hex body)) from in
    field (codes "body") (string body) hash

abbrev pub answer : Fields → Answer
answer raw = record {
  status = 200;
  body = some (field (codes "messages") (array (cons (object end) (cons (object raw) nil))) end);
  text = [];
  seconds_left = [];
}

pub answer-Answers : (raw : Fields) → Answers (answer raw) raw
unfolding get text_eq
answer-Answers raw = record {
  body = field (codes "messages") (array (cons (object end) (cons (object raw) nil))) end;
  items = cons (object end) (cons (object raw) nil);
  ok_status = refl;
  has_body = refl;
  has_messages = refl;
  among = inr (inl refl);
}

-- A thread with no list, at the address of the tests.
abbrev pub thread : Thread
thread = record { id = []; w = address; allow = [] }

abbrev in_clear : SendOptions
in_clear = record { unsigned = false; seal_to = []; json = false }

wrote : (l : Letter) × (letter_of boxed (some made_first.0) [] address (codes "hi") in_clear ≡ ok l)
unfolding letter_of is_w is_base32_char
wrote = (_, refl)

abbrev post : Request
post = post_request boxed wrote.0 none

pub post-Returns :
    (x : External) (l : Letter)
    → Returns (post_request x l none) (taken (post_request x l none) l.body)
unfolding post_request get text_eq integer parse_int
post-Returns x l = record {
  body = l.body;
  posted = refl;
  returned = refl;
  hashed = refl;
  key = refl;
  signature = refl;
  numbered = refl;
  dated = refl;
}

abbrev sealing : SendOptions
sealing = record { unsigned = false; seal_to = made_other.0.public; json = false }

wrote_sealed :
    (l : Letter) × (letter_of boxed (some made_first.0) box_nonce address (codes "hi") sealing
      ≡ ok l)
unfolding letter_of is_w is_base32_char made_first made_other seal curve_public b64url encode_url
    Base64.encode toy_public sum256 is_key is_url_char unb64url has_std_char Base64.decode
    hash_prefix_of sha256_hex Hex.encode
wrote_sealed = (_, refl)

signed_letter-HandedOver_example :
    let raw = taken post wrote.0.body in
    (m : Message) × HandedOver
      (read_thread boxed none thread (pos 0) (answer raw)).0
      made_first.0.public
      m
    × (m.body ≡ codes "hi")
unfolding normalize_allow
signed_letter-HandedOver_example =
    let raw = taken post wrote.0.body in
    signed_letter-HandedOver boxed seed made_first.0 boxed-SignsWell made_first.1 none [] address
      (codes "hi") in_clear wrote.0 wrote.1 refl none raw (post-Returns boxed wrote.0) thread refl
      (pos 0) (answer raw) (answer-Answers raw) (inl refl) refl

sealed_letter-HandedOver_example :
    let raw = taken (post_request boxed wrote_sealed.0 none) wrote_sealed.0.body in
    (m : Message) × HandedOver
      (read_thread boxed (some made_other.0) thread (pos 0) (answer raw)).0
      made_first.0.public
      m
    × (m.format ≡ sealed)
    × (m.opened ≡ codes "hi")
    × (m.json ≡ boxed.decode_object (codes "hi"))
unfolding normalize_allow get text_eq
sealed_letter-HandedOver_example =
    let l = wrote_sealed.0 in
    let raw = taken (post_request boxed l none) l.body in
    sealed_letter-HandedOver boxed seed other_seed made_first.0 made_other.0 boxed-SignsWell
      boxed-SealsWell made_first.1 made_other.1 box_nonce address (codes "hi") sealing l
      wrote_sealed.1 refl refl (omega arith) (omega arith) refl none raw (post-Returns boxed l) refl
      thread refl (pos 0) (answer raw) (answer-Answers raw) (inl refl)
