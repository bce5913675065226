-- ===== src/Client/Requests.antt =====
-- The calls of client.go around the reads and Send: Open, Close, GetReceipt and presence, and JSON
-- of codec.go.
pub mod Opening
pub mod Signed
pub mod Tests
use aamio_go.Prelude.{
  ℕ, ◌/◌, ℤ, pos, ltb_ℤ, Bool, true, false, List, [], ◌∷◌, ◌++◌, Option, none, some, Text, codes,
  is_empty, itoa, itoa_ℤ, ◌==◌, ltb, not, if◌then◌else◌,
}
use aamio_go.Errors.{Error, Result, ok, err, bad_json, needs_keys}
use aamio_go.Json.{Fields, end, field, put, Items, nil, cons, array, string, int, int64, object}
use aamio_go.External.{External}
use aamio_go.Address.{new_id, w}
use aamio_go.Keys.{
  Keys, sign, result_or_empty, presence_signing_input, presence_delete_signing_input,
}
use aamio_go.Receipt.{Receipt, Check, verify_receipt, ReceiptMessage}
use aamio_go.Client.Http.{Request, Answer, Service, aamio}
use aamio_go.Client.Allow.{normalize_allow}
use aamio_go.Client.Message.{Message}
use aamio_go.Client.Read.{Thread, KeptOut, cap_wait, read_request, read_answer, read_thread}
use aamio_go.Client.Session.{World, State, M, pure, ◌>>=◌, call, read_clock, second}

-- strings.TrimSuffix(s, "\n")
unfoldable pub trim_newline : Text → Text
trim_newline [] = []
trim_newline (c ∷ []) = if c == b'\n' then [] else c ∷ []
trim_newline (c ∷ d ∷ s) = c ∷ trim_newline (d ∷ s)

abbrev pub trimmed : Option Text → Result Text
trimmed none = err bad_json
trimmed (some s) = ok (trim_newline s)

-- JSON of codec.go, for a map
unfoldable pub json : External → Fields → Result Text
unfolding trim_newline
json x m = trimmed (x.encode_object m)

-- strings.Join(parts, ",")
unfoldable pub join : List Text → Text
join [] = []
join (s ∷ []) = s
join (s ∷ t ∷ parts) = s ++ b',' ∷ join (t ∷ parts)

abbrev pub texts : List Text → Items
texts [] = nil
texts (s ∷ parts) = cons (string s) (texts parts)

abbrev pub request : Service → Text → Text → Option Text → List (Text × Text) → Request
request to method path body headers = record {
  service = to;
  method = method;
  path = path;
  body = body;
  headers = headers;
}

abbrev pub json_header : Text × Text
json_header = (codes "Content-Type", codes "application/json")

abbrev pub read_header : Text → List (Text × Text)
read_header id = (codes "X-Read", id) ∷ []

abbrev pub result_then : {A B : Type 0} → Result A → (A → M (Result B)) → M (Result B)
result_then (ok a) f = f a
result_then (err e) f = pure (err e)

abbrev allow_header : List Text → List (Text × Text)
allow_header [] = []
allow_header (k ∷ allow) = (codes "X-Allow", join (k ∷ allow)) ∷ []

unfoldable pub open_request : Text → ℤ → List Text → Option Text → Request
unfolding join
open_request id ttl allow body =
    request aamio (codes "PUT") (b'/' ∷ result_or_empty (w id)) body
      ((codes "X-Read", id) ∷ (codes "X-TTL", itoa_ℤ ttl) ∷ json_header ∷ allow_header allow)

abbrev no_check : Check
no_check = record { root_adds_up = false; commitment_matches = false; local_hashes_match = none }

abbrev pub with_keys : {A : Type 0} → Error → Option Keys → (Keys → M (Result A)) → M (Result A)
with_keys e none f = pure (err e)
with_keys e (some k) f = f k

unfoldable pub publish_fields : Text → List Text → ℤ → Fields
publish_fields w tags ttl =
    put (codes "ttl") (int ttl)
      (put (codes "tags") (array (texts tags)) (put (codes "w") (string w) end))

unfoldable pub lookup_request : List Text → ℤ → Text × Fields
lookup_request prefixes wait =
    let asked = put (codes "prefixes") (array (texts prefixes)) end in
    if ltb_ℤ (pos 0) wait
    then (codes "/p/watch", put (codes "wait") (int (cap_wait wait)) asked)
    else (codes "/p/lookup", asked)

module _ (x : External) (world : World) where
  abbrev pub gate_body : Option Fields → Result (Option Text)
  gate_body none = ok none
  gate_body (some gate) = elim (json x (put (codes "gate") (object gate) end)) [
    | ok body ↦ ok (some body)
    | err e ↦ err e
  ]

  abbrev pub opened : Text → ℤ → List Text → Option Text → M (Result (Thread × Answer))
  opened id ttl allow body = do
    a ← call world (open_request id ttl allow body)
    pure (ok (record { id = id; w = result_or_empty (w id); allow = allow }, a))

  -- Open, with the draws of the read key.
  unfoldable pub open_thread :
      (ℕ → Option ℕ) → ℤ → List Text → Option Fields → M (Result (Thread × Answer))
  unfolding json open_request
  open_thread draw ttl allow gate =
      result_then (new_id draw)
        λ id. result_then (gate_body gate) λ body. opened id ttl (normalize_allow allow) body

  unfoldable pub close_thread : Text → Text → M Answer
  close_thread w id = call world (request aamio (codes "DELETE") (b'/' ∷ w) none (read_header id))

  module _ (sort : List ReceiptMessage → List ReceiptMessage) where
    abbrev checked : Option Receipt → Option Receipt × Check
    checked none = (none, no_check)
    checked (some r) = (some r, verify_receipt sort r none)

    unfoldable pub receipt_of : Answer → Option Receipt × Check
    receipt_of a = if a.status == 200 then checked (x.decode_receipt a.text) else (none, no_check)

    unfoldable pub get_receipt : Text → Text → M (Answer × Option Receipt × Check)
    unfolding receipt_of
    get_receipt w id = do
      a ←
          call world
            (request aamio (codes "GET") (b'/' ∷ w ++ codes "/receipt") none (read_header id))
      let (r, c) = receipt_of a in pure (a, r, c)

  -- Read and ReadThread with no limits: the call, and what is made of its answer.
  unfoldable pub read : Option Keys → Text → Text → ℤ → ℤ → M (Answer × List Message × ℤ)
  read keys w id after wait = do
    a ← call world (read_request w id after wait (pos 0) (pos 0))
    let (messages, next) = read_answer x keys w after a in pure (a, messages, next)

  unfoldable pub read_own :
      Option Keys → Thread → ℤ → ℤ → M (Answer × List Message × List KeptOut × ℤ)
  read_own keys t after wait = do
    a ← call world (read_request t.w t.id after wait (pos 0) (pos 0))
    let (handed, kept, next) = read_thread x keys t after a in pure (a, handed, kept, next)

  -- The headers of a request that is signed over an input.
  unfoldable pub signed_headers : Keys → Text → List (Text × Text)
  signed_headers k input =
      json_header ∷ (codes "X-Key", k.public) ∷ (codes "X-Sig", sign x k input) ∷ []

  unfoldable pub publish_request : Keys → Text → Request
  unfolding signed_headers
  publish_request k body =
      request aamio (codes "PUT") (codes "/p/" ++ k.public) (some body)
        (signed_headers k (presence_signing_input k.public body))

  unfoldable pub presence_publish : Option Keys → Text → List Text → ℤ → M (Result Answer)
  unfolding publish_request json
  presence_publish keys w tags ttl = with_keys needs_keys keys λ k.
      result_then (json x (publish_fields w tags ttl))
        λ body. do a ← call world (publish_request k body); pure (ok a)

  unfoldable pub presence_get : Text → M Answer
  presence_get key = call world (request aamio (codes "GET") (codes "/p/" ++ key) none [])

  unfoldable pub presence_lookup : List Text → ℤ → M (Result Answer)
  unfolding lookup_request json
  presence_lookup prefixes wait =
      let (route, asked) = lookup_request prefixes wait in
      result_then (json x asked) λ body. do
        a ← call world (request aamio (codes "POST") route (some body) (json_header ∷ []))
        pure (ok a)

  -- The time of the request in seconds; an error of JSON is passed over.
  abbrev pub stamped : ℕ → Text
  stamped now = result_or_empty (json x (put (codes "at") (int64 (pos (now / second))) end))

  unfoldable pub delete_request : Keys → Text → Request
  unfolding signed_headers
  delete_request k body =
      request aamio (codes "DELETE") (codes "/p/" ++ k.public) (some body)
        (signed_headers k (presence_delete_signing_input k.public body))

  unfoldable pub presence_delete : Option Keys → M (Result Answer)
  unfolding delete_request json read_clock
  presence_delete keys =
      with_keys needs_keys keys
        λ k. do now ← read_clock world; a ← call world (delete_request k (stamped now)); pure (ok a)
