-- ===== src/Client/Read.antt =====
-- ReadLimited and ReadThreadLimited of client.go: the request, and what is made of the answer.
-- Read and ReadThread are these with both limits 0.
pub mod Limits
pub mod Policy
mod Tests
use aamio_go.Prelude.{
  ℕ, zero, suc, ◌*◌, ℤ, pos, negsuc, ltb_ℤ, Bool, true, false, ◌&&◌, ◌||◌, not, List, [], ◌∷◌, ◌++◌,
  Option, none, some, Text, codes, contains, is_empty, text_eq, itoa_ℤ, ◌==◌, if◌then◌else◌,
}
use aamio_go.Json.{Json, Items, nil, cons, Fields, end, object, get, as_list, integer}
use aamio_go.Client.Http.{aamio, Answer, Request}
use aamio_go.External.{External}
use aamio_go.Keys.{Keys}
use aamio_go.Client.Message.{Message, Reason, decode_at}
use aamio_go.Client.Allow.{star, normalize_allow}

pub record Thread : Type 0 where
  pub id : Text
  pub w : Text
  pub allow : List Text

pub data Why : Type 0 where
  not_named not_signed : Why

pub record KeptOut : Type 0 where
  pub seq : ℤ
  pub why : Why
  pub unverified_because : Option Reason

abbrev is_positive : ℤ → Bool
is_positive n = ltb_ℤ (pos 0) n

-- A wait of more than 25 seconds is one of 25.
abbrev pub cap_wait : ℤ → ℤ
cap_wait wait = if ltb_ℤ (pos 25) wait then pos 25 else wait

abbrev header_if_positive : Text → ℤ → List (Text × Text)
header_if_positive name n = if is_positive n then (name, itoa_ℤ n) ∷ [] else []

unfoldable pub read_request : Text → Text → ℤ → ℤ → ℤ → ℤ → Request
unfolding itoa_ℤ
read_request w id after wait limit max_bytes = record {
  service = aamio;
  method = codes "GET";
  body = none;
  path =
      b'/' ∷ w
      ++ ((if is_positive after || is_positive wait then codes "/after/" ++ itoa_ℤ after else [])
          ++ (if is_positive wait then codes "/wait/" ++ itoa_ℤ (cap_wait wait) else []));
  headers =
      (codes "X-Read", id)
      ∷ (header_if_positive (codes "X-Limit") limit
          ++ header_if_positive (codes "X-Max-Bytes") max_bytes);
}

-- `m, _ := item.(map[string]any)`
abbrev pub fields_of : Json → Fields
fields_of (object m) = m
fields_of _ = end

module _ (x : External) (keys : Option Keys) (w : Text) where
  unfoldable pub decode_all : Items → List Message
  decode_all nil = []
  decode_all (cons item items) = decode_at x keys w (fields_of item) ∷ decode_all items

  abbrev pub messages_of : Option Items → List Message
  messages_of none = []
  messages_of (some items) = decode_all items

  abbrev pub next_of : ℤ → ℤ × Bool → ℤ
  next_of after (n, ok) = if ok then n else after

  -- The messages and the cursor, of the answer to a read from `after`: its status and its body.
  unfoldable pub read_body : ℤ → ℕ → Option Fields → List Message × ℤ
  read_body after status none = ([], after)
  read_body after status (some body) =
      if status == 200
      then (
        messages_of (as_list (get (codes "messages") body)),
        next_of after (integer (get (codes "next") body)),
      )
      else ([], after)

  unfoldable pub read_answer : ℤ → Answer → List Message × ℤ
  unfolding read_body
  read_answer after a = read_body after a.status a.body

unfoldable pub is_allowed : List Text → Message → Bool
is_allowed allow m = if contains star allow then m.verified else m.verified && contains m.from allow

abbrev pub kept_out : List Text → Message → KeptOut
kept_out allow m = record {
  seq = m.seq;
  why = if contains star allow then not_signed else not_named;
  unverified_because = m.unverified_because;
}

-- The loop over the messages, with what is handed over and what is kept out so far.
unfoldable pub enforce :
    List Text → List Message → List Message → List KeptOut → List Message × List KeptOut
enforce allow [] handed kept = (handed, kept)
enforce allow (m ∷ ms) handed kept =
    let allowed = is_allowed allow m in
    enforce allow ms (if allowed then handed ++ m ∷ [] else handed)
      (if allowed then kept else kept ++ kept_out allow m ∷ [])

-- A thread with no list hands everything over.
abbrev by_policy : List Text → List Message → List Message × List KeptOut
by_policy [] messages = (messages, [])
by_policy (k ∷ ks) messages = enforce (k ∷ ks) messages [] []

unfoldable pub read_thread :
    External → Option Keys → Thread → ℤ → Answer → List Message × List KeptOut × ℤ
unfolding enforce
read_thread x keys t after a =
    let (messages, next) = read_answer x keys t.w after a in
    let (handed, kept) = by_policy (normalize_allow t.allow) messages in (handed, kept, next)
