-- ===== src/Delivery/Polls/Tests.antt =====
-- The documented loop at a service that is down at first.
use aamio_go.Prelude.{
  ℕ, zero, suc, ltb_ℤ, pos, true, List, [], ◌∷◌, ◌++◌, none, some, codes, ◌≡◌, ◌≤◌, refl, arith,
  length, text_eq, if◌then◌else◌,
}
use aamio_go.Json.{end, field, number, array, get, integer}
use aamio_go.Json.Number.{parse_int}
use aamio_go.Toy.{toy}
use aamio_go.Client.Http.{Request, Answer}
use aamio_go.Client.Message.Tests.{address, signed}
use aamio_go.Client.Read.{read_request}
use aamio_go.Client.Session.{World}
use aamio_go.Client.Session.Tests.{start}
use aamio_go.Delivery.Polls.{Held, items_of, Gives, decoded, polls, polls-HandedOver}

-- A service that holds one message, is down at first, and is asked from the start only.
abbrev held : List Held
held = record { seq = 1; raw = signed } ∷ []

abbrev served : Answer
served = record {
  status = 200;
  body = some (
      field (codes "next") (number (codes "1"))
        (field (codes "messages") (array (items_of held)) end));
  text = [];
  seconds_left = [];
}

abbrev down : Answer
down = record { status = 503; body = none; text = []; seconds_left = [] }

abbrev serve : ℕ → Request → Answer
serve zero r = down
serve (suc k) r = if text_eq r.path (b'/' ∷ address) then served else down

abbrev serving : World
serving = record {
  respond = serve;
  now = λ n. n;
  work_clock = λ n k. k;
  expected_seconds = λ bits. 0;
}

abbrev asking : ℕ → Request
asking c = read_request address (codes "id") (pos c) (pos 0) (pos 0) (pos 0)

served-Gives : Gives held 0 served
unfolding get text_eq integer parse_int
served-Gives = record {
  given = held;
  left = [];
  split = refl;
  some_while = λ h. refl;
  body =
      field (codes "next") (number (codes "1"))
        (field (codes "messages") (array (items_of held)) end);
  has_body = refl;
  has_messages = refl;
  has_next = refl;
}

positive : (c : ℕ) → ltb_ℤ (pos 0) (pos (suc c)) ≡ true
positive c = ground arith

serve-Gives : (k c : ℕ) → (serve k (asking c)).status ≡ 200 → Gives held c (serve k (asking c))
unfolding read_request text_eq
serve-Gives zero c h = absurd (omega arith)
serve-Gives (suc k) zero h = served-Gives
serve-Gives (suc k) (suc c) h =
    let refused : (serve (suc k) (asking (suc c))).status ≡ 503 = rw (positive c) refl in
    absurd (omega arith)

polls-HandedOver_example :
    let (messages, next, answered) =
      (polls toy none address serving (codes "id") (pos 0) 2 (pos 0) start).0 in
    (given : List Held) × (rest : List Held) × (held ≡ given ++ rest)
    × (messages ≡ decoded toy none address given)
    × (length held ≤ answered → rest ≡ [])
polls-HandedOver_example =
    polls-HandedOver toy none address serving (codes "id") (pos 0) held serve-Gives (tt, tt)
      (omega arith, tt) 2 start
