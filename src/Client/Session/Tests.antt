-- ===== src/Client/Session/Tests.antt =====
-- The theorems of Session where a gate asks for no work, a 428 for one bit, and a 410 ends it.
use aamio_go.Prelude.{
  ℕ, ℤ, zero, suc, ◌*◌, pos, true, false, [], ◌∷◌, none, some, codes, ◌≡◌, refl, lookup, insert,
  text_eq, itoa,
}
use aamio_go.Errors.{ok}
use aamio_go.Json.{Fields, end, field, number, object}
use aamio_go.Json.{get}
use aamio_go.Json.Number.{parse_int}
use aamio_go.Json.Keys.{is_some, sorted_keys}
use aamio_go.Address.{is_w}
use aamio_go.Codec.Base32.{is_base32_char}
use aamio_go.Gate.Plan.{plan_within, is_known, require_pow, bits_of}
use aamio_go.Gate.Work.{solve_until, reaches, zero_bits, pow_prefix, top_zeros}
use aamio_go.Codec.{sha256_hex}
use aamio_go.Codec.Hex
use aamio_go.Codec.Sha256.{sum256}
use aamio_go.Toy.{toy}
use aamio_go.Client.Http.{Request, Answer}
use aamio_go.Client.Session.{World, State, gate_request, plan_to, second}
use aamio_go.Client.Session.Invariant.{IsSound}
use aamio_go.Client.Session.Cache.{PlanOf, plan_to-PlanOf}
use aamio_go.Client.Session.Letter.{Letter, letter_of}
use aamio_go.External.{External}
use aamio_go.Client.Session.Send.{sent, send_letter, attempt, posted, endless, gate_in}
use aamio_go.Client.Session.Send.Posts.{Ends, planned, send_letter-Ends}
use aamio_go.Client.Session.Send.Gone.{send_letter-gone}
use aamio_go.Client.Session.Send.Cases.{Asked}
use aamio_go.Client.Session.Send.Worked.{Short, send_letter-endless}
use aamio_go.Client.Message.Tests.{address}

abbrev pub one_bit : Fields
one_bit =
    let bits = field (codes "bits") (number (codes "1")) end in
    field (codes "require") (object (field (codes "pow") (object bits) end)) end

abbrev pub empty_answer : ℕ → Answer
empty_answer status = record { status = status; body = none; text = []; seconds_left = codes "60" }

abbrev pub asks_work : Answer
asks_work = record {
  status = 428;
  body = some (
      field (codes "gate") (object one_bit)
        (field (codes "seconds_left") (number (codes "60")) end));
  text = [];
  seconds_left = [];
}

abbrev pub answers : ℕ → Request → Answer
answers zero r = empty_answer 200
answers (suc zero) r = asks_work
answers (suc (suc n)) r = empty_answer 410

abbrev pub world : World
world = record {
  respond = answers;
  now = λ n. n * second;
  work_clock = λ n k. k;
  expected_seconds = λ bits. 0;
}

abbrev pub start : State
start = record { gates = []; gate_left = []; calls = []; readings = 0; descriptor = none }

pub start-IsSound : IsSound toy world start
unfolding lookup
start-IsSound = record { gates_came = tt; times_have_gates = λ w. refl }

abbrev letter : Letter
letter = record {
  w = address;
  body = codes "hi";
  content_type = codes "text/plain; charset=utf-8";
  signer = none;
}

-- The gate in every answer is one of a bit.
abbrev strict : External
strict = record toy { decode_object = λ s. some one_bit }

-- An inbox that is not there.
abbrev gone_world : World
gone_world = record world { respond = λ n r. empty_answer 410 }

send_letter-Ends_example :
    Ends 9 toy world letter
      (planned 9 toy world letter start)
      (send_letter 9 toy world letter start).1.calls
      (send_letter 9 toy world letter start).0
send_letter-Ends_example = send_letter-Ends 9 toy world letter start

is_sent :
    (send_letter 9 toy gone_world letter start).0 ≡ ok (sent (empty_answer 410) (codes "hi") [] [])
unfolding send_letter plan_within lookup gate_in
is_sent = refl

send_letter-gone_example :
    let s' = (send_letter 9 toy gone_world letter start).1 in
    (lookup address s'.gates ≡ none) × (lookup address s'.gate_left ≡ none)
send_letter-gone_example =
    send_letter-gone 9 toy gone_world letter start (empty_answer 410) (codes "hi") [] [] is_sent
      refl

hangs : (send_letter 0 strict world letter start).0 ≡ ok endless
unfolding send_letter plan_within lookup get text_eq sorted_keys is_known require_pow bits_of
    parse_int insert solve_until
hangs = refl

send_letter-endless_example :
    (bits : ℤ) × Asked 0 strict world letter start bits × Short 0 strict world letter bits
send_letter-endless_example = send_letter-endless 0 strict world letter start hangs

is_letter :
    letter_of toy none [] address
      (codes "hi")
      (record { unsigned = false; seal_to = []; json = false })
    ≡ ok letter
unfolding letter_of is_w is_base32_char
is_letter = refl

-- A gate that asks for what the client does not know.
abbrev odd : External
odd =
    let require = field (codes "dance") (object end) end in
    record toy { decode_object = λ s. some (field (codes "require") (object require) end) }

is_refused : is_some (plan_to odd world address start).0.stop ≡ true
unfolding plan_to plan_within lookup get text_eq sorted_keys is_known
is_refused = refl

plan_to-PlanOf_example :
    ((plan_to odd world address start).1.calls ≡ gate_request address ∷ [])
    × PlanOf odd world address
        (world.respond 0 (gate_request address))
        0
        (plan_to odd world address start).0
plan_to-PlanOf_example =
    plan_to-PlanOf odd world address start (start-IsSound.times_have_gates address) is_refused

is_posted : (attempt 1 toy world letter (pos 1) start).0 ≡ posted (empty_answer 200) (codes "0")
unfolding attempt solve_until reaches zero_bits sum256 pow_prefix sha256_hex Hex.encode itoa
    top_zeros lookup
is_posted = refl
