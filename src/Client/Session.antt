-- ===== src/Client/Session.antt =====
-- The state of a Client (client.go): the gates it keeps and the time each said, with every HTTP
-- call in order. Gate, SecondsLeft, ForgetGate and PlanTo are actions on it. Here an action runs by
-- itself; in Tasks others run between its parts.
pub mod Cache
pub mod Invariant
pub mod Notes
pub mod Letter
pub mod Send
pub mod Tasks
pub mod Tests
use aamio_go.Prelude.{
  ℕ, suc, ◌+◌, ◌-◌, ◌*◌, ◌^◌, ℤ, pos, negsuc, pos_part, Bool, true, false, ◌&&◌, not, List, [], ◌∷◌,
  ◌++◌, Option, none, some, Text, codes, lookup, insert, erase, length, ◌==◌, if◌then◌else◌,
}
use aamio_go.Json.{Fields, end}
use aamio_go.Json.Number.{parse_int}
use aamio_go.Json.Keys.{is_some}
use aamio_go.External.{External}
use aamio_go.Client.Http.{aamio, Request, Answer}
use aamio_go.Gate.Plan.{Plan, plan_within}

-- What the client meets: the answer to the n-th call, the clock at its n-th reading and at an
-- attempt of the work begun at such a reading, in nanoseconds, and how long work takes here.
pub record World : Type 0 where
  pub respond : ℕ → Request → Answer
  pub now : ℕ → ℕ
  pub work_clock : ℕ → ℕ → ℕ
  pub expected_seconds : ℤ → ℕ

-- gateClock: the seconds that the gate said, and the clock then.
pub record GateClock : Type 0 where
  pub left : ℤ
  pub at : ℕ

-- The client with the board over it, whose descriptor is none before it was read. A kept gate is none where the thread is gone, and a map, perhaps an empty one, otherwise.
pub record State : Type 0 where
  pub gates : List (Text × Option Fields)
  pub gate_left : List (Text × GateClock)
  pub calls : List Request
  pub readings : ℕ
  pub descriptor : Option Fields

abbrev pub M : Type 0 → Type 0
M A = State → A × State

infixl 5 ◌>>=◌ ◌>>◌
abbrev pub ◌>>=◌ : {A B : Type 0} → M A → (A → M B) → M B
◌>>=◌ m f s = let (a, s') = m s in f a s'

abbrev pub ◌>>◌ : {A B : Type 0} → M A → M B → M B
m >> n = m >>= λ _. n

abbrev pub pure : {A : Type 0} → A → M A
pure a s = (a, s)

abbrev pub gate_request : Text → Request
gate_request w = record {
  service = aamio;
  method = codes "GET";
  path = b'/' ∷ w ++ codes "/gate";
  body = none;
  headers = [];
}

abbrev pub second : ℕ
second = 10 ^ 9

abbrev pub fields_or_empty : Option Fields → Fields
fields_or_empty none = end
fields_or_empty (some m) = m

-- The gate that an answer to a read of it gives.
unfoldable pub gate_of : External → Answer → Option Fields
gate_of x a = if a.status == 200 then some (fields_or_empty (x.decode_object a.text)) else none

module _ (world : World) where
  unfoldable pub call : Request → M Answer
  call r s = (world.respond (length s.calls) r, record s { calls = s.calls ++ r ∷ [] })

  -- time.Now()
  unfoldable pub read_clock : M ℕ
  read_clock s = (world.now s.readings, record s { readings = suc s.readings })

  unfoldable pub set_left : Text → ℤ → M (Unit {0})
  unfolding read_clock
  set_left w left = do
    at ← read_clock
    λ s. (tt, record s { gate_left = insert w (record { left = left; at = at }) s.gate_left })

  -- The time left, of what was said and the clock now; never below 0.
  abbrev pub remaining : GateClock → ℕ → ℕ
  remaining said now = pos_part said.left * second - (now - said.at)

  abbrev pub count_down : Option GateClock → M (Option ℕ)
  count_down none = pure none
  count_down (some said) = do now ← read_clock; pure (some (remaining said now))

  unfoldable pub seconds_left : Text → M (Option ℕ)
  unfolding read_clock
  seconds_left w s = count_down (lookup w s.gate_left) s

  abbrev pub or_unknown : Option ℕ → ℤ
  or_unknown none = negsuc 0
  or_unknown (some n) = pos n

  unfoldable pub left_or_unknown : Text → M ℤ
  unfolding seconds_left
  left_or_unknown w = do left ← seconds_left w; pure (or_unknown left)

unfoldable pub forget_gate : Text → M (Unit {0})
forget_gate w s = (tt, record s { gates = erase w s.gates; gate_left = erase w s.gate_left })

unfoldable pub keep_gate : Text → Option Fields → M (Unit {0})
keep_gate w gate s = (tt, record s { gates = insert w gate s.gates })

module _ (x : External) (world : World) where
  abbrev pub note_left : Text → Answer → ℤ × Bool → M (Unit {0})
  note_left w a (left, ok) = if ok && a.status == 200 then set_left world w left else pure tt

  unfoldable pub fetch_gate : Text → M (Option Fields)
  unfolding call gate_of keep_gate set_left
  fetch_gate w = do
    a ← call world (gate_request w)
    keep_gate w (gate_of x a)
    note_left w a (parse_int a.seconds_left)
    pure (gate_of x a)

  abbrev kept_or_fetch : Text → Bool → Option (Option Fields) → M (Option Fields)
  kept_or_fetch w fresh none = fetch_gate w
  kept_or_fetch w fresh (some gate) = if fresh then fetch_gate w else pure gate

  unfoldable pub gate : Text → Bool → M (Option Fields)
  unfolding fetch_gate
  gate w fresh s = kept_or_fetch w fresh (lookup w s.gates) s

  unfoldable pub plan_once : Text → M Plan
  unfolding gate left_or_unknown
  plan_once w = do
    g ← gate w false
    left ← left_or_unknown world w
    pure (plan_within world.expected_seconds (fields_or_empty g) left)

  unfoldable pub plan_to : Text → M Plan
  unfolding plan_once forget_gate
  plan_to w s =
      let cached = is_some (lookup w s.gates) in
      let (plan, s') = plan_once w s in
      let again = (do forget_gate w; plan_once w) in
      if is_some plan.stop && cached then again s' else (plan, s')
