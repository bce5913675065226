-- ===== src/Gate/Plan.antt =====
-- PlanFor and PlanWithin of gate.go: what to do about an inbox's gate before writing. The texts of
-- Stop and Notes are constructors that hold what is formatted into them. A time is in nanoseconds;
-- a negative time left is one that is not known.
pub mod Stops
pub mod Work
mod Tests
use aamio_go.Prelude.{
  ℕ, ℤ, pos, negsuc, ltb_ℤ, Bool, true, false, not, ◌&&◌, ◌||◌, List, [], ◌∷◌, ◌++◌, Option, none,
  some, Text, codes, text_eq, if◌then◌else◌,
}
use aamio_go.Json.{Json, Fields, end, field, number, float, int, get, as_object}
use aamio_go.Json.Number.{parse_int, int64_of}
use aamio_go.Json.Keys.{sorted_keys}

abbrev pub require_max_bits : ℤ
require_max_bits = pos 32

abbrev pub advise_max_bits : ℤ
advise_max_bits = pos 18

abbrev pub estimate_from_bits : ℤ
estimate_from_bits = pos 17

pub data Stop : Type 0 where
  unknown_condition : Text → Stop
  too_many_bits : ℤ → Stop
  no_time : ℤ → ℕ → ℤ → Stop

pub data Note : Type 0 where
  unknown_advice : Text → Note
  advice_too_high : ℤ → Note

pub record Plan : Type 0 where
  pub bits : ℤ
  pub stop : Option Stop
  pub notes : List Note
  pub expected : ℕ

abbrev pub no_plan : Plan
no_plan = record { bits = negsuc 0; stop = none; notes = []; expected = 0 }

abbrev bits_value : Option Json → ℤ
bits_value (some (number s)) = (parse_int s).0
bits_value (some (float f)) = int64_of f
bits_value (some (int n)) = n
bits_value _ = pos 0

unfoldable pub bits_of : Option Json → ℤ
bits_of v = elim (as_object v) [ none ↦ pos 0 | some m ↦ bits_value (get (codes "bits") m) ]

unfoldable pub is_pow : Text → Bool
is_pow c = text_eq c (codes "pow")

unfoldable pub is_known : Text → Bool
unfolding is_pow
is_known c = is_pow c || text_eq c (codes "per_key") || text_eq c (codes "write_until")

-- A loop goes on with a plan, or the whole function returns one.
pub data Flow : Type 0 where
  next : Plan → Flow
  done : Plan → Flow

-- `if bits > plan.Bits { plan.Bits = bits }`
abbrev pub raise : ℤ → ℤ → ℤ
raise old bits = if ltb_ℤ old bits then bits else old

unfoldable pub advise_one : Fields → Text → Plan → Plan
advise_one advise condition plan =
    let bits = bits_of (get condition advise) in
    if not (is_pow condition)
    then record plan { notes = plan.notes ++ unknown_advice condition ∷ [] }
    else if ltb_ℤ advise_max_bits bits
    then record plan { notes = plan.notes ++ advice_too_high bits ∷ [] }
    else record plan { bits = raise plan.bits bits }

unfoldable pub advise_loop : Fields → List Text → Plan → Plan
unfolding advise_one
advise_loop advise [] plan = plan
advise_loop advise (condition ∷ names) plan =
    advise_loop advise names (advise_one advise condition plan)

unfoldable pub advised : Option Fields → Plan → Plan
unfolding advise_loop
advised none plan = plan
advised (some advise) plan = advise_loop advise (sorted_keys advise) plan

-- ExpectedSeconds, which divides 2^bits by the measured rate of this machine.
module _ (expected_seconds : ℤ → ℕ) where
  unfoldable pub estimate : ℤ → ℕ
  estimate bits = if ltb_ℤ bits estimate_from_bits then 0 else expected_seconds bits

  unfoldable pub too_long : ℤ → ℤ → Bool
  unfolding estimate
  too_long left bits = not (ltb_ℤ left (pos 0)) && ltb_ℤ left (pos (estimate bits))

  unfoldable pub require_pow : ℤ → ℤ → Plan → Flow
  unfolding too_long estimate
  require_pow left bits plan =
      if ltb_ℤ require_max_bits bits
      then done (record plan { stop = some (too_many_bits bits) })
      else if too_long left bits
      then done (record plan { stop = some (no_time bits (estimate bits) left) })
      else next (record plan { expected = estimate bits; bits = raise plan.bits bits })

  unfoldable pub require_one : ℤ → Fields → Text → Plan → Flow
  require_one left require condition plan =
      if not (is_known condition)
      then done (record plan { stop = some (unknown_condition condition) })
      else if is_pow condition
      then require_pow left (bits_of (get condition require)) plan
      else next plan

  unfoldable pub require_loop : ℤ → Fields → List Text → Plan → Flow
  unfolding require_one
  require_loop left require [] plan = next plan
  require_loop left require (condition ∷ names) plan =
      elim (require_one left require condition plan) [
        | done p ↦ done p
        | next p ↦ require_loop left require names p
      ]

  unfoldable pub required : ℤ → Option Fields → Flow
  unfolding require_loop
  required left none = next no_plan
  required left (some require) = require_loop left require (sorted_keys require) no_plan

  unfoldable pub plan_within : Fields → ℤ → Plan
  unfolding required advised
  plan_within end left = no_plan
  plan_within (field k v m) left =
      let gate = field k v m in
      elim (required left (as_object (get (codes "require") gate))) [
        | done p ↦ p
        | next p ↦ advised (as_object (get (codes "advise") gate)) p
      ]

  unfoldable pub plan_for : Fields → Plan
  unfolding plan_within
  plan_for gate = plan_within gate (negsuc 0)
