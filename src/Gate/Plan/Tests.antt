-- ===== src/Gate/Plan/Tests.antt =====
-- The theorems of Plan at a concrete gate, and what its plan is.
use aamio_go.Prelude.{ℕ, ℤ, pos, negsuc, ◌≡◌, ◌↔◌, refl, none, some, codes}
use aamio_go.Json.{Fields, end, field, number, object, get, as_object}
use aamio_go.Json.Number.{parse_int}
use aamio_go.Json.Keys.{sorted_keys}
use aamio_go.Prelude.{text_eq}
use aamio_go.Gate.Plan.{plan_within, require_pow, bits_of, is_known, no_time, estimate}
use aamio_go.Gate.Plan.Stops.{Acceptable, plan_within-stop_iff}
use aamio_go.Gate.Plan.Work.{Asks, plan_within-bits}

-- {"require":{"pow":{"bits":20}}}
abbrev gate : Fields
gate =
    field (codes "require")
      (object (field (codes "pow") (object (field (codes "bits") (number (codes "20")) end)) end))
      end

-- A second for each bit.
abbrev slow : ℤ → ℕ
slow (pos n) = n
slow (negsuc n) = 0

plan_in_time : (plan_within slow gate (pos 60)).bits ≡ pos 20
unfolding plan_within require_pow bits_of is_known text_eq get sorted_keys parse_int estimate
plan_in_time = refl

plan_too_late : (plan_within slow gate (pos 5)).stop ≡ some (no_time (pos 20) 20 (pos 5))
unfolding plan_within require_pow bits_of is_known text_eq get sorted_keys parse_int estimate
plan_too_late = refl

plan_goes_on : (plan_within slow gate (pos 60)).stop ≡ none
unfolding plan_within require_pow bits_of is_known text_eq get sorted_keys parse_int estimate
plan_goes_on = refl

plan_within-stop_iff_example :
    ((plan_within slow gate (pos 60)).stop ≡ none)
    ↔ Acceptable slow (pos 60) (as_object (get (codes "require") gate))
plan_within-stop_iff_example = plan_within-stop_iff slow (pos 60) gate

plan_within-bits_example : Asks gate (plan_within slow gate (pos 60))
plan_within-bits_example = plan_within-bits slow gate (pos 60) plan_goes_on
