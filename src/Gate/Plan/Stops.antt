-- ===== src/Gate/Plan/Stops.antt =====
-- When a plan stops a send.
use aamio_go.Prelude.{
  ℕ, ℤ, pos, ltb_ℤ, ◌≤ℤ◌, ◌<ℤ◌, ◌≡◌, ◌↔◌, ◌⊎◌, inl, inr, refl, Bool, true, false, not, ◌&&◌, ◌||◌,
  List, [], ◌∷◌, Option, none, some, Text, codes, text_eq_iff, arith, All, all, All-of_all,
  all_of_All, All-weaken, Bool-cases,
}
use aamio_go.Json.{Fields, end, field, get, as_object}
use aamio_go.Json.Keys.{is_some, keys, sorted_keys, All-sort}
use aamio_go.Gate.Plan.{
  Plan, no_plan, Flow, next, done, bits_of, is_pow, is_known, estimate, too_long, require_pow,
  require_one, require_loop, advise_one, advise_loop, required, advised, plan_within,
  require_max_bits,
}

-- The conditions that this client knows.
abbrev pub Known : Text → Type 0
Known c = (c ≡ codes "pow") ⊎ (c ≡ codes "per_key") ⊎ (c ≡ codes "write_until")

is_known_iff : (c : Text) → (is_known c ≡ true) ↔ Known c
unfolding is_known is_pow
is_known_iff c = (
  λ h. known h,
  λ h. ground (
    arith,
    text_eq_iff c (codes "pow"),
    text_eq_iff c (codes "per_key"),
    text_eq_iff c (codes "write_until"),
  ),
)
  where
    known : is_known c ≡ true → Known c
    known h = ground (
      arith,
      text_eq_iff c (codes "pow"),
      text_eq_iff c (codes "per_key"),
      text_eq_iff c (codes "write_until"),
    )

is_pow_iff : (c : Text) → (is_pow c ≡ true) ↔ (c ≡ codes "pow")
unfolding is_pow
is_pow_iff c = text_eq_iff c (codes "pow")

stop-advise_loop :
    (advise : Fields) (names : List Text) (plan : Plan)
    → (advise_loop advise names plan).stop ≡ plan.stop
unfolding advise_loop advise_one
stop-advise_loop advise [] plan = refl
stop-advise_loop advise (c ∷ names) plan =
    ground (arith, stop-advise_loop advise names (advise_one advise c plan))

stop-advised : (advise : Option Fields) (plan : Plan) → (advised advise plan).stop ≡ plan.stop
unfolding advised
stop-advised none plan = refl
stop-advised (some advise) plan = stop-advise_loop advise (sorted_keys advise) plan

module _ (expected_seconds : ℤ → ℕ) (left : ℤ) where
  -- Work of this many bits is within what aamio lets an inbox ask for, and is not known to take longer
  -- than the time left: that is not known, the bits are below 17, for which no time is estimated, or
  -- their expected time is no longer.
  abbrev pub Doable : ℤ → Type 0
  Doable bits =
      (bits ≤ℤ pos 32)
      × ((left <ℤ pos 0) ⊎ (bits <ℤ pos 17) ⊎ (pos (expected_seconds bits) ≤ℤ left))

  doable : ℤ → Bool
  doable bits = not (ltb_ℤ require_max_bits bits) && not (too_long expected_seconds left bits)

  doable_iff : (bits : ℤ) → (doable bits ≡ true) ↔ Doable bits
  unfolding doable too_long estimate
  doable_iff bits = ground arith

  -- A required condition that this client can meet.
  abbrev pub Meets : Fields → Text → Type 0
  Meets require c = Known c × (c ≡ codes "pow" → Doable (bits_of (get c require)))

  abbrev pub Acceptable : Option Fields → Type 0
  Acceptable none = Unit
  Acceptable (some require) = All (Meets require) (keys require)

  meets : Fields → Text → Bool
  meets require c = is_known c && (not (is_pow c) || doable (bits_of (get c require)))

  meets_iff : (require : Fields) (c : Text) → (meets require c ≡ true) ↔ Meets require c
  unfolding meets
  meets_iff require c =
      let bits = bits_of (get c require) in
      (
        λ h. (
          (is_known_iff c).0 (ground arith),
          λ e. (doable_iff bits).0 (ground (arith, (is_pow_iff c).1 e)),
        ),
        λ h. elim (Bool-cases (is_pow c)) [
          | inl e ↦
              let d : doable bits ≡ true = (doable_iff bits).1 (h.1 ((is_pow_iff c).0 e)) in
              ground (arith, (is_known_iff c).1 h.0)
          | inr e ↦ ground (arith, (is_known_iff c).1 h.0)
        ],
      )

  -- A flow that goes on has met the test and stopped nothing; one that returns has failed it.
  abbrev pub FlowIs : Bool → Flow → Type 0
  FlowIs b (next p) = (b ≡ true) × (p.stop ≡ none)
  FlowIs b (done p) = (b ≡ false) × (is_some p.stop ≡ true)

  require_one-FlowIs :
      (require : Fields) (c : Text) (plan : Plan)
      → plan.stop ≡ none
      → FlowIs (meets require c) (require_one expected_seconds left require c plan)
  unfolding require_one require_pow meets doable
  require_one-FlowIs require c plan h = ground arith

  require_loop-FlowIs :
      (require : Fields) (names : List Text) (plan : Plan)
      → plan.stop ≡ none
      → FlowIs (all (meets require) names) (require_loop expected_seconds left require names plan)
  unfolding require_loop
  require_loop-FlowIs require [] plan h = (refl, h)
  require_loop-FlowIs require (c ∷ names) plan h =
      go (require_one expected_seconds left require c plan) (require_one-FlowIs require c plan h)
        (require_loop-FlowIs require names)
    where
      go :
          (f : Flow)
          → FlowIs (meets require c) f
          → ((p : Plan)
              → p.stop ≡ none
              → FlowIs
                  (all (meets require) names)
                  (require_loop expected_seconds left require names p))
          → FlowIs (meets require c && all (meets require) names) (elim f [
            | done p ↦ done p
            | next p ↦ require_loop expected_seconds left require names p
          ])
      go (done p) (e, s) rec = rw e (refl, s)
      go (next p) (e, s) rec = rw e (rec p s)

  pub acceptable : Option Fields → Bool
  acceptable none = true
  acceptable (some require) = all (meets require) (sorted_keys require)

  acceptable_iff : (r : Option Fields) → (acceptable r ≡ true) ↔ Acceptable r
  unfolding acceptable sorted_keys
  acceptable_iff none = (λ _. tt, λ _. refl)
  acceptable_iff (some require) =
      let sorted = All-sort (Meets require) (keys require) in
      (
        λ h.
            sorted.0 (All-weaken (λ c. (meets_iff require c).0) _ (All-of_all (meets require) _ h)),
        λ h.
            all_of_All (meets require) _ (All-weaken (λ c. (meets_iff require c).1) _ (sorted.1 h)),
      )

  pub required-FlowIs :
      (r : Option Fields) → FlowIs (acceptable r) (required expected_seconds left r)
  unfolding required acceptable
  required-FlowIs none = (refl, refl)
  required-FlowIs (some require) = require_loop-FlowIs require (sorted_keys require) no_plan refl

  stop-flow :
      (b : Bool) (f : Flow) (advise : Option Fields)
      → FlowIs b f
      → (elim f as (λ _. Plan) [ done p ↦ p | next p ↦ advised advise p ]).stop ≡ none ↔ (b ≡ true)
  stop-flow b (done p) advise (e, s) = ground arith
  stop-flow b (next p) advise (e, s) = ground (arith, stop-advised advise p)

  -- For every gate, the plan lets the send go on exactly when the gate requires nothing, or every
  -- condition that it requires is one of pow, per_key and write_until, and the bits that pow
  -- requires are at most 32, and are below 17 or expected to take no longer here than the time left,
  -- if that is known. Below 17 bits no time is weighed, so that work may be begun that is not done
  -- in the time left.
  pub plan_within-stop_iff :
      (gate : Fields)
      → ((plan_within expected_seconds gate left).stop ≡ none)
        ↔ Acceptable (as_object (get (codes "require") gate))
  unfolding plan_within
  plan_within-stop_iff end = (λ _. unfold get in tt, λ _. refl)
  plan_within-stop_iff (field k v m) =
      let r = as_object (get (codes "require") (field k v m)) in
      let split =
        stop-flow (acceptable r) (required expected_seconds left r)
          (as_object (get (codes "advise") (field k v m))) (required-FlowIs r) in
      (λ h. (acceptable_iff r).0 (split.0 h), λ h. split.1 ((acceptable_iff r).1 h))
