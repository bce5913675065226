-- ===== src/Gate/Plan/Work.antt =====
-- How much work a plan asks for.
use aamio_go.Prelude.{
  ℕ, ℤ, negsuc, ltb_ℤ, ◌≤ℤ◌, ◌≡◌, ◌⊎◌, inl, inr, refl, Bool, true, ◌||◌, List, [], ◌∷◌, Option,
  none, some, Text, codes, text_eq_iff, if◌then◌else◌, arith, contains, ◌∙◌, Bool-cases,
}
use aamio_go.Json.{Json, Fields, end, field, get, as_object}
use aamio_go.Json.Keys.{is_some, sorted_keys, contains-sorted_keys}
use aamio_go.Gate.Plan.Stops.{FlowIs, acceptable, required-FlowIs}
use aamio_go.Gate.Plan.{
  Plan, no_plan, Flow, next, done, raise, bits_of, is_pow, require_pow, require_one, require_loop,
  advise_one, advise_loop, required, advised, plan_within, require_max_bits, advise_max_bits,
}

-- The bits that the conditions of a bucket ask for by `pow`; -1 is none.
abbrev pow_bits : Fields → Option Json → ℤ
pow_bits m none = negsuc 0
pow_bits m (some v) = bits_of (some v)

abbrev pub asked : Option Fields → ℤ
asked none = negsuc 0
asked (some m) = pow_bits m (get (codes "pow") m)

-- Advice above 18 bits is passed over.
abbrev pub offered : Option Fields → ℤ
offered advise = if ltb_ℤ advise_max_bits (asked advise) then negsuc 0 else asked advise

-- A loop raises the bits by those of `pow`, once or not at all.
abbrev raised : Bool → ℤ → ℤ → ℤ
raised b bits old = if b then raise old bits else old

pow_name-eq : (c : Text) → is_pow c ≡ true → codes "pow" ≡ c
unfolding is_pow
pow_name-eq c h = ground (arith, text_eq_iff c (codes "pow"))

contains_pow :
    (c : Text) (names : List Text)
    → contains (codes "pow") (c ∷ names) ≡ (is_pow c || contains (codes "pow") names)
unfolding is_pow
contains_pow c names = ground (arith, text_eq_iff c (codes "pow"), text_eq_iff (codes "pow") c)

raised_twice :
    (b c : Bool) (bits old : ℤ) → raised c bits (raised b bits old) ≡ raised (b || c) bits old
raised_twice b c bits old = ground arith

le-raised : (b : Bool) (bits old : ℤ) → negsuc 0 ≤ℤ old → negsuc 0 ≤ℤ raised b bits old
le-raised b bits old h = ground arith

abbrev limited : ℤ → ℤ
limited bits = if ltb_ℤ advise_max_bits bits then negsuc 0 else bits

advise_one-bits :
    (m : Fields) (c : Text) (plan : Plan)
    → negsuc 0 ≤ℤ plan.bits
    → (advise_one m c plan).bits
      ≡ raised (is_pow c) (limited (bits_of (get (codes "pow") m))) plan.bits
unfolding advise_one
advise_one-bits m c plan h = elim (Bool-cases (is_pow c)) [
  | inl e ↦ rw (pow_name-eq c e) (ground arith)
  | inr e ↦ ground arith
]

advise_loop-bits :
    (m : Fields) (names : List Text) (plan : Plan)
    → negsuc 0 ≤ℤ plan.bits
    → (advise_loop m names plan).bits
      ≡ raised (contains (codes "pow") names) (limited (bits_of (get (codes "pow") m))) plan.bits
unfolding advise_loop
advise_loop-bits m [] plan h = refl
advise_loop-bits m (c ∷ names) plan h =
    let b = limited (bits_of (get (codes "pow") m)) in
    let one = advise_one-bits m c plan h in
    let low : negsuc 0 ≤ℤ (advise_one m c plan).bits =
      rw one (le-raised (is_pow c) b plan.bits h) in
    advise_loop-bits m names (advise_one m c plan) low
    ∙ (rw (one, contains_pow c names)
        (raised_twice (is_pow c) (contains (codes "pow") names) b plan.bits))

module _ (es : ℤ → ℕ) (left : ℤ) (m : Fields) where
  abbrev b : ℤ
  b = bits_of (get (codes "pow") m)

  -- A condition that is met raises the bits if it is `pow`, and never past 32.
  require_one-bits :
      (c : Text) (plan p : Plan)
      → plan.bits ≤ℤ require_max_bits
      → require_one es left m c plan ≡ next p
      → (p.bits ≡ raised (is_pow c) b plan.bits) × (p.bits ≤ℤ require_max_bits)
  unfolding require_one require_pow
  require_one-bits c plan p low h = elim (Bool-cases (is_pow c)) [
    | inl e ↦ rw (pow_name-eq c e) (ground arith)
    | inr e ↦ ground arith
  ]

  abbrev Raises : List Text → Plan → Plan → Type 0
  Raises names plan p =
      (p.bits ≡ raised (contains (codes "pow") names) b plan.bits) × (p.bits ≤ℤ require_max_bits)

  abbrev LoopRaises : List Text → Type 0
  LoopRaises names =
      (plan p : Plan)
      → plan.bits ≤ℤ require_max_bits
      → require_loop es left m names plan ≡ next p
      → Raises names plan p

  require_loop-step :
      (c : Text) (names : List Text) (plan p : Plan) (f : Flow)
      → plan.bits ≤ℤ require_max_bits
      → require_one es left m c plan ≡ f
      → (elim f [ done q ↦ done q | next q ↦ require_loop es left m names q ]) ≡ next p
      → LoopRaises names
      → Raises (c ∷ names) plan p
  require_loop-step c names plan p (done q) low e k rec = cc
  require_loop-step c names plan p (next q) low e k rec =
      let (one, low') = require_one-bits c plan q low e in
      let (rest, high) = rec q p low' k in
      (
        rest
            ∙ (rw (one, contains_pow c names)
                (raised_twice (is_pow c) (contains (codes "pow") names) b plan.bits)),
        high,
      )

  require_loop-bits : (names : List Text) → LoopRaises names
  unfolding require_loop
  require_loop-bits [] plan p low h = ground arith
  require_loop-bits (c ∷ names) plan p low h =
      require_loop-step c names plan p (require_one es left m c plan) low refl h
        (require_loop-bits names)

required-bits :
    (es : ℤ → ℕ) (left : ℤ) (r : Option Fields) (p : Plan)
    → required es left r ≡ next p
    → (p.bits ≡ raise (negsuc 0) (asked r)) × (p.bits ≤ℤ require_max_bits)
unfolding required
required-bits es left none p h = ground arith
required-bits es left (some m) p h =
    let (e, high) = require_loop-bits es left m (sorted_keys m) no_plan p (omega arith) h in
    (e ∙ (rw contains-sorted_keys (raised_asked m)), high)
  where
    raised_asked :
        (m : Fields)
        → raised (is_some (get (codes "pow") m)) (bits_of (get (codes "pow") m)) (negsuc 0)
          ≡ raise (negsuc 0) (asked (some m))
    raised_asked m = ground arith

advised-bits :
    (a : Option Fields) (plan : Plan)
    → negsuc 0 ≤ℤ plan.bits
    → (advised a plan).bits ≡ raise plan.bits (offered a)
unfolding advised
advised-bits none plan h = ground arith
advised-bits (some m) plan h =
    advise_loop-bits m (sorted_keys m) plan h ∙ (rw contains-sorted_keys (ground arith))

-- The bits of a plan that does not stop the send, from those that the gate requires and advises.
abbrev pub Asks : Fields → Plan → Type 0
Asks gate p =
    let r = asked (as_object (get (codes "require") gate)) in
    let a = offered (as_object (get (codes "advise") gate)) in
    (p.bits ≡ raise (raise (negsuc 0) r) a)
    × (r ≤ℤ p.bits)
    × (p.bits ≤ℤ require_max_bits)
    × ((p.bits ≡ r) ⊎ (p.bits ≤ℤ advise_max_bits))

flow-Asks :
    (es : ℤ → ℕ) (left : ℤ) (gate : Fields) (f : Flow)
    → required es left (as_object (get (codes "require") gate)) ≡ f
    → FlowIs es left (acceptable es left (as_object (get (codes "require") gate))) f
    → (elim f as (λ _. Plan) [
      | done p ↦ p
      | next p ↦ advised (as_object (get (codes "advise") gate)) p
    ]).stop
      ≡ none
    → Asks gate (elim f as (λ _. Plan) [
      | done p ↦ p
      | next p ↦ advised (as_object (get (codes "advise") gate)) p
    ])
flow-Asks es left gate (done p) e (_, s) h = ground arith
flow-Asks es left gate (next p) e _ h =
    let r = as_object (get (codes "require") gate) in
    let a = as_object (get (codes "advise") gate) in
    let (exact, high) = required-bits es left r p e in
    let all = advised-bits a p (ground arith) in
    (rw (all, exact), ground arith, ground arith, ground arith)

-- When the plan does not stop the send, its bits are the larger of those that `require` and
-- `advise` ask for by pow, advice above 18 being passed over, and -1 if neither asks: at least what
-- is required, at most 32, and above 18 only when just so many are required.
pub plan_within-bits :
    (es : ℤ → ℕ) (gate : Fields) (left : ℤ)
    → (plan_within es gate left).stop ≡ none
    → Asks gate (plan_within es gate left)
unfolding plan_within get
plan_within-bits es end left h = (refl, omega arith, omega arith, inl refl)
plan_within-bits es (field k v m) left h =
    flow-Asks es left (field k v m) _ refl (required-FlowIs es left _) h
