-- ===== src/Client/Session/Cache.antt =====
-- What Gate and PlanTo of client.go ask the service, and what they keep.
use aamio_go.Prelude.{
  ℕ, suc, ◌-◌, ◌*◌, ◌^◌, ◌≤◌, pos_part, pos, negsuc, lookup-insert, ◌==◌, ℤ, Bool, true, false, not,
  ◌&&◌, ◌||◌, append-nil, List, [], ◌∷◌, ◌++◌, Option, none, some, Text, ◌≡◌, refl, sym, ap, subst,
  length, lookup, lookup-erase, text_eq_refl, arith, if◌then◌else◌, Bool-cases, inl, inr, ◌∙◌,
}
use aamio_go.Json.{Fields}
use aamio_go.Json.Keys.{is_some}
use aamio_go.Json.Number.{parse_int}
use aamio_go.External.{External}
use aamio_go.Client.Http.{Request, Answer}
use aamio_go.Gate.Plan.{Plan, plan_within}
use aamio_go.Client.Session.{
  World, State, GateClock, gate_request, call, read_clock, set_left, fields_or_empty, count_down,
  seconds_left, left_or_unknown, forget_gate, keep_gate, gate_of, note_left, fetch_gate, or_unknown,
  kept_or_fetch, gate, plan_once, plan_to,
}
use aamio_go.Client.Session.Invariant.{HasGate}

-- One read of the gate, or none.
abbrev pub reads : Bool → Text → List Request
reads b w = if b then gate_request w ∷ [] else []

module _ (x : External) (world : World) (w : Text) where
  pub count_down-calls :
      (said : Option GateClock) (s : State) → (count_down world said s).1.calls ≡ s.calls
  unfolding read_clock
  count_down-calls none s = refl
  count_down-calls (some said) s = refl

  pub left-calls : (s : State) → (left_or_unknown world w s).1.calls ≡ s.calls
  unfolding left_or_unknown seconds_left
  left-calls s = count_down-calls (lookup w s.gate_left) s

  pub note_left-calls :
      (a : Answer) (p : ℤ × Bool) (s : State) → (note_left x world w a p s).1.calls ≡ s.calls
  unfolding set_left read_clock
  note_left-calls a (left, ok) s = ground arith

  note_left-gates :
      (a : Answer) (p : ℤ × Bool) (s : State) → (note_left x world w a p s).1.gates ≡ s.gates
  unfolding set_left read_clock
  note_left-gates a (left, ok) s = ground arith

  -- The answer to a read of the gate now, and the state when it is there.
  abbrev answer : State → Answer
  answer s = (call world (gate_request w) s).0

  abbrev asked : State → State
  asked s = (call world (gate_request w) s).1

  fetch_gate-calls : (s : State) → (fetch_gate x world w s).1.calls ≡ s.calls ++ gate_request w ∷ []
  unfolding fetch_gate call keep_gate
  fetch_gate-calls s =
      let a = answer s in
      note_left-calls a (parse_int a.seconds_left) (keep_gate w (gate_of x a) (asked s)).1

  kept_or_fetch-calls :
      (kept : Option (Option Fields)) (fresh : Bool) (s : State)
      → (kept_or_fetch x world w fresh kept s).1.calls
        ≡ s.calls ++ reads (not (is_some kept && not fresh)) w
  kept_or_fetch-calls none fresh s = fetch_gate-calls s
  kept_or_fetch-calls (some g) true s = fetch_gate-calls s
  kept_or_fetch-calls (some g) false s = sym (append-nil s.calls)

  -- Gate reads the gate of w once, if it is asked for a fresh one or none is kept.
  pub gate-calls :
      (fresh : Bool) (s : State)
      → (gate x world w fresh s).1.calls
        ≡ s.calls ++ reads (not (is_some (lookup w s.gates) && not fresh)) w
  unfolding gate
  gate-calls fresh s = kept_or_fetch-calls (lookup w s.gates) fresh s

  pub plan_once-calls :
      (s : State)
      → (plan_once x world w s).1.calls ≡ s.calls ++ reads (not (is_some (lookup w s.gates))) w
  unfolding plan_once
  plan_once-calls s = left-calls (gate x world w false s).1 ∙ gate-calls false s ∙ ground arith

  forget_gate-lookup : (s : State) → lookup w (forget_gate w s).1.gates ≡ none
  unfolding forget_gate
  forget_gate-lookup s = lookup-erase w w s.gates ∙ (rw (text_eq_refl w) refl)

  again-calls :
      (s : State)
      → (plan_once x world w (forget_gate w s).1).1.calls ≡ s.calls ++ gate_request w ∷ []
  unfolding forget_gate
  again-calls s = plan_once-calls (forget_gate w s).1 ∙ (rw (forget_gate-lookup s) refl)

  -- PlanTo reads the gate of w once if none was kept or the plan that the kept one gives says no,
  -- and otherwise asks nothing.
  pub plan_to-calls :
      (s : State)
      → (plan_to x world w s).1.calls
        ≡ s.calls
          ++ reads (not (is_some (lookup w s.gates)) || is_some (plan_once x world w s).0.stop) w
  unfolding plan_to
  plan_to-calls s = elim (Bool-cases (is_some (lookup w s.gates))) [
    | inl e ↦ elim (Bool-cases (is_some (plan_once x world w s).0.stop)) [
      | inl r ↦
          rw (e, r)
            (again-calls (plan_once x world w s).1
              ∙ (rw (plan_once-calls s, e)
                  (ap (λ l. l ++ gate_request w ∷ []) (append-nil s.calls))))
      | inr r ↦ rw (e, r) (plan_once-calls s ∙ (rw e refl))
    ]
    | inr e ↦ ground (arith, plan_once-calls s)
  ]

  -- The time left that what an answer says gives, counted on from a reading of the clock to the next
  -- one; below 0 when the answer says none.
  abbrev pub time_left : ℤ × Bool → Bool → ℕ → ℤ
  time_left (n, true) true r = pos (pos_part n * 10 ^ 9 - (world.now (suc r) - world.now r))
  time_left (n, true) false r = negsuc 0
  time_left (n, false) good r = negsuc 0

  -- The plan that an answer gives: for its gate and the time left that it says, with readings of the
  -- clock from the given one on.
  abbrev pub PlanOf : Answer → ℕ → Plan → Type 0
  PlanOf a readings plan =
      let said = parse_int a.seconds_left in
      (r : ℕ) × (readings ≤ r)
      × (plan
          ≡ plan_within world.expected_seconds (fields_or_empty (gate_of x a))
              (time_left said (a.status == 200) r))

  count_down-none :
      (said : Option GateClock) (s : State)
      → is_some said ≡ false
      → or_unknown world (count_down world said s).0 ≡ negsuc 0
  count_down-none none s h = refl
  count_down-none (some said) s h = absurd cc

  -- A time that is noted, when none was kept, is the time left that the next reading counts from.
  note_left-left :
      (a : Answer) (said : ℤ × Bool) (s : State)
      → is_some (lookup w s.gate_left) ≡ false
      → (left_or_unknown world w (note_left x world w a said s).1).0
        ≡ time_left said (a.status == 200) s.readings
  unfolding left_or_unknown seconds_left set_left read_clock
  note_left-left a (n, true) s h = elim (Bool-cases (a.status == 200)) [
    | inl e ↦ rw (e, lookup-insert, text_eq_refl w) refl
    | inr e ↦ rw e (count_down-none (lookup w s.gate_left) s h)
  ]
  note_left-left a (n, false) s h = count_down-none (lookup w s.gate_left) s h

  fetch_gate-PlanOf :
      (s : State)
      → is_some (lookup w s.gate_left) ≡ false
      → let (g, s1) = fetch_gate x world w s in
        let a = answer s in
        (g ≡ gate_of x a)
        × ((left_or_unknown world w s1).0
            ≡ time_left (parse_int a.seconds_left) (a.status == 200) s.readings)
  unfolding fetch_gate call keep_gate
  fetch_gate-PlanOf s h =
      let a = answer s in
      let kept = (keep_gate w (gate_of x a) (asked s)).1 in
      (refl, note_left-left a (parse_int a.seconds_left) kept h)

  kept_or_fetch-none :
      (kept : Option (Option Fields)) (s : State)
      → is_some kept ≡ false
      → kept_or_fetch x world w false kept s ≡ fetch_gate x world w s
  kept_or_fetch-none none s h = refl
  kept_or_fetch-none (some g) s h = absurd cc

  plan_once-PlanOf :
      (s : State)
      → is_some (lookup w s.gates) ≡ false
      → is_some (lookup w s.gate_left) ≡ false
      → PlanOf
          (world.respond (length s.calls) (gate_request w))
          s.readings
          (plan_once x world w s).0
  unfolding plan_once gate call
  plan_once-PlanOf s h k =
      let (g, left) = fetch_gate-PlanOf s k in
      (s.readings, omega arith, rw (kept_or_fetch-none (lookup w s.gates) s h, g, left) refl)

  count_down-readings :
      (said : Option GateClock) (s : State) → s.readings ≤ (count_down world said s).1.readings
  unfolding read_clock
  count_down-readings none s = omega arith
  count_down-readings (some said) s = omega arith

  kept_or_fetch-some :
      (kept : Option (Option Fields)) (s : State)
      → is_some kept ≡ true
      → (kept_or_fetch x world w false kept s).1 ≡ s
  kept_or_fetch-some none s h = absurd cc
  kept_or_fetch-some (some g) s h = refl

  plan_once-readings :
      (s : State)
      → is_some (lookup w s.gates) ≡ true
      → s.readings ≤ (plan_once x world w s).1.readings
  unfolding plan_once gate left_or_unknown seconds_left
  plan_once-readings s h =
      rw (kept_or_fetch-some (lookup w s.gates) s h) (count_down-readings (lookup w s.gate_left) s)

  forget_gate-left : (s : State) → lookup w (forget_gate w s).1.gate_left ≡ none
  unfolding forget_gate
  forget_gate-left s = lookup-erase w w s.gate_left ∙ (rw (text_eq_refl w) refl)

  -- A no of PlanTo rests on what the service answers now, when no time is kept without a gate: in
  -- that call the gate of w is read, once, and the plan is that of the gate in the answer and of the
  -- time left that the answer says, by the clock of that call, however old the gate and the time
  -- were that were kept.
  pub plan_to-PlanOf :
      (s : State)
      → HasGate s w
      → is_some (plan_to x world w s).0.stop ≡ true
      → ((plan_to x world w s).1.calls ≡ s.calls ++ gate_request w ∷ [])
        × PlanOf
            (world.respond (length s.calls) (gate_request w))
            s.readings
            (plan_to x world w s).0
  unfolding plan_to forget_gate
  plan_to-PlanOf s sound =
      let s1 = (plan_once x world w s).1 in
      let fresh = (forget_gate w s1).1 in
      elim (Bool-cases (is_some (lookup w s.gates))) [
        | inl e ↦ elim (Bool-cases (is_some (plan_once x world w s).0.stop)) [
          | inl r ↦
              let same : s1.calls ≡ s.calls = plan_once-calls s ∙ (rw e (append-nil s.calls)) in
              let (n, later, plan) =
                subst
                  (λ l.
                    PlanOf (world.respond (length l) (gate_request w)) s1.readings
                      (plan_once x world w fresh).0)
                  same
                  (plan_once-PlanOf fresh (ap is_some (forget_gate-lookup s1))
                    (ap is_some (forget_gate-left s1))) in
              rw (e, r)
                (λ h. (
                  again-calls s1 ∙ ap (λ l. l ++ gate_request w ∷ []) same,
                  (n, omega (arith, later, plan_once-readings s e), plan),
                ))
          | inr r ↦ rw (e, r) (λ h. absurd cc)
        ]
        | inr e ↦ rw e (elim (Bool-cases (is_some (plan_once x world w s).0.stop)) [
          | inl r ↦
              rw r (λ h. (plan_once-calls s ∙ (rw e refl), plan_once-PlanOf s e (ground arith)))
          | inr r ↦ rw r (λ h. absurd cc)
        ])
      ]
