-- ===== src/Client/Session/Invariant.antt =====
-- What holds of a client whatever it has done: where its gates and times come from. Here for the
-- reads of a gate and PlanTo of client.go.
use aamio_go.Prelude.{
  ℤ, Bool, true, false, not, ◌&&◌, List, [], ◌∷◌, ◌++◌, Option, none, some, Text, codes, ◌≡◌, refl,
  ap, ◌⊎◌, inl, inr, length, lookup, insert, erase, lookup-insert, lookup-erase, text_eq,
  text_eq_iff, text_eq_refl, ◌==◌, arith, if◌then◌else◌, Bool-cases, append_assoc, ◌∙◌, All,
  All-weaken,
}
use aamio_go.Json.{Fields}
use aamio_go.Json.Keys.{is_some}
use aamio_go.Json.Number.{parse_int}
use aamio_go.External.{External}
use aamio_go.Client.Http.{Request, Answer}
use aamio_go.Client.Session.{
  World, State, GateClock, M, gate_request, call, read_clock, set_left, count_down, seconds_left,
  left_or_unknown, forget_gate, keep_gate, gate_of, note_left, fetch_gate, kept_or_fetch, gate,
  plan_once, plan_to,
}
use aamio_go.Client.Session.Send.{gate_in}

-- An address whose time is kept has a gate that is kept.
abbrev pub HasGate : State → Text → Type 0
HasGate s w = (is_some (lookup w s.gate_left) && not (is_some (lookup w s.gates))) ≡ false

module _ (x : External) (world : World) where
  -- The answer a to a call says that the gate of w is g: to a read of it, or a 428 to a post.
  abbrev pub Says : Text → Request → Answer → Option Fields → Type 0
  Says w r a g =
      ((r ≡ gate_request w) × (g ≡ gate_of x a))
      ⊎ ((r.method ≡ codes "POST") × (r.path ≡ b'/' ∷ w) × (g ≡ gate_in a) × (is_some g ≡ true))

  abbrev pub Came : List Request → Text × Option Fields → Type 0
  Came calls (w, g) =
      (before : List Request) × (r : Request) × (after : List Request) × (calls
        ≡ before ++ r ∷ after)
      × Says w r (world.respond (length before) r) g

  -- Every gate that is kept is what the service answered to a call, and no time is kept without a
  -- gate.
  pub record IsSound (s : State) : Type 0 where
    pub gates_came : All (Came s.calls) s.gates
    pub times_have_gates : (w : Text) → HasGate s w

  abbrev pub Keeps : {A : Type 0} → M A → Type 0
  Keeps m = (s : State) → IsSound s → IsSound (m s).1

  pub Came-append :
      (calls more : List Request) (e : Text × Option Fields) → Came calls e → Came (calls ++ more) e
  Came-append calls more (w, g) (before, r, after, e, says) =
      (before, r, after ++ more, ap (λ c. c ++ more) e ∙ append_assoc before (r ∷ after) more, says)

  pub call-Keeps : (r : Request) → Keeps (call world r)
  unfolding call
  call-Keeps r s h = record {
    gates_came = All-weaken (Came-append s.calls (r ∷ [])) s.gates h.gates_came;
    times_have_gates = h.times_have_gates;
  }

  pub read_clock-Keeps : Keeps (read_clock world)
  unfolding read_clock
  read_clock-Keeps s h = record { gates_came = h.gates_came; times_have_gates = h.times_have_gates }

  All-erase :
      (P : Text × Option Fields → Type 0) (w : Text) (m : List (Text × Option Fields))
      → All P m
      → All P (erase w m)
  unfolding erase
  All-erase P w [] h = tt
  All-erase P w ((v, g) ∷ m) (p, h) = elim (Bool-cases (text_eq w v)) [
    | inl e ↦ rw e (All-erase P w m h)
    | inr e ↦ rw e (p, All-erase P w m h)
  ]

  pub forget_gate-Keeps : (w : Text) → Keeps (forget_gate w)
  unfolding forget_gate
  forget_gate-Keeps w s h = record {
    gates_came = All-erase (Came s.calls) w s.gates h.gates_came;
    times_have_gates = λ v.
        rw (lookup-erase w v s.gates, lookup-erase w v s.gate_left)
          (ground (arith, h.times_have_gates v));
  }

  pub keep_gate-IsSound :
      (w : Text) (g : Option Fields) (s : State)
      → Came s.calls (w, g)
      → IsSound s
      → IsSound (keep_gate w g s).1
  unfolding keep_gate insert
  keep_gate-IsSound w g s c h = record {
    gates_came = (c, All-erase (Came s.calls) w s.gates h.gates_came);
    times_have_gates = λ v. ground (arith, lookup-insert w v g s.gates, h.times_have_gates v);
  }

  times-after :
      (w v : Text) (s : State) (c : GateClock)
      → is_some (lookup w s.gates) ≡ true
      → HasGate s v
      → (is_some (if text_eq w v then some c else lookup v s.gate_left)
          && not (is_some (lookup v s.gates)))
        ≡ false
  times-after w v s c k h = elim (Bool-cases (text_eq w v)) [
    | inl e ↦ ground (arith, text_eq_iff w v)
    | inr e ↦ rw e h
  ]

  pub set_left-IsSound :
      (w : Text) (left : ℤ) (s : State)
      → is_some (lookup w s.gates) ≡ true
      → IsSound s
      → IsSound (set_left world w left s).1
  unfolding set_left read_clock
  set_left-IsSound w left s k h = record {
    gates_came = h.gates_came;
    times_have_gates = λ v.
        rw (lookup-insert w v (record { left = left; at = world.now s.readings }) s.gate_left) (
          times-after w v s (record { left = left; at = world.now s.readings }) k
            (h.times_have_gates v));
  }

  pub note_left-IsSound :
      (w : Text) (a : Answer) (p : ℤ × Bool) (s : State)
      → is_some (lookup w s.gates) ≡ true
      → IsSound s
      → IsSound (note_left x world w a p s).1
  note_left-IsSound w a (left, exact) s k h = elim (Bool-cases (exact && a.status == 200)) [
    | inl e ↦ rw e (set_left-IsSound w left s k h)
    | inr e ↦ rw e h
  ]

  pub kept-after :
      (w : Text) (g : Option Fields) (s : State)
      → is_some (lookup w (keep_gate w g s).1.gates) ≡ true
  unfolding keep_gate
  kept-after w g s = rw (lookup-insert w w g s.gates, text_eq_refl w) refl

  fetch_gate-Keeps : (w : Text) → Keeps (fetch_gate x world w)
  unfolding fetch_gate
  fetch_gate-Keeps w s h =
      let (a, s1) = call world (gate_request w) s in
      let came = asked_now w s in
      note_left-IsSound w a (parse_int a.seconds_left) (keep_gate w (gate_of x a) s1).1
        (kept-after w (gate_of x a) s1)
        (keep_gate-IsSound w (gate_of x a) s1 came (call-Keeps (gate_request w) s h))
    where
      asked_now :
          (w : Text) (s : State)
          → Came
              (call world (gate_request w) s).1.calls
              (w, gate_of x (call world (gate_request w) s).0)
      asked_now w s = (s.calls, gate_request w, [], refl, inl (refl, refl))

  pub gate-Keeps : (w : Text) (fresh : Bool) → Keeps (gate x world w fresh)
  unfolding gate
  gate-Keeps w fresh s h = go (lookup w s.gates) fresh
    where
      go :
          (kept : Option (Option Fields)) (fresh : Bool)
          → IsSound (kept_or_fetch x world w fresh kept s).1
      go none fresh = fetch_gate-Keeps w s h
      go (some g) true = fetch_gate-Keeps w s h
      go (some g) false = h

  pub seconds_left-Keeps : (w : Text) → Keeps (seconds_left world w)
  unfolding seconds_left
  seconds_left-Keeps w s h = go (lookup w s.gate_left)
    where
      go : (said : Option GateClock) → IsSound (count_down world said s).1
      go none = h
      go (some said) = read_clock-Keeps s h

  pub left_or_unknown-Keeps : (w : Text) → Keeps (left_or_unknown world w)
  unfolding left_or_unknown
  left_or_unknown-Keeps w s h = seconds_left-Keeps w s h

  plan_once-Keeps : (w : Text) → Keeps (plan_once x world w)
  unfolding plan_once
  plan_once-Keeps w s h =
      left_or_unknown-Keeps w (gate x world w false s).1 (gate-Keeps w false s h)

  pub plan_to-Keeps : (w : Text) → Keeps (plan_to x world w)
  unfolding plan_to
  plan_to-Keeps w s h =
      let (plan, s1) = plan_once x world w s in
      let once = plan_once-Keeps w s h in
      elim (Bool-cases (is_some plan.stop && is_some (lookup w s.gates))) [
        | inl e ↦ rw e (plan_once-Keeps w (forget_gate w s1).1 (forget_gate-Keeps w s1 once))
        | inr e ↦ rw e once
      ]
