-- ===== src/Client/Session/Notes/Refines.antt =====
-- The client of Session tells what its notes tell.
use mathlib.Core.Path.{fun_ext}
use aamio_go.Prelude.{
  suc, Bool, true, false, ◌&&◌, List, [], ◌∷◌, ◌++◌, Option, none, some, Text, ◌≡◌, refl, ap, ◌∙◌,
  length, lookup, insert, erase, lookup-insert, lookup-erase, text_eq_iff, arith, ◌==◌, Bool-cases,
  inl, inr,
}
use aamio_go.Json.{Fields}
use aamio_go.Json.Number.{parse_int}
use aamio_go.Json.Keys.{is_some}
use aamio_go.External.{External}
use aamio_go.Client.Session.{
  World, State, GateClock, gate_request, call, read_clock, set_left, seconds_left, count_down,
  forget_gate, keep_gate, gate_of, fetch_gate, kept_or_fetch, gate, plan_once, plan_to,
  left_or_unknown,
}
use aamio_go.Client.Session.Notes.{
  Note, nothing, write, forgotten, asked, ask_unless, consulted, less_elapsed, timed, notes_of,
  seen, weighed, or_anew, planned, Ask, the_gate, the_time, to_forget, the_plan, of_gate, of_time,
  nothing_more, of_plan, map_first, client_tells, notebook_tells, in_turn,
}

module _ (x : External) (world : World) where
  timed-write :
      (w : Text) (g : Option Fields) (said : GateClock) (s : State) (v : Text)
      → ◌≡◌ {A = Note}
          (record {
            gate = lookup v (insert w g s.gates);
            time = lookup v (insert w said s.gate_left);
          })
          (write w (record { gate = some g; time = some said }) (notes_of x world s).notes v)
  timed-write w g said s v =
      ground (arith, lookup-insert w v g s.gates, lookup-insert w v said s.gate_left)

  untimed-write :
      (w : Text) (g : Option Fields) (s : State) (v : Text)
      → ◌≡◌ {A = Note}
          (record { gate = lookup v (insert w g s.gates); time = lookup v s.gate_left })
          (write w
            (record { gate = some g; time = lookup w s.gate_left })
            (notes_of x world s).notes
            v)
  untimed-write w g s v = ground (arith, lookup-insert w v g s.gates, text_eq_iff w v)

  fetch_gate-asked :
      (w : Text) (s : State)
      → seen x world (fetch_gate x world w s) ≡ asked x world w (notes_of x world s)
  unfolding fetch_gate asked call keep_gate set_left read_clock
  fetch_gate-asked w s =
      let a = world.respond (length s.calls) (gate_request w) in
      let g = gate_of x a in
      let (left, ok) = parse_int a.seconds_left in
      let said : GateClock = record { left = left; at = world.now s.readings } in
      let calls = s.calls ++ gate_request w ∷ [] in
      elim (Bool-cases (ok && a.status == 200)) [
        | inl e ↦ rw e (
            ap
              (λ (n : Text → Note).
                (g, record { notes = n; calls = calls; readings = suc s.readings }))
              (fun_ext (timed-write w g said s)))
        | inr e ↦ rw e (
            ap
              (λ (n : Text → Note). (g, record { notes = n; calls = calls; readings = s.readings }))
              (fun_ext (untimed-write w g s)))
      ]

  gate-consulted :
      (w : Text) (fresh : Bool) (s : State)
      → seen x world (gate x world w fresh s) ≡ consulted x world w fresh (notes_of x world s)
  unfolding gate consulted
  gate-consulted w fresh s = cases (lookup w s.gates) fresh
    where
      cases :
          (kept : Option (Option Fields)) (fresh : Bool)
          → seen x world (kept_or_fetch x world w fresh kept s)
            ≡ ask_unless x world w fresh kept (notes_of x world s)
      cases none fresh = fetch_gate-asked w s
      cases (some g) true = fetch_gate-asked w s
      cases (some g) false = refl

  seconds_left-timed :
      (w : Text) (s : State)
      → seen x world (seconds_left world w s) ≡ timed x world w (notes_of x world s)
  unfolding seconds_left timed read_clock
  seconds_left-timed w s = cases (lookup w s.gate_left)
    where
      cases :
          (said : Option GateClock)
          → seen x world (count_down world said s) ≡ less_elapsed x world said (notes_of x world s)
      cases none = refl
      cases (some said) = refl

  forget_gate-forgotten :
      (w : Text) (s : State)
      → notes_of x world (forget_gate w s).1 ≡ forgotten w (notes_of x world s)
  unfolding forget_gate
  forget_gate-forgotten w s =
      let pointwise : (v : Text)
          → ◌≡◌ {A = Note}
              (record { gate = lookup v (erase w s.gates); time = lookup v (erase w s.gate_left) })
              (write w nothing (notes_of x world s).notes v) =
        λ v. ground (arith, lookup-erase w v s.gates, lookup-erase w v s.gate_left) in
      ap (λ (n : Text → Note). record { notes = n; calls = s.calls; readings = s.readings })
        (fun_ext pointwise)

  plan_once-weighed :
      (w : Text) (s : State)
      → seen x world (plan_once x world w s) ≡ weighed x world w (notes_of x world s)
  unfolding plan_once weighed left_or_unknown
  plan_once-weighed w s =
      let g = gate x world w false s in
      rw (← gate-consulted w false s) (rw (← seconds_left-timed w g.1) refl)

  plan_to-planned :
      (w : Text) (s : State)
      → seen x world (plan_to x world w s) ≡ planned x world w (notes_of x world s)
  unfolding plan_to planned or_anew
  plan_to-planned w s =
      let first = plan_once x world w s in
      let old = is_some (lookup w s.gates) in
      let again = plan_once-weighed w (forget_gate w first.1).1 in
      let anew : seen x world (plan_to x world w s) ≡ or_anew x world w old (seen x world first) =
        elim (Bool-cases (is_some first.0.stop && old)) [
          | inl e ↦ rw e (again ∙ ap (weighed x world w) (forget_gate-forgotten w first.1))
          | inr e ↦ rw e
        ] in
      anew ∙ ap (or_anew x world w old) (plan_once-weighed w s)

  tells :
      (q : Ask) (s : State)
      → seen x world (client_tells x world q s) ≡ notebook_tells x world q (notes_of x world s)
  unfolding client_tells notebook_tells
  tells (the_gate w fresh) s = ap (map_first of_gate) (gate-consulted w fresh s)
  tells (the_time w) s = ap (map_first of_time) (seconds_left-timed w s)
  tells (to_forget w) s = ap (λ b. (nothing_more, b)) (forget_gate-forgotten w s)
  tells (the_plan w) s = ap (map_first of_plan) (plan_to-planned w s)

  -- Whatever a caller asks of Gate, SecondsLeft, ForgetGate and PlanTo, in any order and of any
  -- addresses, it is told what the notes tell, with the same calls of the service in the same
  -- order, and the notes stay those of the client.
  pub client_tells-notebook :
      (qs : List Ask) (s : State)
      → ((in_turn (client_tells x world) qs s).0
          ≡ (in_turn (notebook_tells x world) qs (notes_of x world s)).0)
        × (notes_of x world (in_turn (client_tells x world) qs s).1
            ≡ (in_turn (notebook_tells x world) qs (notes_of x world s)).1)
  client_tells-notebook [] s = (refl, refl)
  client_tells-notebook (q ∷ qs) s =
      let (told, notes) = client_tells-notebook qs (client_tells x world q s).1 in
      rw (← tells q s) (ap (λ r. (client_tells x world q s).0 ∷ r) told, notes)
