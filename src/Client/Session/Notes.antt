-- ===== src/Client/Session/Notes.antt =====
-- What a client promises about gates, with nothing said of how they are kept: a note for each
-- address, with the gate last answered and the time last said. Refines shows that the client of
-- Session keeps the promise.
pub mod Refines
mod Tests
use aamio_go.Prelude.{
  ℕ, suc, ℤ, Bool, false, ◌&&◌, List, [], ◌∷◌, ◌++◌, Option, none, some, Text, length, lookup,
  text_eq, if◌then◌else◌, ◌==◌,
}
use aamio_go.Json.{Fields}
use aamio_go.Json.Number.{parse_int}
use aamio_go.Json.Keys.{is_some}
use aamio_go.External.{External}
use aamio_go.Client.Http.{Request, Answer}
use aamio_go.Gate.Plan.{Plan, plan_within}
use aamio_go.Client.Session.{
  World, State, GateClock, gate_request, seconds_left, forget_gate, gate_of, gate, fields_or_empty,
  remaining, plan_to, or_unknown,
}

pub record Note : Type 0 where
  pub gate : Option (Option Fields)
  pub time : Option GateClock

pub record Notebook : Type 0 where
  pub notes : Text → Note
  pub calls : List Request
  pub readings : ℕ

abbrev pub nothing : Note
nothing = record { gate = none; time = none }

abbrev pub write : Text → Note → (Text → Note) → Text → Note
write w n notes v = if text_eq w v then n else notes v

abbrev pub forgotten : Text → Notebook → Notebook
forgotten w b = record b { notes = write w nothing b.notes }

module _ (x : External) (world : World) where
  -- The note after an answer: its gate, and where a time is said with a 200, that and the clock.
  abbrev pub noted : Text → Answer → ℤ → Bool → Notebook → Notebook
  noted w a left timed b =
      let said : GateClock = record { left = left; at = world.now b.readings } in
      let time : Option GateClock = if timed then some said else (b.notes w).time in
      record {
        notes = write w (record { gate = some (gate_of x a); time = time }) b.notes;
        calls = b.calls ++ gate_request w ∷ [];
        readings = if timed then suc b.readings else b.readings;
      }

  pub asked : Text → Notebook → Option Fields × Notebook
  asked w b =
      let a = world.respond (length b.calls) (gate_request w) in
      let (left, ok) = parse_int a.seconds_left in
      (gate_of x a, noted w a left (ok && a.status == 200) b)

  -- A gate that is noted is not asked for, unless it is to be fresh.
  abbrev pub ask_unless : Text → Bool → Option (Option Fields) → Notebook → Option Fields × Notebook
  unfolding asked
  ask_unless w fresh none b = asked w b
  ask_unless w fresh (some g) b = if fresh then asked w b else (g, b)

  pub consulted : Text → Bool → Notebook → Option Fields × Notebook
  unfolding ask_unless
  consulted w fresh b = ask_unless w fresh (b.notes w).gate b

  -- The time said less the time gone by, if any was said.
  abbrev pub less_elapsed : Option GateClock → Notebook → Option ℕ × Notebook
  less_elapsed none b = (none, b)
  less_elapsed (some said) b =
      (some (remaining world said (world.now b.readings)), record b { readings = suc b.readings })

  pub timed : Text → Notebook → Option ℕ × Notebook
  timed w b = less_elapsed (b.notes w).time b

  -- The notes of a client.
  abbrev pub notes_of : State → Notebook
  notes_of s = record {
    notes = λ w. record { gate = lookup w s.gates; time = lookup w s.gate_left };
    calls = s.calls;
    readings = s.readings;
  }

  abbrev pub seen : {A : Type 0} → A × State → A × Notebook
  seen r = (r.0, notes_of r.1)

  -- The plan for what is noted or else answered now, in the time left.
  pub weighed : Text → Notebook → Plan × Notebook
  unfolding consulted timed
  weighed w b =
      let (g, b1) = consulted w false b in
      let (left, b2) = timed w b1 in
      (plan_within world.expected_seconds (fields_or_empty g) (or_unknown world left), b2)

  -- No address is given up on by an old note: then it is forgotten, and the plan made anew.
  abbrev pub or_anew : Text → Bool → Plan × Notebook → Plan × Notebook
  unfolding weighed
  or_anew w old r = if is_some r.0.stop && old then weighed w (forgotten w r.1) else r

  pub planned : Text → Notebook → Plan × Notebook
  unfolding or_anew
  planned w b = or_anew w (is_some (b.notes w).gate) (weighed w b)

-- What a caller asks of a client about gates, and what it is told.
pub data Ask : Type 0 where
  the_gate : Text → Bool → Ask
  the_time : Text → Ask
  to_forget : Text → Ask
  the_plan : Text → Ask

pub data Told : Type 0 where
  of_gate : Option Fields → Told
  of_time : Option ℕ → Told
  nothing_more : Told
  of_plan : Plan → Told

abbrev pub map_first : {A B S : Type 0} → (A → B) → A × S → B × S
map_first f (a, s) = (f a, s)

-- One after the other, with what each is told.
abbrev pub in_turn : {S : Type 0} → (Ask → S → Told × S) → List Ask → S → List Told × S
in_turn tells [] s = ([], s)
in_turn tells (q ∷ qs) s =
    let (told, s') = tells q s in let (rest, s'') = in_turn tells qs s' in (told ∷ rest, s'')

module _ (x : External) (world : World) where
  pub client_tells : Ask → State → Told × State
  client_tells (the_gate w fresh) s = map_first of_gate (gate x world w fresh s)
  client_tells (the_time w) s = map_first of_time (seconds_left world w s)
  client_tells (to_forget w) s = map_first (λ u. nothing_more) (forget_gate w s)
  client_tells (the_plan w) s = map_first of_plan (plan_to x world w s)

  pub notebook_tells : Ask → Notebook → Told × Notebook
  notebook_tells (the_gate w fresh) b = map_first of_gate (consulted x world w fresh b)
  notebook_tells (the_time w) b = map_first of_time (timed x world w b)
  notebook_tells (to_forget w) b = (nothing_more, forgotten w b)
  notebook_tells (the_plan w) b = map_first of_plan (planned x world w b)
