-- ===== src/Client/Session/Tasks.antt =====
-- Gate, SecondsLeft, ForgetGate, PlanTo and Send of client.go as they run beside other goroutines:
-- in parts, each of which holds the mutex once, makes one call, or reads the clock. Between two
-- parts others may run.
mod Alone
pub mod Holds
mod Sends
pub mod Pool
mod Interleaved
mod Tests
use aamio_go.Prelude.{
  ℕ, ℤ, pos, ltb_ℤ, Bool, false, ◌&&◌, List, ◌++◌, Option, none, some, Text, lookup, if◌then◌else◌,
}
use aamio_go.Errors.{Result, ok, err}
use aamio_go.Json.{Fields}
use aamio_go.Json.Keys.{is_some}
use aamio_go.Json.Number.{parse_int}
use aamio_go.External.{External}
use aamio_go.Keys.{Keys}
use aamio_go.Gate.Work.{solve_until}
use aamio_go.Gate.Plan.{Plan, Stop, Note, plan_within}
use aamio_go.Client.Http.{Answer}
use aamio_go.Client.Session.{
  World, M, gate_request, call, seconds_left, or_unknown, forget_gate, keep_gate, gate_of,
  note_left, fields_or_empty,
}
use aamio_go.Client.Session.Letter.{Letter, SendOptions, signer_key, letter_of}
use aamio_go.Client.Session.Send.{
  Sent, stopped, endless, Attempt, posted, timed_out, unfinished, failed, by_plan, out_of_time,
  gate_in, left_in, post, deadline_of, post_worked, finish, note_stated,
}
use aamio_go.Client.Session.{◌>>◌}

-- What is left of a call: its result, or a part that runs by itself and what follows it.
pub data Task (A : Type 0) : Type 1 where
  returns : A → Task A
  does : {B : Type 0} → M B → (B → Task A) → Task A

infixl 5 ◌>>=◌
abbrev pub ◌>>=◌ : {A B : Type 0} → Task A → (A → Task B) → Task B
returns a >>= f = f a
does m k >>= f = does m (λ b. k b >>= f)

abbrev pub atomic : {A : Type 0} → M A → Task A
atomic m = does m returns

-- A task that nothing runs beside.
abbrev pub alone : {A : Type 0} → Task A → M A
alone (returns a) s = (a, s)
alone (does m k) s = let (b, s') = m s in alone (k b) s'

-- `c.gates[w]` under the mutex.
abbrev pub lookup_gate : Text → M (Option (Option Fields))
lookup_gate w s = (lookup w s.gates, s)

module _ (x : External) (world : World) where
  -- What Gate stores under one hold of the mutex.
  unfoldable pub store_gate : Text → Answer → M (Unit {0})
  unfolding keep_gate
  store_gate w a = keep_gate w (gate_of x a) >> note_left x world w a (parse_int a.seconds_left)

  abbrev pub fetch_task : Text → Task (Option Fields)
  fetch_task w = do
    a ← atomic (call world (gate_request w))
    _ ← atomic (store_gate w a)
    returns (gate_of x a)

  abbrev pub kept_task : Text → Bool → Option (Option Fields) → Task (Option Fields)
  kept_task w fresh none = fetch_task w
  kept_task w fresh (some gate) = if fresh then fetch_task w else returns gate

  abbrev pub gate_task : Text → Bool → Task (Option Fields)
  gate_task w fresh = do kept ← atomic (lookup_gate w); kept_task w fresh kept

  abbrev pub left_task : Text → Task ℤ
  left_task w = do left ← atomic (seconds_left world w); returns (or_unknown world left)

  abbrev pub plan_once_task : Text → Task Plan
  plan_once_task w = do
    gate ← gate_task w false
    left ← left_task w
    returns (plan_within world.expected_seconds (fields_or_empty gate) left)

  abbrev pub plan_again_task : Text → Plan → Bool → Task Plan
  plan_again_task w plan again =
      if again then (do _ ← atomic (forget_gate w); plan_once_task w) else returns plan

  abbrev pub plan_to_task : Text → Task Plan
  plan_to_task w = do
    cached ← atomic (lookup_gate w)
    plan ← plan_once_task w
    plan_again_task w plan (is_some plan.stop && is_some cached)

  module _ (fuel : ℕ) (l : Letter) where
    abbrev pub worked_task : ℤ → Task Attempt
    worked_task bits = do
      left ← atomic (seconds_left world l.w)
      deadline ← atomic (deadline_of fuel x world l left)
      atomic (
          post_worked fuel x world l
            (solve_until fuel l.w (signer_key l.signer) l.body bits deadline))

    unfoldable pub attempt_task : ℤ → Task Attempt
    attempt_task bits =
        if ltb_ℤ (pos 0) bits then worked_task bits else atomic (post fuel x world l none)

    abbrev pub finish_task : Answer → Text → List Note → Task (Result Sent)
    finish_task a work notes = atomic (finish fuel x world l a work notes)

    abbrev pub after_task :
        ℤ → List Note → (Answer → Text → Task (Result Sent)) → Attempt → Task (Result Sent)
    after_task bits notes go (posted a work) = go a work
    after_task bits notes go timed_out = returns (ok (stopped (out_of_time bits) notes))
    after_task bits notes go unfinished = returns (ok endless)
    after_task bits notes go (failed e) = returns (err e)

    abbrev pub new_plan_task : Plan → Answer → Text → Option Stop → Plan → Task (Result Sent)
    new_plan_task plan a work (some why) new =
        returns (ok (stopped (by_plan why) (plan.notes ++ new.notes)))
    new_plan_task plan a work none new =
        if ltb_ℤ (pos 0) new.bits
        then (do
          again ← attempt_task new.bits
          after_task new.bits plan.notes (λ b nonce. finish_task b nonce (plan.notes ++ new.notes))
              again)
        else finish_task a work plan.notes

    -- What Send stores of a 428 under one hold of the mutex.
    unfoldable pub store_stated : Answer → Fields → M (Unit {0})
    unfolding keep_gate
    store_stated a gate = keep_gate l.w (some gate) >> note_stated fuel x world l (left_in a.body)

    abbrev pub answer_gate_task : Plan → Answer → Text → Fields → Task (Result Sent)
    answer_gate_task plan a work gate = do
      _ ← atomic (store_stated a gate)
      left ← left_task l.w
      let new = plan_within world.expected_seconds gate left in
          new_plan_task plan a work new.stop new

    abbrev pub answered_task : Plan → Answer → Text → Option Fields → Task (Result Sent)
    answered_task plan a work none = finish_task a work plan.notes
    answered_task plan a work (some gate) = answer_gate_task plan a work gate

    abbrev pub by_plan_task : Plan → Option Stop → Task (Result Sent)
    by_plan_task plan (some why) = returns (ok (stopped (by_plan why) plan.notes))
    by_plan_task plan none = do
      first ← attempt_task plan.bits
      after_task plan.bits plan.notes (λ a work. answered_task plan a work (gate_in a)) first

    abbrev pub send_letter_task : Task (Result Sent)
    send_letter_task = do plan ← plan_to_task l.w; by_plan_task plan plan.stop

  abbrev pub with_letter_task : ℕ → Result Letter → Task (Result Sent)
  with_letter_task fuel (err e) = returns (err e)
  with_letter_task fuel (ok l) = send_letter_task fuel l

  -- Send, from the bytes that it is given on.
  abbrev pub send_task : ℕ → Option Keys → Text → Text → Text → SendOptions → Task (Result Sent)
  send_task fuel keys random w body opts =
      with_letter_task fuel (letter_of x keys random w body opts)
