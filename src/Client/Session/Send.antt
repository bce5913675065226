-- ===== src/Client/Session/Send.antt =====
-- Send of client.go: the plan, the work and the signed request, and the one answer to a 428. The
-- texts of error and fix are constructors that hold what is formatted into them.
pub mod Cases
pub mod Gone
pub mod Posts
pub mod Sound
pub mod Worked
use aamio_go.Prelude.{
  ℕ, ◌+◌, ◌-◌, ◌*◌, ℤ, pos, ltb_ℤ, ltb, Bool, false, ◌||◌, List, [], ◌++◌, Option, none, some, Text,
  codes, ◌==◌, if◌then◌else◌,
}
use aamio_go.Errors.{Error, Result, ok, err}
use aamio_go.Json.{Fields, Json, number, get, as_object}
use aamio_go.Json.Number.{parse_int}
use aamio_go.External.{External}
use aamio_go.Keys.{Keys}
use aamio_go.Gate.Work.{Work, nonce, ran_out, no_fuel, solve_until}
use aamio_go.Gate.Plan.{Plan, Stop, Note, plan_within}
use aamio_go.Client.Http.{Answer}
use aamio_go.Client.Session.{
  World, M, pure, second, call, read_clock, set_left, seconds_left, left_or_unknown, forget_gate,
  keep_gate, plan_to,
}
use aamio_go.Client.Session.{◌>>=◌, ◌>>◌}
use aamio_go.Client.Session.Letter.{SendOptions, Letter, signer_key, letter_of, post_request}

-- Why a send was stopped.
pub data Why : Type 0 where
  by_plan : Stop → Why
  out_of_time : ℤ → Why

-- Sent: the answer with the bytes, the nonce and the notes, or one that was stopped, which has
-- status 0 and no bytes. `endless` is work without fuel.
pub data Sent : Type 0 where
  sent : Answer → Text → Text → List Note → Sent
  stopped : Why → List Note → Sent
  endless : Sent

-- One attempt: the answer to the post with the nonce, or why nothing was posted.
pub data Attempt : Type 0 where
  posted : Answer → Text → Attempt
  timed_out : Attempt
  unfinished : Attempt
  failed : Error → Attempt

abbrev pub nonce_text : Option Text → Text
nonce_text none = []
nonce_text (some n) = n

-- What is in a 428: the gate, and the time left when it is an integer.
unfoldable pub gate_in : Answer → Option Fields
gate_in a =
    if a.status == 428
    then elim a.body [ none ↦ none | some m ↦ as_object (get (codes "gate") m) ]
    else none

abbrev stated : Option Json → ℤ × Bool
stated (some (number s)) = parse_int s
stated _ = (pos 0, false)

abbrev pub left_in : Option Fields → ℤ × Bool
left_in none = (pos 0, false)
left_in (some m) = stated (get (codes "seconds_left") m)

abbrev pub is_gone : Answer → Bool
is_gone a = a.status == 404 || a.status == 410

module _ (fuel : ℕ) (x : External) (world : World) (l : Letter) where
  unfoldable pub post : Option Text → M Attempt
  unfolding call post_request
  post work s =
      let (a, s') = call world (post_request x l work) s in (posted a (nonce_text work), s')

  -- The deadline is the time left less five seconds from now.
  abbrev pub deadline_of : Option ℕ → M (Option (ℕ → Bool))
  deadline_of none s = (none, s)
  deadline_of (some left) s =
      let (now, s') = read_clock world s in
      (some (λ n. ltb (now + (left - 5 * second)) (world.work_clock s.readings n)), s')

  abbrev pub post_worked : Result Work → M Attempt
  post_worked (err e) = pure (failed e)
  post_worked (ok ran_out) = pure timed_out
  post_worked (ok no_fuel) = pure unfinished
  post_worked (ok (nonce n)) = post (some n)

  unfoldable pub worked : ℤ → M Attempt
  unfolding seconds_left read_clock post
  worked bits = do
    left ← seconds_left world l.w
    deadline ← deadline_of left
    post_worked (solve_until fuel l.w (signer_key l.signer) l.body bits deadline)

  unfoldable pub attempt : ℤ → M Attempt
  unfolding worked post
  attempt bits = if ltb_ℤ (pos 0) bits then worked bits else post none

  -- ForgetGate on a 404 or a 410, and what Send returns then.
  unfoldable pub finish : Answer → Text → List Note → M (Result Sent)
  unfolding forget_gate
  finish a work notes =
      if is_gone a
      then (do forget_gate l.w; pure (ok (sent a l.body work notes)))
      else pure (ok (sent a l.body work notes))

  -- After an attempt at so many bits: with what was posted go on, or return.
  abbrev pub after : ℤ → List Note → (Answer → Text → M (Result Sent)) → Attempt → M (Result Sent)
  after bits notes go (posted a work) = go a work
  after bits notes go timed_out = pure (ok (stopped (out_of_time bits) notes))
  after bits notes go unfinished = pure (ok endless)
  after bits notes go (failed e) = pure (err e)

  abbrev pub note_stated : ℤ × Bool → M (Unit {0})
  note_stated (left, exact) = if exact then set_left world l.w left else pure tt

  abbrev pub by_new_plan : Plan → Answer → Text → Option Stop → Plan → M (Result Sent)
  by_new_plan plan a work (some why) new =
      pure (ok (stopped (by_plan why) (plan.notes ++ new.notes)))
  by_new_plan plan a work none new =
      if ltb_ℤ (pos 0) new.bits
      then (do
        again ← attempt new.bits
        after new.bits plan.notes (λ b nonce. finish b nonce (plan.notes ++ new.notes)) again)
      else finish a work plan.notes

  unfoldable pub answer_gate : Plan → Answer → Text → Fields → M (Result Sent)
  unfolding keep_gate set_left left_or_unknown attempt finish
  answer_gate plan a work gate = do
    keep_gate l.w (some gate)
    note_stated (left_in a.body)
    left ← left_or_unknown world l.w
    let new = plan_within world.expected_seconds gate left in by_new_plan plan a work new.stop new

  unfoldable pub answered : Plan → Answer → Text → Option Fields → M (Result Sent)
  unfolding answer_gate finish
  answered plan a work none = finish a work plan.notes
  answered plan a work (some gate) = answer_gate plan a work gate

  abbrev pub by_plan_of : Plan → Option Stop → M (Result Sent)
  by_plan_of plan (some why) = pure (ok (stopped (by_plan why) plan.notes))
  by_plan_of plan none = do
    first ← attempt plan.bits
    after plan.bits plan.notes (λ a work. answered plan a work (gate_in a)) first

  unfoldable pub send_letter : M (Result Sent)
  unfolding plan_to attempt answered
  send_letter = do plan ← plan_to x world l.w; by_plan_of plan plan.stop

abbrev pub with_letter : ℕ → External → World → Result Letter → M (Result Sent)
with_letter fuel x world (err e) = pure (err e)
with_letter fuel x world (ok l) = send_letter fuel x world l

unfoldable pub send :
    ℕ → External → World → Option Keys → Text → Text → Text → SendOptions → M (Result Sent)
unfolding send_letter letter_of
send fuel x world keys random w body opts =
    with_letter fuel x world (letter_of x keys random w body opts)
