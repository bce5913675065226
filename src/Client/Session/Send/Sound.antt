-- ===== src/Client/Session/Send/Sound.antt =====
-- Send of client.go keeps what holds of a client: the gate in a 428 is the one the service said.
use aamio_go.Prelude.{
  ℕ, ℤ, pos, ltb_ℤ, Bool, true, false, ◌++◌, [], List, Option, none, some, Text, ◌≡◌, refl, sym, ap,
  ◌∙◌, lookup, inl, inr, Bool-cases,
}
use aamio_go.Errors.{Result, ok, err}
use aamio_go.Json.{Fields}
use aamio_go.Json.Keys.{is_some}
use aamio_go.External.{External}
use aamio_go.Keys.{Keys}
use aamio_go.Gate.Work.{Work, nonce, ran_out, no_fuel, solve_until}
use aamio_go.Gate.Plan.{Plan, Stop, Note, plan_within}
use aamio_go.Client.Http.{Request, Answer}
use aamio_go.Client.Session.{World, State, seconds_left, left_or_unknown, keep_gate, plan_to}
use aamio_go.Client.Session.Invariant.{
  IsSound, Came, Keeps, call-Keeps, read_clock-Keeps, forget_gate-Keeps, keep_gate-IsSound,
  set_left-IsSound, seconds_left-Keeps, left_or_unknown-Keeps, plan_to-Keeps, kept-after,
}
use aamio_go.Client.Session.Letter.{Letter, SendOptions, letter_of, signer_key, post_request}
use aamio_go.Client.Session.Send.{
  Attempt, posted, timed_out, unfinished, failed, gate_in, left_in, is_gone, post, deadline_of,
  post_worked, worked, attempt, finish, after, note_stated, by_new_plan, answer_gate, answered,
  by_plan_of, send_letter, with_letter, send,
}
use aamio_go.Client.Session.Send.Posts.{Posted, AttemptEnds, attempt-AttemptEnds}

module _ (fuel : ℕ) (x : External) (world : World) (l : Letter) where
  pub post-Keeps : (work : Option Text) → Keeps x world (post fuel x world l work)
  unfolding post
  post-Keeps work s h = call-Keeps x world (post_request x l work) s h

  pub post_worked-Keeps : (r : Result Work) → Keeps x world (post_worked fuel x world l r)
  post_worked-Keeps (err e) s h = h
  post_worked-Keeps (ok ran_out) s h = h
  post_worked-Keeps (ok no_fuel) s h = h
  post_worked-Keeps (ok (nonce n)) s h = post-Keeps (some n) s h

  pub deadline_of-Keeps : (left : Option ℕ) → Keeps x world (deadline_of fuel x world l left)
  deadline_of-Keeps none s h = h
  deadline_of-Keeps (some left) s h = read_clock-Keeps x world s h

  attempt-Keeps : (bits : ℤ) → Keeps x world (attempt fuel x world l bits)
  unfolding attempt worked
  attempt-Keeps bits s h = elim (Bool-cases (ltb_ℤ (pos 0) bits)) [
    | inl e ↦
        let (left, s1) = seconds_left world l.w s in
        let (deadline, s2) = deadline_of fuel x world l left s1 in
        rw e (
          post_worked-Keeps (solve_until fuel l.w (signer_key l.signer) l.body bits deadline) s2
            (deadline_of-Keeps left s1 (seconds_left-Keeps x world l.w s h)))
    | inr e ↦ rw e (post-Keeps none s h)
  ]

  pub finish-Keeps :
      (a : Answer) (work : Text) (notes : List Note)
      → Keeps x world (finish fuel x world l a work notes)
  unfolding finish
  finish-Keeps a work notes s h = elim (Bool-cases (is_gone a)) [
    | inl e ↦ rw e (forget_gate-Keeps x world l.w s h)
    | inr e ↦ rw e h
  ]

  again-Keeps :
      (bits : ℤ) (notes all : List Note) (r : Attempt)
      → Keeps x world (after fuel x world l bits notes (λ b n. finish fuel x world l b n all) r)
  again-Keeps bits notes all (posted a work) s h = finish-Keeps a work all s h
  again-Keeps bits notes all timed_out s h = h
  again-Keeps bits notes all unfinished s h = h
  again-Keeps bits notes all (failed _) s h = h

  by_new_plan-Keeps :
      (plan new : Plan) (a : Answer) (work : Text) (stop : Option Stop)
      → Keeps x world (by_new_plan fuel x world l plan a work stop new)
  by_new_plan-Keeps plan new a work (some why) s h = h
  by_new_plan-Keeps plan new a work none s h = elim (Bool-cases (ltb_ℤ (pos 0) new.bits)) [
    | inl e ↦
        let (r, s1) = attempt fuel x world l new.bits s in
        rw e (
          again-Keeps new.bits plan.notes (plan.notes ++ new.notes) r s1
            (attempt-Keeps new.bits s h))
    | inr e ↦ rw e (finish-Keeps a work plan.notes s h)
  ]

  -- The gate of a 428 came from the post just made.
  pub gate_in-Came :
      (before : List Request) (a : Answer) (work : Text) (gate : Fields) (s : State)
      → Posted fuel x world l before s.calls a work
      → gate_in a ≡ some gate
      → Came x world s.calls (l.w, some gate)
  unfolding post_request
  gate_in-Came before a work gate s (n, _, calls, answer) g =
      (before, post_request x l n, [], calls, inr (refl, refl, sym g ∙ ap gate_in answer, refl))

  pub note_stated-IsSound :
      (p : ℤ × Bool) (s : State)
      → is_some (lookup l.w s.gates) ≡ true
      → IsSound x world s
      → IsSound x world (note_stated fuel x world l p s).1
  note_stated-IsSound (left, true) s k h = set_left-IsSound x world l.w left s k h
  note_stated-IsSound (left, false) s k h = h

  answer_gate-Keeps :
      (plan : Plan) (a : Answer) (work : Text) (gate : Fields) (s : State)
      → Came x world s.calls (l.w, some gate)
      → IsSound x world s
      → IsSound x world (answer_gate fuel x world l plan a work gate s).1
  unfolding answer_gate
  answer_gate-Keeps plan a work gate s c h =
      let s1 = (keep_gate l.w (some gate) s).1 in
      let s2 = (note_stated fuel x world l (left_in a.body) s1).1 in
      let (left, s3) = left_or_unknown world l.w s2 in
      let new = plan_within world.expected_seconds gate left in
      let kept = keep_gate-IsSound x world l.w (some gate) s c h in
      let noted =
        note_stated-IsSound (left_in a.body) s1 (kept-after x world l.w (some gate) s) kept in
      by_new_plan-Keeps plan new a work new.stop s3 (left_or_unknown-Keeps x world l.w s2 noted)

  answered-Keeps :
      (before : List Request) (plan : Plan) (a : Answer) (work : Text) (s : State)
      → Posted fuel x world l before s.calls a work
      → IsSound x world s
      → (gate : Option Fields) → gate_in a ≡ gate
      → IsSound x world (answered fuel x world l plan a work gate s).1
  unfolding answered
  answered-Keeps before plan a work s p h none g = finish-Keeps a work plan.notes s h
  answered-Keeps before plan a work s p h (some gate) g =
      answer_gate-Keeps plan a work gate s (gate_in-Came before a work gate s p g) h

  first-Keeps :
      (before : List Request) (plan : Plan) (r : Attempt) (s : State)
      → AttemptEnds fuel x world l before s.calls r
      → IsSound x world s
      → IsSound x world
          (after fuel x world l plan.bits plan.notes
            (λ a work. answered fuel x world l plan a work (gate_in a))
            r
            s).1
  first-Keeps before plan (posted a work) s p h =
      answered-Keeps before plan a work s p h (gate_in a) refl
  first-Keeps before plan timed_out s p h = h
  first-Keeps before plan unfinished s p h = h
  first-Keeps before plan (failed _) s p h = h

  by_plan_of-Keeps :
      (plan : Plan) (stop : Option Stop) → Keeps x world (by_plan_of fuel x world l plan stop)
  by_plan_of-Keeps plan (some why) s h = h
  by_plan_of-Keeps plan none s h =
      let (r, s1) = attempt fuel x world l plan.bits s in
      first-Keeps s.calls plan r s1 (attempt-AttemptEnds fuel x world l plan.bits s)
        (attempt-Keeps plan.bits s h)

  send_letter-Keeps : Keeps x world (send_letter fuel x world l)
  unfolding send_letter
  send_letter-Keeps s h =
      let (plan, s1) = plan_to x world l.w s in
      by_plan_of-Keeps plan plan.stop s1 (plan_to-Keeps x world l.w s h)

with_letter-Keeps :
    (fuel : ℕ) (x : External) (world : World) (l : Result Letter)
    → Keeps x world (with_letter fuel x world l)
with_letter-Keeps fuel x world (err e) s h = h
with_letter-Keeps fuel x world (ok l) s h = send_letter-Keeps fuel x world l s h

pub send-Keeps :
    (fuel : ℕ) (x : External) (world : World) (keys : Option Keys) (random w body : Text)
    (opts : SendOptions)
    → Keeps x world (send fuel x world keys random w body opts)
unfolding send
send-Keeps fuel x world keys random w body opts =
    with_letter-Keeps fuel x world (letter_of x keys random w body opts)
