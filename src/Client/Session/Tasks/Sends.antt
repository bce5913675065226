-- ===== src/Client/Session/Tasks/Sends.antt =====
-- Send, in parts, keeps what holds of a client when others run between its parts.
use aamio_go.Prelude.{
  ℕ, ℤ, pos, ltb_ℤ, List, ◌++◌, Option, none, some, Text, ◌≡◌, refl, Bool-cases, inl, inr,
}
use aamio_go.Errors.{Result, ok, err}
use aamio_go.Json.{Fields}
use aamio_go.External.{External}
use aamio_go.Keys.{Keys}
use aamio_go.Gate.Work.{Work, solve_until}
use aamio_go.Gate.Plan.{Plan, Stop, Note, plan_within}
use aamio_go.Client.Http.{Request, Answer}
use aamio_go.Client.Session.{World, State, seconds_left, or_unknown, keep_gate, forget_gate}
use aamio_go.Client.Session.Invariant.{IsSound, Came, keep_gate-IsSound, kept-after}
use aamio_go.Client.Session.Letter.{Letter, SendOptions, signer_key, letter_of}
use aamio_go.Client.Session.Send.{
  Sent, Attempt, posted, timed_out, unfinished, failed, gate_in, left_in, is_gone, post,
  deadline_of, post_worked, finish,
}
use aamio_go.Client.Session.Send.Posts.{
  AttemptEnds, post-Posted, post_worked-AttemptEnds, deadline_of-calls, note_stated-calls,
}
use aamio_go.Client.Session.Send.Sound.{
  post-Keeps, post_worked-Keeps, deadline_of-Keeps, finish-Keeps, gate_in-Came, note_stated-IsSound,
}
use aamio_go.Client.Session.Tasks.{
  Task, attempt_task, finish_task, after_task, new_plan_task, store_stated, answered_task,
  by_plan_task, send_letter_task, with_letter_task, send_task, plan_to_task,
}
use aamio_go.Client.Session.Tasks.Holds.{
  Extends, Extends-refl, Extends-same, Came-later, Good, Holds, Any, Holds-then, seconds_left-Good,
  plan_to-Holds,
}

module _ (x : External) (world : World) (fuel : ℕ) (l : Letter) where
  -- A gate in the answer to what was posted came from the service.
  abbrev FromPost : List Request → Attempt → Type 0
  FromPost calls (posted a work) =
      (gate : Fields) → gate_in a ≡ some gate → Came x world calls (l.w, some gate)
  FromPost calls timed_out = Unit
  FromPost calls unfinished = Unit
  FromPost calls (failed e) = Unit

  AttemptEnds-FromPost :
      (before : List Request) (r : Attempt) (s : State)
      → AttemptEnds fuel x world l before s.calls r
      → FromPost s.calls r × Extends before s.calls
  AttemptEnds-FromPost before (posted a work) s (n, w, calls, answer) = (
    λ gate g. gate_in-Came fuel x world l before a work gate s (n, w, calls, answer) g,
    (_, calls),
  )
  AttemptEnds-FromPost before timed_out s e = (tt, Extends-same e)
  AttemptEnds-FromPost before unfinished s e = (tt, Extends-same e)
  AttemptEnds-FromPost before (failed _) s e = (tt, Extends-same e)

  post-Holds :
      (n : Option Text) (s : State)
      → IsSound x world s
      → Good x world (post fuel x world l n) s
        × FromPost (post fuel x world l n s).1.calls (post fuel x world l n s).0
  post-Holds n s h =
      let (r, s1) = post fuel x world l n s in
      let (from, extends) = AttemptEnds-FromPost s.calls r s1 (post-Posted fuel x world l n s) in
      ((post-Keeps fuel x world l n s h, extends), from)

  post_worked-Holds :
      (r : Result Work) (s : State)
      → IsSound x world s
      → Good x world (post_worked fuel x world l r) s
        × FromPost (post_worked fuel x world l r s).1.calls (post_worked fuel x world l r s).0
  post_worked-Holds r s h =
      let (a, s1) = post_worked fuel x world l r s in
      let (from, extends) =
        AttemptEnds-FromPost s.calls a s1 (post_worked-AttemptEnds fuel x world l r s) in
      ((post_worked-Keeps fuel x world l r s h, extends), from)

  deadline_of-Good :
      (left : Option ℕ) (s : State)
      → IsSound x world s
      → Good x world (deadline_of fuel x world l left) s
  deadline_of-Good left s h = (
    deadline_of-Keeps fuel x world l left s h,
    Extends-same (deadline_of-calls fuel x world l left s),
  )

  attempt-Holds :
      (bits : ℤ) (calls : List Request)
      → Holds x world FromPost calls (attempt_task x world fuel l bits)
  unfolding attempt_task
  attempt-Holds bits calls = elim (Bool-cases (ltb_ℤ (pos 0) bits)) [
    | inl e ↦ rw e (λ s _ h. (
      seconds_left-Good x world l.w s h,
      λ s' _ h'.
          let left = (seconds_left world l.w s).0 in
          (
            deadline_of-Good left s' h',
            λ s'' _ h''.
                post_worked-Holds
                  (solve_until fuel l.w (signer_key l.signer) l.body bits
                    (deadline_of fuel x world l left s').0)
                  s'' h'',
          ),
    ))
    | inr e ↦ rw e (λ s _ h. post-Holds none s h)
  ]

  finish-Extends :
      (a : Answer) (work : Text) (notes : List Note) (s : State)
      → Extends s.calls (finish fuel x world l a work notes s).1.calls
  unfolding finish forget_gate
  finish-Extends a work notes s = elim (Bool-cases (is_gone a)) [
    | inl e ↦ rw e (Extends-refl s.calls)
    | inr e ↦ rw e (Extends-refl s.calls)
  ]

  finish-Holds :
      (a : Answer) (work : Text) (notes : List Note) (calls : List Request)
      → Holds x world Any calls (finish_task x world fuel l a work notes)
  finish-Holds a work notes calls =
      λ s _ h. ((finish-Keeps fuel x world l a work notes s h, finish-Extends a work notes s), tt)

  after-Holds :
      (bits : ℤ) (notes : List Note) (go : Answer → Text → Task (Result Sent))
      → ((now : List Request) (a : Answer) (work : Text)
          → FromPost now (posted a work)
          → Holds x world Any now (go a work))
      → (now : List Request) (r : Attempt) → FromPost now r
      → Holds x world Any now (after_task x world fuel l bits notes go r)
  after-Holds bits notes go h now (posted a work) f = h now a work f
  after-Holds bits notes go h now timed_out f = tt
  after-Holds bits notes go h now unfinished f = tt
  after-Holds bits notes go h now (failed e) f = tt

  new_plan-Holds :
      (plan : Plan) (a : Answer) (work : Text) (stop : Option Stop) (new : Plan)
      (calls : List Request)
      → Holds x world Any calls (new_plan_task x world fuel l plan a work stop new)
  new_plan-Holds plan a work (some why) new calls = tt
  new_plan-Holds plan a work none new calls = elim (Bool-cases (ltb_ℤ (pos 0) new.bits)) [
    | inl e ↦
        let notes = plan.notes ++ new.notes in
        rw e (
          Holds-then x world FromPost Any (attempt_task x world fuel l new.bits) _ calls
            (attempt-Holds new.bits calls)
            (after-Holds new.bits plan.notes (λ b nonce. finish_task x world fuel l b nonce notes)
              (λ now b nonce _. finish-Holds b nonce notes now)))
    | inr e ↦ rw e (finish-Holds a work plan.notes calls)
  ]

  store_stated-Good :
      (a : Answer) (gate : Fields) (s : State)
      → Came x world s.calls (l.w, some gate)
      → IsSound x world s
      → Good x world (store_stated x world fuel l a gate) s
  unfolding store_stated keep_gate
  store_stated-Good a gate s came h =
      let (_, s1) = keep_gate l.w (some gate) s in
      (
        note_stated-IsSound fuel x world l (left_in a.body) s1
            (kept-after x world l.w (some gate) s)
            (keep_gate-IsSound x world l.w (some gate) s came h),
        Extends-same (note_stated-calls fuel x world l (left_in a.body) s1),
      )

  answered-Holds :
      (plan : Plan) (a : Answer) (work : Text) (gate : Option Fields) (now : List Request)
      → gate_in a ≡ gate
      → FromPost now (posted a work)
      → Holds x world Any now (answered_task x world fuel l plan a work gate)
  answered-Holds plan a work none now e f = finish-Holds a work plan.notes now
  answered-Holds plan a work (some gate) now e f = λ s later h. (
    store_stated-Good a gate s (Came-later x world (l.w, some gate) (f gate e) later) h,
    λ s' _ h'.
        let left = (seconds_left world l.w s').0 in
        let new = plan_within world.expected_seconds gate (or_unknown world left) in
        (
          seconds_left-Good x world l.w s' h',
          new_plan-Holds plan a work new.stop new (seconds_left world l.w s').1.calls,
        ),
  )

  by_plan-Holds :
      (plan : Plan) (stop : Option Stop) (calls : List Request)
      → Holds x world Any calls (by_plan_task x world fuel l plan stop)
  by_plan-Holds plan (some why) calls = tt
  by_plan-Holds plan none calls =
      Holds-then x world FromPost Any (attempt_task x world fuel l plan.bits) _ calls
        (attempt-Holds plan.bits calls)
        (after-Holds plan.bits plan.notes
          (λ a work. answered_task x world fuel l plan a work (gate_in a))
          (λ now a work. answered-Holds plan a work (gate_in a) now refl))

  send_letter-Holds :
      (calls : List Request) → Holds x world Any calls (send_letter_task x world fuel l)
  send_letter-Holds calls =
      Holds-then x world Any Any (plan_to_task x world l.w) _ calls
        (plan_to-Holds x world l.w calls) (λ now plan _. by_plan-Holds plan plan.stop now)

with_letter-Holds :
    (x : External) (world : World) (fuel : ℕ) (l : Result Letter) (calls : List Request)
    → Holds x world Any calls (with_letter_task x world fuel l)
with_letter-Holds x world fuel (err e) calls = tt
with_letter-Holds x world fuel (ok l) calls = send_letter-Holds x world fuel l calls

pub send-Holds :
    (x : External) (world : World) (fuel : ℕ) (keys : Option Keys) (random w body : Text)
    (opts : SendOptions) (calls : List Request)
    → Holds x world Any calls (send_task x world fuel keys random w body opts)
send-Holds x world fuel keys random w body opts calls =
    with_letter-Holds x world fuel (letter_of x keys random w body opts) calls
