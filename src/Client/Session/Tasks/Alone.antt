-- ===== src/Client/Session/Tasks/Alone.antt =====
-- A task that nothing runs beside does what its call does in Client/Session and Client/Session/Send.
use aamio_go.Prelude.{
  ℕ, ℤ, pos, ltb_ℤ, Bool, true, false, ◌&&◌, List, ◌++◌, Option, none, some, Text, lookup,
  if◌then◌else◌, ◌≡◌, refl, ap, ◌∙◌, Bool-cases, inl, inr,
}
use aamio_go.Errors.{Result, ok, err}
use aamio_go.Json.{Fields}
use aamio_go.Json.Keys.{is_some}
use aamio_go.External.{External}
use aamio_go.Keys.{Keys}
use aamio_go.Gate.Plan.{Plan, Stop, Note, plan_within}
use aamio_go.Client.Http.{Answer}
use aamio_go.Client.Session.{
  World, State, M, left_or_unknown, forget_gate, fetch_gate, kept_or_fetch, gate, plan_once,
  plan_to,
}
use aamio_go.Client.Session.Letter.{Letter, SendOptions, letter_of}
use aamio_go.Client.Session.Send.{
  Sent, Attempt, posted, timed_out, unfinished, failed, gate_in, attempt, worked, finish, after,
  by_new_plan, answer_gate, answered, by_plan_of, send_letter, with_letter, send,
}
use aamio_go.Client.Session.Tasks.{
  Task, returns, does, ◌>>=◌, alone, fetch_task, kept_task, gate_task, plan_once_task,
  plan_again_task, plan_to_task, attempt_task, finish_task, after_task, new_plan_task,
  answered_task, by_plan_task, send_letter_task, with_letter_task, send_task, store_gate,
  store_stated,
}

alone-then :
    {A B : Type 0} (t : Task A) (f : A → Task B) (s : State)
    → alone (t >>= f) s ≡ (let (a, s') = alone t s in alone (f a) s')
alone-then (returns a) f s = refl
alone-then (does m k) f s = alone-then (k (m s).0) f (m s).1

-- The same, with what the first task does known.
alone-after :
    {A B : Type 0} (t : Task A) (f : A → Task B) (s : State) (r : A × State)
    → alone t s ≡ r
    → alone (t >>= f) s ≡ alone (f r.0) r.1
alone-after t f s r e = alone-then t f s ∙ ap (λ r. alone (f r.0) r.1) e

module _ (x : External) (world : World) where
  alone-fetch : (w : Text) (s : State) → alone (fetch_task x world w) s ≡ fetch_gate x world w s
  unfolding fetch_gate store_gate
  alone-fetch w s = refl

  alone-kept :
      (w : Text) (fresh : Bool) (kept : Option (Option Fields)) (s : State)
      → alone (kept_task x world w fresh kept) s ≡ kept_or_fetch x world w fresh kept s
  alone-kept w fresh none s = alone-fetch w s
  alone-kept w true (some g) s = alone-fetch w s
  alone-kept w false (some g) s = refl

  pub alone-gate :
      (w : Text) (fresh : Bool) (s : State)
      → alone (gate_task x world w fresh) s ≡ gate x world w fresh s
  unfolding gate
  alone-gate w fresh s = alone-kept w fresh (lookup w s.gates) s

  alone-plan_once :
      (w : Text) (s : State) → alone (plan_once_task x world w) s ≡ plan_once x world w s
  unfolding plan_once left_or_unknown
  alone-plan_once w s =
      alone-after (gate_task x world w false) _ s (gate x world w false s) (alone-gate w false s)

  pub alone-plan_to :
      (w : Text) (s : State) → alone (plan_to_task x world w) s ≡ plan_to x world w s
  unfolding plan_to
  alone-plan_to w s =
      alone-after (plan_once_task x world w) _ s (plan_once x world w s) (alone-plan_once w s)
      ∙ then_again (plan_once x world w s).0
          (is_some (plan_once x world w s).0.stop && is_some (lookup w s.gates))
          (plan_once x world w s).1
    where
      then_again :
          (plan : Plan) (again : Bool) (s : State)
          → alone (plan_again_task x world w plan again) s
            ≡ (if again then plan_once x world w (forget_gate w s).1 else (plan, s))
      then_again plan true s = alone-plan_once w (forget_gate w s).1
      then_again plan false s = refl

  module _ (fuel : ℕ) (l : Letter) where
    alone-attempt :
        (bits : ℤ) (s : State)
        → alone (attempt_task x world fuel l bits) s ≡ attempt fuel x world l bits s
    unfolding attempt worked attempt_task
    alone-attempt bits s = elim (Bool-cases (ltb_ℤ (pos 0) bits)) [
      | inl e ↦ rw e refl
      | inr e ↦ rw e refl
    ]

    -- What follows an attempt is the same, if what follows a post is.
    alone-rest :
        (bits : ℤ) (notes : List Note) (go : Answer → Text → Task (Result Sent))
        (go' : Answer → Text → M (Result Sent))
        → ((a : Answer) (work : Text) (s : State) → alone (go a work) s ≡ go' a work s)
        → (r : Attempt) (s : State)
        → alone (after_task x world fuel l bits notes go r) s
          ≡ after fuel x world l bits notes go' r s
    alone-rest bits notes go go' same (posted a work) s = same a work s
    alone-rest bits notes go go' same timed_out s = refl
    alone-rest bits notes go go' same unfinished s = refl
    alone-rest bits notes go go' same (failed e) s = refl

    alone-attempt_then :
        (bits : ℤ) (notes : List Note) (go : Answer → Text → Task (Result Sent))
        (go' : Answer → Text → M (Result Sent))
        → ((a : Answer) (work : Text) (s : State) → alone (go a work) s ≡ go' a work s)
        → (s : State)
        → alone (attempt_task x world fuel l bits >>= after_task x world fuel l bits notes go) s ≡ (
            let (r, s') = attempt fuel x world l bits s in after fuel x world l bits notes go' r s')
    alone-attempt_then bits notes go go' same s =
        let (r, s') = attempt fuel x world l bits s in
        alone-after (attempt_task x world fuel l bits) _ s (r, s') (alone-attempt bits s)
        ∙ alone-rest bits notes go go' same r s'

    alone-new_plan :
        (plan : Plan) (a : Answer) (work : Text) (stop : Option Stop) (new : Plan) (s : State)
        → alone (new_plan_task x world fuel l plan a work stop new) s
          ≡ by_new_plan fuel x world l plan a work stop new s
    alone-new_plan plan a work (some why) new s = refl
    alone-new_plan plan a work none new s = elim (Bool-cases (ltb_ℤ (pos 0) new.bits)) [
      | inl e ↦ rw e (
          alone-attempt_then new.bits plan.notes
            (λ b nonce. finish_task x world fuel l b nonce (plan.notes ++ new.notes))
            (λ b nonce. finish fuel x world l b nonce (plan.notes ++ new.notes)) (λ b nonce s. refl)
            s)
      | inr e ↦ rw e refl
    ]

    alone-answered :
        (plan : Plan) (a : Answer) (work : Text) (gate : Option Fields) (s : State)
        → alone (answered_task x world fuel l plan a work gate) s
          ≡ answered fuel x world l plan a work gate s
    unfolding answered answer_gate store_stated left_or_unknown
    alone-answered plan a work none s = refl
    alone-answered plan a work (some g) s =
        let s1 = (store_stated x world fuel l a g s).1 in
        let (left, s2) = left_or_unknown world l.w s1 in
        let new = plan_within world.expected_seconds g left in
        alone-new_plan plan a work new.stop new s2

    alone-by_plan :
        (plan : Plan) (stop : Option Stop) (s : State)
        → alone (by_plan_task x world fuel l plan stop) s ≡ by_plan_of fuel x world l plan stop s
    alone-by_plan plan (some why) s = refl
    alone-by_plan plan none s =
        alone-attempt_then plan.bits plan.notes _ _
          (λ a work. alone-answered plan a work (gate_in a)) s

    alone-send_letter :
        (s : State) → alone (send_letter_task x world fuel l) s ≡ send_letter fuel x world l s
    unfolding send_letter
    alone-send_letter s =
        let (plan, s') = plan_to x world l.w s in
        alone-after (plan_to_task x world l.w) _ s (plan, s') (alone-plan_to l.w s)
        ∙ alone-by_plan plan plan.stop s'

  alone-with_letter :
      (fuel : ℕ) (l : Result Letter) (s : State)
      → alone (with_letter_task x world fuel l) s ≡ with_letter fuel x world l s
  alone-with_letter fuel (ok l) s = alone-send_letter fuel l s
  alone-with_letter fuel (err e) s = refl

  pub alone-send :
      (fuel : ℕ) (keys : Option Keys) (random w body : Text) (opts : SendOptions) (s : State)
      → alone (send_task x world fuel keys random w body opts) s
        ≡ send fuel x world keys random w body opts s
  unfolding send
  alone-send fuel keys random w body opts s =
      alone-with_letter fuel (letter_of x keys random w body opts) s
