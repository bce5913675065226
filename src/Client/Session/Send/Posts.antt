-- ===== src/Client/Session/Send/Posts.antt =====
-- What Send of client.go posts.
use aamio_go.Prelude.{
  ℕ, ℤ, pos, ltb_ℤ, Bool, not, ◌||◌, List, [], ◌∷◌, ◌++◌, Option, none, some, Text, ◌≡◌, refl,
  subst, length, ◌⊎◌, inl, inr, arith, Bool-cases, ◌∙◌, lookup,
}
use aamio_go.Errors.{Result, ok, err}
use aamio_go.Json.{Fields}
use aamio_go.Json.Keys.{is_some}
use aamio_go.External.{External}
use aamio_go.Gate.Work.{Work, nonce, ran_out, no_fuel, solve_until}
use aamio_go.Gate.Plan.{Plan, Stop, Note, plan_within}
use aamio_go.Client.Http.{Request, Answer}
use aamio_go.Client.Session.{
  World, State, call, read_clock, set_left, seconds_left, left_or_unknown, forget_gate, keep_gate,
  plan_to, plan_once,
}
use aamio_go.Client.Session.Letter.{Letter, signer_key, post_request}
use aamio_go.Client.Session.Cache.{reads, left-calls, count_down-calls, plan_to-calls}
use aamio_go.Client.Session.Send.{
  Sent, sent, stopped, endless, Attempt, posted, timed_out, unfinished, failed, nonce_text, gate_in,
  left_in, is_gone, post, deadline_of, post_worked, worked, attempt, finish, after, note_stated,
  by_new_plan, answer_gate, answered, by_plan_of, send_letter,
}

module _ (fuel : ℕ) (x : External) (world : World) (l : Letter) where
  -- The calls end with a post of the letter with some work, which had this answer.
  abbrev pub Posted : List Request → List Request → Answer → Text → Type 0
  Posted before calls a work =
      (n : Option Text) × (work ≡ nonce_text n)
      × (calls ≡ before ++ post_request x l n ∷ [])
      × (a ≡ world.respond (length before) (post_request x l n))

  abbrev pub AttemptEnds : List Request → List Request → Attempt → Type 0
  AttemptEnds before calls (posted a work) = Posted before calls a work
  AttemptEnds before calls timed_out = calls ≡ before
  AttemptEnds before calls unfinished = calls ≡ before
  AttemptEnds before calls (failed e) = calls ≡ before

  pub post-Posted :
      (n : Option Text) (s : State)
      → AttemptEnds s.calls (post fuel x world l n s).1.calls (post fuel x world l n s).0
  unfolding post call
  post-Posted n s = (n, refl, refl, refl)

  pub post_worked-AttemptEnds :
      (r : Result Work) (s : State)
      → AttemptEnds s.calls
          (post_worked fuel x world l r s).1.calls
          (post_worked fuel x world l r s).0
  post_worked-AttemptEnds (err e) s = refl
  post_worked-AttemptEnds (ok ran_out) s = refl
  post_worked-AttemptEnds (ok no_fuel) s = refl
  post_worked-AttemptEnds (ok (nonce n)) s = post-Posted (some n) s

  pub deadline_of-calls :
      (left : Option ℕ) (s : State) → (deadline_of fuel x world l left s).1.calls ≡ s.calls
  unfolding read_clock
  deadline_of-calls none s = refl
  deadline_of-calls (some left) s = refl

  pub seconds_left-calls : (s : State) → (seconds_left world l.w s).1.calls ≡ s.calls
  unfolding seconds_left
  seconds_left-calls s = count_down-calls x world l.w (lookup l.w s.gate_left) s

  -- The state in which the search for a nonce ends, and how it ends.
  abbrev searched : ℤ → State → State
  searched bits s =
      let (left, s1) = seconds_left world l.w s in (deadline_of fuel x world l left s1).1

  searched-calls : (bits : ℤ) (s : State) → (searched bits s).calls ≡ s.calls
  searched-calls bits s =
      let (left, s1) = seconds_left world l.w s in deadline_of-calls left s1 ∙ seconds_left-calls s

  worked-AttemptEnds :
      (bits : ℤ) (s : State)
      → AttemptEnds s.calls (worked fuel x world l bits s).1.calls (worked fuel x world l bits s).0
  unfolding worked
  worked-AttemptEnds bits s =
      let (left, s1) = seconds_left world l.w s in
      let (deadline, s2) = deadline_of fuel x world l left s1 in
      let r = solve_until fuel l.w (signer_key l.signer) l.body bits deadline in
      let ends = post_worked-AttemptEnds r s2 in
      subst
        (λ c.
          AttemptEnds c (post_worked fuel x world l r s2).1.calls
            (post_worked fuel x world l r s2).0)
        (searched-calls bits s) ends

  pub attempt-AttemptEnds :
      (bits : ℤ) (s : State)
      → AttemptEnds s.calls
          (attempt fuel x world l bits s).1.calls
          (attempt fuel x world l bits s).0
  unfolding attempt
  attempt-AttemptEnds bits s = elim (Bool-cases (ltb_ℤ (pos 0) bits)) [
    | inl e ↦ rw e (worked-AttemptEnds bits s)
    | inr e ↦ rw e (post-Posted none s)
  ]

  -- One post, which a 428 answered, or none.
  abbrev pub Earlier : List Request → List Request → Type 0
  Earlier before mid =
      (mid ≡ before) ⊎ ((a : Answer) × (work : Text) × Posted before mid a work × (a.status ≡ 428))

  -- How a send ends: what was sent is the last post and its answer.
  abbrev pub Ends : List Request → List Request → Result Sent → Type 0
  Ends before calls (ok (sent a bytes work notes)) =
      (bytes ≡ l.body) × ((mid : List Request) × Earlier before mid × Posted mid calls a work)
  Ends before calls (ok (stopped why notes)) = Earlier before calls
  Ends before calls (ok endless) = Earlier before calls
  Ends before calls (err e) = Earlier before calls

  finish-Ends :
      (before mid : List Request) (a : Answer) (work : Text) (notes : List Note) (s : State)
      → Earlier before mid
      → Posted mid s.calls a work
      → Ends before
          (finish fuel x world l a work notes s).1.calls
          (finish fuel x world l a work notes s).0
  unfolding finish forget_gate
  finish-Ends before mid a work notes s e p = elim (Bool-cases (is_gone a)) [
    | inl g ↦ rw g (refl, (mid, e, p))
    | inr g ↦ rw g (refl, (mid, e, p))
  ]

  -- A second attempt, with the notes of both plans.
  again-Ends :
      (before mid : List Request) (bits : ℤ) (notes all : List Note) (r : Attempt) (s : State)
      → Earlier before mid
      → AttemptEnds mid s.calls r
      → Ends before
          (after fuel x world l bits notes (λ b n. finish fuel x world l b n all) r s).1.calls
          (after fuel x world l bits notes (λ b n. finish fuel x world l b n all) r s).0
  again-Ends before mid bits notes all (posted a work) s e p =
      finish-Ends before mid a work all s e p
  again-Ends before mid bits notes all timed_out s e p = rw p e
  again-Ends before mid bits notes all unfinished s e p = rw p e
  again-Ends before mid bits notes all (failed _) s e p = rw p e

  by_new_plan-Ends :
      (before mid : List Request) (plan new : Plan) (a : Answer) (work : Text) (stop : Option Stop)
      (s : State)
      → s.calls ≡ mid
      → Posted before mid a work
      → a.status ≡ 428
      → Ends before
          (by_new_plan fuel x world l plan a work stop new s).1.calls
          (by_new_plan fuel x world l plan a work stop new s).0
  by_new_plan-Ends before mid plan new a work (some why) s c p h = rw c (inr (a, work, p, h))
  by_new_plan-Ends before mid plan new a work none s c p h =
      elim (Bool-cases (ltb_ℤ (pos 0) new.bits)) [
        | inl e ↦
            let (r, s1) = attempt fuel x world l new.bits s in
            let ends = subst (λ d. AttemptEnds d s1.calls r) c (attempt-AttemptEnds new.bits s) in
            rw e (
              again-Ends before mid new.bits plan.notes (plan.notes ++ new.notes) r s1
                (inr (a, work, p, h)) ends)
        | inr e ↦ rw e (finish-Ends before before a work plan.notes s (inl refl) (rw c p))
      ]

  pub note_stated-calls :
      (n : ℤ × Bool) (s : State) → (note_stated fuel x world l n s).1.calls ≡ s.calls
  unfolding set_left read_clock
  note_stated-calls (left, exact) s = ground arith

  answer_gate-Ends :
      (before : List Request) (plan : Plan) (a : Answer) (work : Text) (gate : Fields) (s : State)
      → Posted before s.calls a work
      → a.status ≡ 428
      → Ends before
          (answer_gate fuel x world l plan a work gate s).1.calls
          (answer_gate fuel x world l plan a work gate s).0
  unfolding answer_gate keep_gate
  answer_gate-Ends before plan a work gate s p h =
      let s1 = (keep_gate l.w (some gate) s).1 in
      let s2 = (note_stated fuel x world l (left_in a.body) s1).1 in
      let (left, s3) = left_or_unknown world l.w s2 in
      let new = plan_within world.expected_seconds gate left in
      by_new_plan-Ends before s.calls plan new a work new.stop s3
        (left-calls x world l.w s2 ∙ note_stated-calls (left_in a.body) s1) p h

  answered-Ends :
      (before : List Request) (plan : Plan) (a : Answer) (work : Text) (s : State)
      → Posted before s.calls a work
      → (gate : Option Fields) → gate_in a ≡ gate
      → Ends before
          (answered fuel x world l plan a work gate s).1.calls
          (answered fuel x world l plan a work gate s).0
  unfolding answered gate_in
  answered-Ends before plan a work s p none g =
      finish-Ends before before a work plan.notes s (inl refl) p
  answered-Ends before plan a work s p (some gate) g =
      answer_gate-Ends before plan a work gate s p (ground arith)

  first-Ends :
      (before : List Request) (plan : Plan) (r : Attempt) (s : State)
      → AttemptEnds before s.calls r
      → let end =
          after fuel x world l plan.bits plan.notes
            (λ a work. answered fuel x world l plan a work (gate_in a))
            r
            s in
        Ends before end.1.calls end.0
  first-Ends before plan (posted a work) s p = answered-Ends before plan a work s p (gate_in a) refl
  first-Ends before plan timed_out s p = inl p
  first-Ends before plan unfinished s p = inl p
  first-Ends before plan (failed _) s p = inl p

  by_plan_of-Ends :
      (plan : Plan) (stop : Option Stop) (s : State)
      → Ends s.calls
          (by_plan_of fuel x world l plan stop s).1.calls
          (by_plan_of fuel x world l plan stop s).0
  by_plan_of-Ends plan (some why) s = inl refl
  by_plan_of-Ends plan none s =
      let (r, s1) = attempt fuel x world l plan.bits s in
      first-Ends s.calls plan r s1 (attempt-AttemptEnds plan.bits s)

  -- The calls that PlanTo has made first: at most a read of the gate.
  abbrev pub planned : State → List Request
  planned s =
      s.calls
      ++ reads (not (is_some (lookup l.w s.gates)) || is_some (plan_once x world l.w s).0.stop) l.w

  -- A send reads the gate of the address at most once, when none is kept or the kept one says no,
  -- and then makes no post, one, or two when the first was answered 428, each of the letter to its
  -- address. What is sent is the answer to the last post, with the body and the nonce; a send that
  -- was stopped, failed or had no fuel made no post, or one that was answered 428.
  pub send_letter-Ends :
      (s : State)
      → Ends (planned s) (send_letter fuel x world l s).1.calls (send_letter fuel x world l s).0
  unfolding send_letter
  send_letter-Ends s =
      let (plan, s1) = plan_to x world l.w s in
      let (r, s2) = by_plan_of fuel x world l plan plan.stop s1 in
      subst (λ c. Ends c s2.calls r) (plan_to-calls x world l.w s)
        (by_plan_of-Ends plan plan.stop s1)
