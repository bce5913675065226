-- ===== src/Client/Session/Send/Cases.antt =====
-- The ways in which Send of client.go ends, as a rule for what holds however it ends.
use aamio_go.Prelude.{
  ℕ, ℤ, pos, ltb_ℤ, ◌++◌, List, Option, none, some, Text, ◌≡◌, refl, ap, subst, ◌⊎◌, inl, inr,
  Bool-cases,
}
use aamio_go.Errors.{Error, Result, ok, err}
use aamio_go.Json.{Fields}
use aamio_go.External.{External}
use aamio_go.Gate.Plan.{Plan, Stop, Note, plan_within}
use aamio_go.Client.Http.{Answer}
use aamio_go.Client.Session.{World, State, left_or_unknown, keep_gate, plan_to}
use aamio_go.Client.Session.Letter.{Letter}
use aamio_go.Client.Session.Send.{
  Why, Sent, stopped, endless, Attempt, posted, timed_out, unfinished, failed, gate_in, left_in,
  attempt, finish, after, note_stated, by_new_plan, answer_gate, answered, by_plan_of, send_letter,
}

module _ (fuel : ℕ) (x : External) (world : World) (l : Letter) where
  -- The time left after an answer to a post with a gate, from the state when it was there.
  abbrev left_after : Answer → Fields → State → ℤ
  left_after a gate s =
      let s1 = (keep_gate l.w (some gate) s).1 in
      let s2 = (note_stated fuel x world l (left_in a.body) s1).1 in
      (left_or_unknown world l.w s2).0

  -- The bits that a send from a state is asked for: those of its plan, or of the plan that the gate
  -- in the answer to its first post gives.
  abbrev pub Asked : State → ℤ → Type 0
  Asked start bits =
      let plan = (plan_to x world l.w start).0 in
      let s = (plan_to x world l.w start).1 in
      (bits ≡ plan.bits)
      ⊎ ((a : Answer) × (work : Text) × (gate : Fields) × (s' : State) × (attempt fuel x world l
              plan.bits s
            ≡ (posted a work, s'))
          × (gate_in a ≡ some gate)
          × (bits ≡ (plan_within world.expected_seconds gate (left_after a gate s')).bits))

-- P holds of what is sent, of a stop, of an error, and of work that has no fuel.
pub record Rule (fuel : ℕ) (x : External) (world : World) (l : Letter) (start : State)
    (P : Result Sent → State → Type 0) : Type 0 where
  pub finishes :
      (a : Answer) (work : Text) (notes : List Note) (s : State)
      → P (finish fuel x world l a work notes s).0 (finish fuel x world l a work notes s).1
  pub stops : (why : Why) (notes : List Note) (s : State) → P (ok (stopped why notes)) s
  pub fails : (e : Error) (s : State) → P (err e) s
  pub hangs :
      (bits : ℤ) (s : State)
      → Asked fuel x world l start bits
      → (attempt fuel x world l bits s).0 ≡ unfinished
      → P (ok endless) (attempt fuel x world l bits s).1

module _ (fuel : ℕ) (x : External) (world : World) (l : Letter) (first : State)
    (P : Result Sent → State → Type 0) (rule : Rule fuel x world l first P) where
  again-P :
      (bits : ℤ) (notes all : List Note) (start : State) (r : Attempt) (s : State)
      → Asked fuel x world l first bits
      → attempt fuel x world l bits start ≡ (r, s)
      → let end = after fuel x world l bits notes (λ b n. finish fuel x world l b n all) r s in
        P end.0 end.1
  again-P bits notes all start (posted a work) s asked e = rule.finishes a work all s
  again-P bits notes all start timed_out s asked e = rule.stops _ _ s
  again-P bits notes all start unfinished s asked e =
      subst (λ t. P (ok endless) t) (ap (λ p. p.1) e)
        (rule.hangs bits start asked (ap (λ p. p.0) e))
  again-P bits notes all start (failed _) s asked e = rule.fails _ s

  by_new_plan-P :
      (plan new : Plan) (a : Answer) (work : Text) (stop : Option Stop) (s : State)
      → Asked fuel x world l first new.bits
      → P
          (by_new_plan fuel x world l plan a work stop new s).0
          (by_new_plan fuel x world l plan a work stop new s).1
  by_new_plan-P plan new a work (some why) s asked = rule.stops _ _ s
  by_new_plan-P plan new a work none s asked = elim (Bool-cases (ltb_ℤ (pos 0) new.bits)) [
    | inl e ↦
        let (r, s1) = attempt fuel x world l new.bits s in
        rw e (again-P new.bits plan.notes (plan.notes ++ new.notes) s r s1 asked refl)
    | inr e ↦ rw e (rule.finishes a work plan.notes s)
  ]

  answered-P :
      (plan : Plan) (a : Answer) (work : Text) (gate : Option Fields) (s : State)
      → ((g : Fields)
          → gate ≡ some g
          → Asked fuel x world l first
              (plan_within world.expected_seconds g (left_after fuel x world l a g s)).bits)
      → P
          (answered fuel x world l plan a work gate s).0
          (answered fuel x world l plan a work gate s).1
  unfolding answered answer_gate
  answered-P plan a work none s asked = rule.finishes a work plan.notes s
  answered-P plan a work (some gate) s asked =
      let s1 = (keep_gate l.w (some gate) s).1 in
      let s2 = (note_stated fuel x world l (left_in a.body) s1).1 in
      let (left, s3) = left_or_unknown world l.w s2 in
      let new = plan_within world.expected_seconds gate left in
      by_new_plan-P plan new a work new.stop s3 (asked gate refl)

  abbrev plan : Plan
  plan = (plan_to x world l.w first).0

  abbrev planned : State
  planned = (plan_to x world l.w first).1

  first-P :
      (r : Attempt) (s : State)
      → attempt fuel x world l plan.bits planned ≡ (r, s)
      → let end =
          after fuel x world l plan.bits plan.notes
            (λ a work. answered fuel x world l plan a work (gate_in a))
            r
            s in
        P end.0 end.1
  first-P (posted a work) s e =
      answered-P plan a work (gate_in a) s λ g h. inr (a, work, g, s, e, h, refl)
  first-P timed_out s e = rule.stops _ _ s
  first-P unfinished s e =
      subst (λ t. P (ok endless) t) (ap (λ p. p.1) e)
        (rule.hangs plan.bits planned (inl refl) (ap (λ p. p.0) e))
  first-P (failed _) s e = rule.fails _ s

  by_plan_of-P :
      (stop : Option Stop)
      → P
          (by_plan_of fuel x world l plan stop planned).0
          (by_plan_of fuel x world l plan stop planned).1
  by_plan_of-P (some why) = rule.stops _ _ planned
  by_plan_of-P none = let (r, s1) = attempt fuel x world l plan.bits planned in first-P r s1 refl

  pub send_letter-P : P (send_letter fuel x world l first).0 (send_letter fuel x world l first).1
  unfolding send_letter
  send_letter-P = by_plan_of-P plan.stop
