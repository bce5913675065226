-- ===== src/Client/Session/Send/Gone.antt =====
-- Send of client.go and the gate of an inbox that a post found gone.
use aamio_go.Prelude.{
  ℕ, true, List, none, Text, ◌≡◌, refl, subst, lookup, lookup-erase, text_eq_refl, inl, inr,
  Bool-cases, ◌∙◌,
}
use aamio_go.Errors.{Result, ok, err}
use aamio_go.External.{External}
use aamio_go.Gate.Plan.{Note}
use aamio_go.Client.Http.{Answer}
use aamio_go.Client.Session.{World, State, forget_gate}
use aamio_go.Client.Session.Letter.{Letter}
use aamio_go.Client.Session.Send.Cases.{Rule, send_letter-P}
use aamio_go.Client.Session.Send.{Sent, sent, stopped, endless, is_gone, finish, send_letter}

module _ (fuel : ℕ) (x : External) (world : World) (l : Letter) where
  -- When what was sent found the inbox gone, neither its gate nor its time is kept.
  abbrev Forgotten : Result Sent → State → Type 0
  Forgotten (ok (sent a bytes work notes)) s =
      is_gone a ≡ true → (lookup l.w s.gates ≡ none) × (lookup l.w s.gate_left ≡ none)
  Forgotten (ok (stopped why notes)) s = Unit
  Forgotten (ok endless) s = Unit
  Forgotten (err e) s = Unit

  finish-Forgotten :
      (a : Answer) (work : Text) (notes : List Note) (s : State)
      → Forgotten (finish fuel x world l a work notes s).0 (finish fuel x world l a work notes s).1
  unfolding finish forget_gate
  finish-Forgotten a work notes s = elim (Bool-cases (is_gone a)) [
    | inl g ↦ rw g (λ h. (
      lookup-erase l.w l.w s.gates ∙ (rw (text_eq_refl l.w) refl),
      lookup-erase l.w l.w s.gate_left ∙ (rw (text_eq_refl l.w) refl),
    ))
    | inr g ↦ rw g (λ h. absurd cc)
  ]

  forgotten : (start : State) → Rule fuel x world l start Forgotten
  forgotten start = record {
    finishes = finish-Forgotten;
    stops = λ why notes s. tt;
    fails = λ e s. tt;
    hangs = λ bits s asked h. tt;
  }

  -- When what was sent was answered by a 404 or a 410, Send keeps neither the gate of the address
  -- nor the time that the gate said: the next send to it reads what is there then.
  pub send_letter-gone :
      (s : State) (a : Answer) (bytes work : Text) (notes : List Note)
      → (send_letter fuel x world l s).0 ≡ ok (sent a bytes work notes)
      → is_gone a ≡ true
      → let s' = (send_letter fuel x world l s).1 in
        (lookup l.w s'.gates ≡ none) × (lookup l.w s'.gate_left ≡ none)
  send_letter-gone s a bytes work notes h =
      subst (λ r. Forgotten r (send_letter fuel x world l s).1) h
        (send_letter-P fuel x world l s Forgotten (forgotten s))
