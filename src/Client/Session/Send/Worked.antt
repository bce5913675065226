-- ===== src/Client/Session/Send/Worked.antt =====
-- The work that Send of client.go does.
use aamio_go.Prelude.{
  ℕ, ℤ, pos, ltb_ℤ, ◌≤ℤ◌, ◌<ℤ◌, ◌<◌, Bool, List, Option, Text, ◌≡◌, refl, subst, itoa, inl, inr,
  arith, Bool-cases,
}
use aamio_go.Errors.{Result, ok, err}
use aamio_go.External.{External}
use aamio_go.Gate.Work.{Work, nonce, ran_out, no_fuel, solve_until}
use aamio_go.Gate.Work.Search.{strength, solve_until-Ends}
use aamio_go.Gate.Plan.{Note}
use aamio_go.Client.Http.{Answer}
use aamio_go.Client.Session.{World, State, seconds_left}
use aamio_go.Client.Session.Letter.{Letter, signer_key}
use aamio_go.Client.Session.Send.{
  Sent, sent, stopped, endless, Attempt, posted, timed_out, unfinished, failed, post, deadline_of,
  post_worked, worked, attempt, finish, is_gone, send_letter,
}
use aamio_go.Client.Session.Send.Cases.{Asked, Rule, send_letter-P}

module _ (fuel : ℕ) (x : External) (world : World) (l : Letter) where
  -- The zero bits of a nonce, for the letter.
  abbrev power : Text → ℕ
  power work = strength l.w (signer_key l.signer) l.body work

  -- No number below the fuel has the bits, of which at most 32 are asked for.
  abbrev pub Short : ℤ → Type 0
  Short bits = (bits ≤ℤ pos 32) × ((j : ℕ) → j < fuel → pos (power (itoa j)) <ℤ bits)

  abbrev Worked : ℤ → Attempt → Type 0
  Worked bits (posted a work) = bits ≤ℤ pos (power work)
  Worked bits timed_out = Unit
  Worked bits unfinished = Short bits
  Worked bits (failed e) = Unit

  post_worked-Worked :
      (bits : ℤ) (deadline : Option (ℕ → Bool)) (r : Result Work) (s : State)
      → solve_until fuel l.w (signer_key l.signer) l.body bits deadline ≡ r
      → Worked bits (post_worked fuel x world l r s).0
  unfolding post solve_until
  post_worked-Worked bits deadline (err e) s h = tt
  post_worked-Worked bits deadline (ok ran_out) s h = tt
  post_worked-Worked bits deadline (ok no_fuel) s h =
      (ground arith, solve_until-Ends fuel l.w (signer_key l.signer) l.body bits deadline no_fuel h)
  post_worked-Worked bits deadline (ok (nonce n)) s h =
      let (m, e, enough, rest) =
        solve_until-Ends fuel l.w (signer_key l.signer) l.body bits deadline (nonce n) h in
      enough

  attempt-Worked : (bits : ℤ) (s : State) → Worked bits (attempt fuel x world l bits s).0
  unfolding attempt worked post
  attempt-Worked bits s = elim (Bool-cases (ltb_ℤ (pos 0) bits)) [
    | inl e ↦
        let (left, s1) = seconds_left world l.w s in
        let (deadline, s2) = deadline_of fuel x world l left s1 in
        rw e (
          post_worked-Worked bits deadline
            (solve_until fuel l.w (signer_key l.signer) l.body bits deadline) s2 refl)
    | inr e ↦ rw e (ground arith)
  ]

  -- What an attempt posts has as many zero bits of work as were asked of it.
  attempt-posted :
      (bits : ℤ) (s : State) (a : Answer) (work : Text)
      → (attempt fuel x world l bits s).0 ≡ posted a work
      → bits ≤ℤ pos (power work)
  attempt-posted bits s a work h = subst (λ r. Worked bits r) h (attempt-Worked bits s)

  abbrev Hangs : State → Result Sent → Type 0
  Hangs start (ok endless) = (bits : ℤ) × Asked fuel x world l start bits × Short bits
  Hangs start (ok (sent a bytes work notes)) = Unit
  Hangs start (ok (stopped why notes)) = Unit
  Hangs start (err e) = Unit

  hangs : (start : State) → Rule fuel x world l start (λ r s. Hangs start r)
  unfolding finish
  hangs start = record {
    finishes = λ a work notes s. finish-Hangs a work notes s;
    stops = λ why notes s. tt;
    fails = λ e s. tt;
    hangs = λ bits s asked h. (bits, asked, subst (λ r. Worked bits r) h (attempt-Worked bits s));
  }
    where
      finish-Hangs :
          (a : Answer) (work : Text) (notes : List Note) (s : State)
          → Hangs start (finish fuel x world l a work notes s).0
      finish-Hangs a work notes s = elim (Bool-cases (is_gone a)) [
        | inl e ↦ rw e tt
        | inr e ↦ rw e tt
      ]

  -- Send comes to an end unless it is asked for some number of bits, at most 32, that the nonce of
  -- no number below the fuel has: by its plan, or by the plan that the gate in the answer to its
  -- first post gives.
  pub send_letter-endless :
      (s : State)
      → (send_letter fuel x world l s).0 ≡ ok endless
      → (bits : ℤ) × Asked fuel x world l s bits × Short bits
  send_letter-endless s h =
      subst (λ r. Hangs s r) h (send_letter-P fuel x world l s (λ r t. Hangs s r) (hangs s))
