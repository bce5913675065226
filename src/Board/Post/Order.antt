-- ===== src/Board/Post/Order.antt =====
-- What Post and Withdraw of board.go ask, and in which order.
use aamio_go.Prelude.{
  ℕ, ◌≤ℤ◌, ◌<ℤ◌, arith, ℤ, pos, ltb_ℤ, Bool, true, false, ◌&&◌, not, List, [], ◌∷◌, ◌++◌, Option,
  none, some, Text, codes, is_empty, ◌≡◌, refl, sym, length, lookup, text_eq, ◌⊎◌, inl, inr,
  Bool-cases, if◌then◌else◌, ◌==◌, append-nil,
}
use aamio_go.Errors.{Result, ok, err}
use aamio_go.Json.{Fields}
use aamio_go.External.{External, SignsWell}
use aamio_go.Address.{is_w}
use aamio_go.Keys.{Keys, from_seed, sign, board_signing_input, board_delete_signing_input}
use aamio_go.Keys.Signing.{verify-sign}
use aamio_go.Gate.Work.{Work, nonce, ran_out, no_fuel, solve_board}
use aamio_go.Client.Http.{Request, Answer, board}
use aamio_go.Client.Allow.{star}
use aamio_go.Client.Read.{Thread}
use aamio_go.Client.Session.{World, State, call}
use aamio_go.Client.Requests.{json, request, open_thread}
use aamio_go.Client.Requests.Signed.{IsSigned}
use aamio_go.Json.Keys.{is_some}
use aamio_go.Board.{advised_bits}
use aamio_go.Board.Post.Said.{Says, post_fields-Says}
use aamio_go.Board.Post.{
  board_ttl, inbox_margin, plus, or_ttl, PostOptions, Draft, Posted, posted, unfinished,
  post_fields, described, descriptor, descriptor_of, keep_descriptor, board_request, put_up,
  put_up_worked, put_up_advised, post_with, post, withdraw_request,
}

module _ (fuel : ℕ) (x : External) (world : World) (draw : ℕ → Option ℕ) where
  abbrev pub descriptor_request : Request
  descriptor_request = request board (codes "GET") (codes "/.well-known/aamio-board.json") none []

  -- One read of the descriptor, or none.
  abbrev pub looks : Bool → List Request
  looks b = if b then descriptor_request ∷ [] else []

  descriptor_of-calls :
      (kept : Option Fields) (s : State)
      → (descriptor_of fuel x world draw kept s).1.calls ≡ s.calls ++ looks (not (is_some kept))
  unfolding keep_descriptor call
  descriptor_of-calls (some m) s = sym (append-nil s.calls)
  descriptor_of-calls none s = refl

  -- The descriptor that was read, or else the one that the next answer gives.
  abbrev pub descriptor_now : Option Fields → Answer → Fields
  descriptor_now (some m) a = m
  descriptor_now none a = described fuel x world draw a a.body

  descriptor_of-now :
      (kept : Option Fields) (s : State)
      → (descriptor_of fuel x world draw kept s).0
        ≡ descriptor_now kept (world.respond (length s.calls) descriptor_request)
  unfolding keep_descriptor call
  descriptor_of-now (some m) s = refl
  descriptor_of-now none s = refl

  module _ (k : Keys) (body : Text) (inbox : Thread × Answer) (bits : ℤ) where
    -- A request that puts the body up, with its work.
    abbrev pub IsPutUp : Option Text → Request → Type 0
    IsPutUp work r =
        (r.service ≡ board)
        × (r.method ≡ codes "POST")
        × (r.path ≡ codes "/")
        × (r.body ≡ some body)
        × (lookup (codes "X-Key") r.headers ≡ some k.public)
        × (lookup (codes "X-Work") r.headers ≡ work)

    -- No work for no bits, and otherwise what the search for the bits finds.
    abbrev pub WorkOf : Option Text → Type 0
    WorkOf none = bits ≤ℤ pos 0
    WorkOf (some n) = (pos 0 <ℤ bits) × (solve_board fuel k.public body bits ≡ ok (nonce n))

    -- What was put up is the answer to the last request, a post of the body with the work for it;
    -- nothing is put up when the search for it does not end, or refuses the bits.
    abbrev pub Ends : List Request → List Request → Result Posted → Type 0
    Ends before calls (ok (posted a inbox')) =
        (inbox' ≡ inbox)
        × (work : Option Text) × (r : Request) × WorkOf work
        × IsPutUp work r
        × (calls ≡ before ++ r ∷ [])
        × (a ≡ world.respond (length before) r)
    Ends before calls (ok unfinished) = (calls ≡ before) × (pos 0 <ℤ bits)
    Ends before calls (err e) = (calls ≡ before) × (solve_board fuel k.public body bits ≡ err e)

    board_request-IsPutUp :
        (work : Option Text) → IsPutUp work (board_request fuel x world draw k body work)
    unfolding board_request lookup text_eq
    board_request-IsPutUp none = (refl, refl, refl, refl, refl, refl)
    board_request-IsPutUp (some n) = (refl, refl, refl, refl, refl, refl)

    put_up-Ends :
        (work : Option Text) (s : State)
        → WorkOf work
        → let end = put_up fuel x world draw k body inbox work s in Ends s.calls end.1.calls end.0
    unfolding call
    put_up-Ends work s h =
        let r = board_request fuel x world draw k body work in
        (refl, work, r, h, board_request-IsPutUp work, refl, refl)

    put_up_worked-Ends :
        (r : Result Work) (s : State)
        → pos 0 <ℤ bits
        → solve_board fuel k.public body bits ≡ r
        → let end = put_up_worked fuel x world draw k body inbox r s in
          Ends s.calls end.1.calls end.0
    put_up_worked-Ends (err e) s h found = (refl, found)
    put_up_worked-Ends (ok (nonce n)) s h found = put_up-Ends (some n) s (h, found)
    put_up_worked-Ends (ok ran_out) s h found = (refl, h)
    put_up_worked-Ends (ok no_fuel) s h found = (refl, h)

    put_up_advised-Ends :
        (s : State)
        → let end = put_up_advised fuel x world draw k body inbox bits s in
          Ends s.calls end.1.calls end.0
    unfolding put_up_advised
    put_up_advised-Ends s = elim (Bool-cases (ltb_ℤ (pos 0) bits)) [
      | inl e ↦
          rw e (put_up_worked-Ends (solve_board fuel k.public body bits) s (ground arith) refl)
      | inr e ↦ rw e (put_up-Ends none s (ground arith))
    ]

  -- Once the inbox is open, Post reads the descriptor if it was not read, and puts up the body with
  -- the work that the descriptor advises.
  abbrev pub Course : Keys → Text → Thread × Answer → State → Result Posted → State → Type 0
  Course k body inbox s r s' =
      let m = descriptor_now s.descriptor (world.respond (length s.calls) descriptor_request) in
      Ends k body inbox (advised_bits m) (s.calls ++ looks (not (is_some s.descriptor))) s'.calls r

  post_with-Course :
      (k : Keys) (d : Draft) (o : PostOptions) (inbox : Thread × Answer) (body : Text) (s : State)
      → json x (post_fields d o inbox.0.w) ≡ ok body
      → let (r, s') = post_with fuel x world draw k d o inbox s in Course k body inbox s r s'
  unfolding post_with descriptor
  post_with-Course k d o inbox body s h =
      let kept = s.descriptor in
      let (m, s1) = descriptor_of fuel x world draw kept s in
      rw (h, ← descriptor_of-calls kept s, ← descriptor_of-now kept s)
        (put_up_advised-Ends k body inbox (advised_bits m) s1)

  abbrev pub inbox_ttl : PostOptions → ℤ
  inbox_ttl o = plus (or_ttl o.ttl board_ttl) inbox_margin

  -- Post opens the inbox for replies first, for any key, a minute longer than the post lives. If
  -- that is not answered by 201, it hands the answer over and asks nothing more. Otherwise it reads
  -- the descriptor, just if it was not read, and then posts to the board the JSON of what the draft
  -- and the options say with the address of the inbox, under its key and with the work that the
  -- descriptor advises, if any; what it returns as posted is the answer to that, with the inbox. It
  -- puts up nothing when that work does not end or its bits are refused.
  pub post-Course :
      (k : Keys) (d : Draft) (o : PostOptions) (inbox : Thread × Answer) (body : Text)
      (s s1 : State)
      → (not (is_empty o.scope) && not (is_w o.scope)) ≡ false
      → open_thread x world draw (inbox_ttl o) (star ∷ []) none s ≡ (ok inbox, s1)
      → json x (post_fields d o inbox.0.w) ≡ ok body
      → let (r, s') = post fuel x world draw (some k) d o s in
        Says d o inbox.0.w (post_fields d o inbox.0.w)
        × (((inbox.1.status == 201) ≡ true × Course k body inbox s1 r s')
            ⊎ ((inbox.1.status == 201) ≡ false × (r ≡ ok (posted inbox.1 inbox)) × (s' ≡ s1)))
  unfolding post
  post-Course k d o inbox body s s1 fits opened h = (
    post_fields-Says d o inbox.0.w,
    elim (Bool-cases (inbox.1.status == 201)) [
      | inl e ↦ inl (e, rw (fits, opened, e) (post_with-Course k d o inbox body s1 h))
      | inr e ↦ inr (e, rw (fits, opened, e) refl, rw (fits, opened, e) refl)
    ],
  )

  -- With keys from a seed and ed25519 as documented, the requests that put a post up and take one
  -- off name the key and carry a signature that verifies: over the input for a post of this key and
  -- the body, or over that for a withdrawal of this post and the body.
  pub board_request-IsSigned :
      (seed : Text) (k : Keys) (id body : Text) (work : Option Text)
      → SignsWell x
      → from_seed x seed ≡ ok k
      → IsSigned x (board_signing_input k.public) (board_request fuel x world draw k body work)
        × IsSigned x (board_delete_signing_input id) (withdraw_request fuel x world draw k id body)
  unfolding board_request withdraw_request lookup text_eq
  board_request-IsSigned seed k id body work signs made =
      let input = board_signing_input k.public body in
      let input' = board_delete_signing_input id body in
      (
        (body, k.public, sign x k input, refl, refl, refl, verify-sign x seed input k signs made),
        (body, k.public, sign x k input', refl, refl, refl, verify-sign x seed input' k signs made),
      )
