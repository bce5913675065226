-- ===== src/Steps/Calls.antt =====
-- Each call of client.go and board.go keeps what holds of a client: the requests change only the log
-- of calls, and the board keeps its descriptor apart.
use aamio_go.Prelude.{
  ℕ, ℤ, Bool, true, false, List, [], ◌∷◌, Option, none, some, Text, codes, ltb_ℤ, pos,
  if◌then◌else◌, ◌==◌, not, ◌&&◌, is_empty,
}
use aamio_go.Errors.{
  Error, Result, ok, err, needs_keys, withdrawing_needs_keys, posting_needs_keys,
  answering_needs_keys, not_a_post,
}
use aamio_go.Address.{is_w, new_id, scope_address}
use aamio_go.Json.{Fields}
use aamio_go.External.{External}
use aamio_go.Keys.{Keys}
use aamio_go.Receipt.{ReceiptMessage}
use aamio_go.Codec.{is_key}
use aamio_go.Client.Message.{text_at}
use aamio_go.Client.Allow.{star}
use aamio_go.Client.Http.{Answer}
use aamio_go.Gate.Work.{Work, nonce, ran_out, no_fuel, solve_board}
use aamio_go.Client.Read.{Thread}
use aamio_go.Client.Session.{World, M, pure, gate}
use aamio_go.Client.Session.Invariant.{IsSound, Keeps, call-Keeps, read_clock-Keeps}
use aamio_go.Client.Session.Send.Sound.{send-Keeps}
use aamio_go.Client.Requests.{
  open_thread, close_thread, get_receipt, read, read_own, presence_publish, presence_get,
  presence_lookup, presence_delete, result_then, with_keys, gate_body, json, publish_fields,
  lookup_request,
}
use aamio_go.Board.{FindOptions}
use aamio_go.Board.Post.{
  PostOptions, Draft, post, reply_inbox, answer, withdraw, descriptor, descriptor_of,
  keep_descriptor, or_ttl, plus, board_ttl, inbox_margin, put_up_worked, put_up_advised,
  answer_options, post_with, after_inbox, post_fields, answer_fields,
}
use aamio_go.Board.Calls.{find, find_at, find_scoped, get_post, tags, board_bits}
use aamio_go.Board.Replies.{Entry, replies, replies_thread}

module _ (fuel : ℕ) (x : External) (world : World) (keys : Option Keys) where
  pub result_then-Keeps :
      {A B : Type 0} (r : Result A) (f : A → M (Result B))
      → ((a : A) → Keeps x world (f a))
      → Keeps x world (result_then r f)
  result_then-Keeps (ok a) f k = k a
  result_then-Keeps (err e) f k = λ s h. h

  pub with_keys-Keeps :
      {B : Type 0} (e : Error) (ks : Option Keys) (f : Keys → M (Result B))
      → ((k : Keys) → Keeps x world (f k))
      → Keeps x world (with_keys e ks f)
  with_keys-Keeps e none f k = λ s h. h
  with_keys-Keeps e (some ks) f k = k ks

  pub if-Keeps :
      {A : Type 0} (b : Bool) (m n : M A)
      → Keeps x world m
      → Keeps x world n
      → Keeps x world (if b then m else n)
  if-Keeps true m n km kn = km
  if-Keeps false m n km kn = kn

  pub open_thread-Keeps :
      (draw : ℕ → Option ℕ) (ttl : ℤ) (allow : List Text) (gate : Option Fields)
      → Keeps x world (open_thread x world draw ttl allow gate)
  unfolding open_thread
  open_thread-Keeps draw ttl allow gate s h =
      result_then-Keeps (new_id draw) _
        (λ id. result_then-Keeps (gate_body x world gate) _ (λ body s h. call-Keeps x world _ s h))
        s h

  pub close_thread-Keeps : (w id : Text) → Keeps x world (close_thread x world w id)
  unfolding close_thread
  close_thread-Keeps w id s h = call-Keeps x world _ s h

  pub get_receipt-Keeps :
      (sort : List ReceiptMessage → List ReceiptMessage) (w id : Text)
      → Keeps x world (get_receipt x world sort w id)
  unfolding get_receipt
  get_receipt-Keeps sort w id s h = call-Keeps x world _ s h

  pub read-Keeps :
      (w id : Text) (after wait : ℤ) → Keeps x world (read x world keys w id after wait)
  unfolding read
  read-Keeps w id after wait s h = call-Keeps x world _ s h

  pub read_own-Keeps :
      (t : Thread) (after wait : ℤ) → Keeps x world (read_own x world keys t after wait)
  unfolding read_own
  read_own-Keeps t after wait s h = call-Keeps x world _ s h

  pub presence_publish-Keeps :
      (w : Text) (tags : List Text) (ttl : ℤ)
      → Keeps x world (presence_publish x world keys w tags ttl)
  unfolding presence_publish
  presence_publish-Keeps w tags ttl s h =
      with_keys-Keeps needs_keys keys _
        (λ k.
          result_then-Keeps (json x (publish_fields w tags ttl)) _
            (λ body s h. call-Keeps x world _ s h))
        s h

  pub presence_get-Keeps : (key : Text) → Keeps x world (presence_get x world key)
  unfolding presence_get
  presence_get-Keeps key s h = call-Keeps x world _ s h

  pub presence_lookup-Keeps :
      (prefixes : List Text) (wait : ℤ) → Keeps x world (presence_lookup x world prefixes wait)
  unfolding presence_lookup
  presence_lookup-Keeps prefixes wait s h =
      result_then-Keeps (json x (lookup_request prefixes wait).1) _
        (λ body s h. call-Keeps x world _ s h) s h

  pub presence_delete-Keeps : Keeps x world (presence_delete x world keys)
  unfolding presence_delete
  presence_delete-Keeps s h =
      with_keys-Keeps needs_keys keys _
        (λ k s h. call-Keeps x world _ _ (read_clock-Keeps x world s h)) s h

  pub descriptor-Keeps : (draw : ℕ → Option ℕ) → Keeps x world (descriptor fuel x world draw)
  unfolding descriptor keep_descriptor
  descriptor-Keeps draw s h = go s.descriptor
    where
      go : (kept : Option Fields) → IsSound x world (descriptor_of fuel x world draw kept s).1
      go (some m) = h
      go none =
          let called = call-Keeps x world _ s h in
          record { gates_came = called.gates_came; times_have_gates = called.times_have_gates }

  pub put_up_advised-Keeps :
      (draw : ℕ → Option ℕ) (k : Keys) (body : Text) (inbox : Thread × Answer) (bits : ℤ)
      → Keeps x world (put_up_advised fuel x world draw k body inbox bits)
  unfolding put_up_advised
  put_up_advised-Keeps draw k body inbox bits =
      if-Keeps (ltb_ℤ (pos 0) bits) _ _ (go (solve_board fuel k.public body bits))
        (λ s h. call-Keeps x world _ s h)
    where
      go : (r : Result Work) → Keeps x world (put_up_worked fuel x world draw k body inbox r)
      go (err e) = λ s h. h
      go (ok (nonce n)) = λ s h. call-Keeps x world _ s h
      go (ok ran_out) = λ s h. h
      go (ok no_fuel) = λ s h. h

  pub post_with-Keeps :
      (draw : ℕ → Option ℕ) (k : Keys) (d : Draft) (o : PostOptions) (inbox : Thread × Answer)
      → Keeps x world (post_with fuel x world draw k d o inbox)
  unfolding post_with
  post_with-Keeps draw k d o inbox =
      result_then-Keeps (json x (post_fields d o inbox.0.w)) _
        λ body s h. put_up_advised-Keeps draw k body inbox _ _ (descriptor-Keeps draw s h)

  pub after_opening-Keeps :
      (draw : ℕ → Option ℕ) (k : Keys) (d : Draft) (o : PostOptions) (r : Result (Thread × Answer))
      → Keeps x world (result_then r (after_inbox fuel x world draw k d o))
  after_opening-Keeps draw k d o r =
      result_then-Keeps r _
        λ inbox. if-Keeps (inbox.1.status == 201) _ _ (post_with-Keeps draw k d o inbox) (λ s h. h)

  pub post-Keeps :
      (draw : ℕ → Option ℕ) (d : Draft) (o : PostOptions)
      → Keeps x world (post fuel x world draw keys d o)
  unfolding post
  post-Keeps draw d o s h =
      with_keys-Keeps posting_needs_keys keys _
        (λ k.
          if-Keeps (not (is_empty o.scope) && not (is_w o.scope)) _ _ (λ s h. h)
            λ s h.
              after_opening-Keeps draw k d o
                (open_thread x world draw (plus (or_ttl o.ttl board_ttl) inbox_margin) (star ∷ [])
                  none s).0
                _
                (open_thread-Keeps draw (plus (or_ttl o.ttl board_ttl) inbox_margin) (star ∷ [])
                  none s h))
        s h

  pub reply_inbox-Keeps :
      (draw : ℕ → Option ℕ) (ttl : ℤ) → Keeps x world (reply_inbox fuel x world draw ttl)
  unfolding reply_inbox
  reply_inbox-Keeps draw ttl s h =
      open_thread-Keeps draw (or_ttl ttl (plus board_ttl inbox_margin)) (star ∷ []) none s h

  pub answer-Keeps :
      (draw : ℕ → Option ℕ) (random : Text) (about : Fields) (reply_to text : Text)
      (extra : Option Fields)
      → Keeps x world (answer fuel x world draw keys random about reply_to text extra)
  unfolding answer
  answer-Keeps draw random about reply_to text extra s h =
      with_keys-Keeps answering_needs_keys keys _
        (λ k.
          if-Keeps
            (not (is_empty (text_at (codes "id") about))
              && is_w (text_at (codes "w") about)
              && is_key (text_at (codes "key") about))
            _ (pure (err not_a_post))
            (result_then-Keeps
              (json x (
                answer_fields fuel x world draw k (text_at (codes "id") about) reply_to text extra))
              _
              λ body.
                send-Keeps fuel x world keys random (text_at (codes "w") about) body
                  (answer_options fuel x world draw (text_at (codes "key") about)))
            (λ s h. h))
        s h

  pub withdraw-Keeps :
      (draw : ℕ → Option ℕ) (id : Text) → Keeps x world (withdraw fuel x world draw keys id)
  unfolding withdraw
  withdraw-Keeps draw id s h =
      with_keys-Keeps withdrawing_needs_keys keys _
        (λ k s h. call-Keeps x world _ _ (read_clock-Keeps x world s h)) s h

  pub find-Keeps : (o : FindOptions) → Keeps x world (find x world o)
  unfolding find
  find-Keeps o s h = call-Keeps x world _ s h

  find_at-Keeps :
      (scope_key : Text) (o : FindOptions) (r : Result Text)
      → Keeps x world (find_at x world scope_key o r)
  find_at-Keeps scope_key o (err e) s h = h
  find_at-Keeps scope_key o (ok address) s h = call-Keeps x world _ s h

  pub find_scoped-Keeps :
      (scope_key : Text) (o : FindOptions) → Keeps x world (find_scoped x world scope_key o)
  unfolding find_scoped
  find_scoped-Keeps scope_key o s h = find_at-Keeps scope_key o (scope_address scope_key) s h

  pub get_post-Keeps : (id : Text) → Keeps x world (get_post x world id)
  unfolding get_post
  get_post-Keeps id s h = call-Keeps x world _ s h

  pub tags-Keeps : Keeps x world (tags x world)
  unfolding tags
  tags-Keeps s h = call-Keeps x world _ s h

  pub board_bits-Keeps : Keeps x world (board_bits x world)
  unfolding board_bits
  board_bits-Keeps s h = descriptor-Keeps (λ n. none) s h

  pub replies-Keeps :
      (order : ℕ → List Entry) (w id : Text) (after wait : ℤ)
      → Keeps x world (replies x world order keys w id after wait)
  unfolding replies
  replies-Keeps order w id after wait s h = read-Keeps w id after wait s h

  pub replies_thread-Keeps :
      (order : ℕ → List Entry) (t : Thread) (after wait : ℤ)
      → Keeps x world (replies_thread x world order keys t after wait)
  unfolding replies_thread
  replies_thread-Keeps order t after wait s h = read_own-Keeps t after wait s h
