-- ===== src/Steps.antt =====
-- Everything that a client and its board can do, in any order, as steps of their state: the
-- exported calls of client.go and board.go that ask the service or change what is kept.
mod Calls
mod Tests
use aamio_go.Prelude.{
  ℕ, ℤ, Bool, true, false, List, [], ◌∷◌, Option, none, some, Text, codes, ◌≡◌, refl, sym, subst,
  All, lookup, Bool-cases, inl, inr, ltb_ℤ, pos, if◌then◌else◌, ◌==◌, not, ◌&&◌, is_empty,
}
use aamio_go.Errors.{
  Error, Result, ok, err, needs_keys, withdrawing_needs_keys, posting_needs_keys,
  answering_needs_keys, not_a_post,
}
use aamio_go.Address.{is_w, new_id, scope_address}
use aamio_go.Json.{Fields}
use aamio_go.External.{External}
use aamio_go.Keys.{Keys}
use aamio_go.Receipt.{ReceiptMessage}
use aamio_go.Codec.{is_key}
use aamio_go.Client.Message.{text_at}
use aamio_go.Client.Allow.{star}
use aamio_go.Client.Http.{Answer}
use aamio_go.Gate.Work.{Work, nonce, ran_out, no_fuel, solve_board}
use aamio_go.Client.Read.{Thread}
use aamio_go.Client.Session.{World, State, M, pure, seconds_left, forget_gate, gate, plan_to}
use aamio_go.Client.Session.Letter.{SendOptions}
use aamio_go.Client.Session.Send.{send}
use aamio_go.Client.Session.Invariant.{
  IsSound, Keeps, call-Keeps, read_clock-Keeps, forget_gate-Keeps, gate-Keeps, seconds_left-Keeps,
  plan_to-Keeps,
}
use aamio_go.Client.Session.Send.Sound.{send-Keeps}
use aamio_go.Client.Requests.{
  open_thread, close_thread, get_receipt, read, read_own, presence_publish, presence_get,
  presence_lookup, presence_delete, result_then, with_keys, gate_body, json, publish_fields,
  lookup_request,
}
use aamio_go.Board.{FindOptions}
use aamio_go.Board.Post.{
  PostOptions, Draft, post, reply_inbox, answer, withdraw, descriptor, descriptor_of,
  keep_descriptor, or_ttl, plus, board_ttl, inbox_margin, put_up_worked, put_up_advised,
  answer_options, post_with, after_inbox, post_fields, answer_fields,
}
use aamio_go.Board.Calls.{find, find_scoped, get_post, tags, board_bits}
use Calls.{
  open_thread-Keeps, close_thread-Keeps, get_receipt-Keeps, read-Keeps, read_own-Keeps,
  presence_publish-Keeps, presence_get-Keeps, presence_lookup-Keeps, presence_delete-Keeps,
  post-Keeps, reply_inbox-Keeps, answer-Keeps, withdraw-Keeps, find-Keeps, find_scoped-Keeps,
  get_post-Keeps, tags-Keeps, board_bits-Keeps, replies-Keeps, replies_thread-Keeps,
}
use aamio_go.Board.Replies.{Entry, replies, replies_thread}

-- A client with some keys.
module _ (fuel : ℕ) (x : External) (world : World) (keys : Option Keys) where
  -- The state after an action.
  abbrev pub Does : {A : Type 0} → M A → State → State → Type 0
  Does m s s' = s' ≡ (m s).1

  pub data Step (s s' : State) : Type 0 where
    reads_gate : (w : Text) (fresh : Bool) → Does (gate x world w fresh) s s' → Step s s'
    asks_time : (w : Text) → Does (seconds_left world w) s s' → Step s s'
    forgets_gate : (w : Text) → Does (forget_gate w) s s' → Step s s'
    plans : (w : Text) → Does (plan_to x world w) s s' → Step s s'
    sends :
        (random w body : Text) (opts : SendOptions)
        → Does (send fuel x world keys random w body opts) s s'
        → Step s s'
    opens :
        (draw : ℕ → Option ℕ) (ttl : ℤ) (allow : List Text) (gate : Option Fields)
        → Does (open_thread x world draw ttl allow gate) s s'
        → Step s s'
    closes : (w id : Text) → Does (close_thread x world w id) s s' → Step s s'
    takes_receipt :
        (sort : List ReceiptMessage → List ReceiptMessage) (w id : Text)
        → Does (get_receipt x world sort w id) s s'
        → Step s s'
    reads :
        (w id : Text) (after wait : ℤ) → Does (read x world keys w id after wait) s s' → Step s s'
    reads_own :
        (t : Thread) (after wait : ℤ) → Does (read_own x world keys t after wait) s s' → Step s s'
    publishes :
        (w : Text) (tags : List Text) (ttl : ℤ)
        → Does (presence_publish x world keys w tags ttl) s s'
        → Step s s'
    looks_at : (key : Text) → Does (presence_get x world key) s s' → Step s s'
    looks_up :
        (prefixes : List Text) (wait : ℤ)
        → Does (presence_lookup x world prefixes wait) s s'
        → Step s s'
    unpublishes : Does (presence_delete x world keys) s s' → Step s s'
    posts :
        (draw : ℕ → Option ℕ) (d : Draft) (o : PostOptions)
        → Does (post fuel x world draw keys d o) s s'
        → Step s s'
    opens_inbox :
        (draw : ℕ → Option ℕ) (ttl : ℤ) → Does (reply_inbox fuel x world draw ttl) s s' → Step s s'
    answers :
        (draw : ℕ → Option ℕ) (random : Text) (about : Fields) (reply_to text : Text)
        (extra : Option Fields)
        → Does (answer fuel x world draw keys random about reply_to text extra) s s'
        → Step s s'
    withdraws :
        (draw : ℕ → Option ℕ) (id : Text)
        → Does (withdraw fuel x world draw keys id) s s'
        → Step s s'
    finds : (o : FindOptions) → Does (find x world o) s s' → Step s s'
    finds_scoped :
        (scope_key : Text) (o : FindOptions)
        → Does (find_scoped x world scope_key o) s s'
        → Step s s'
    gets_post : (id : Text) → Does (get_post x world id) s s' → Step s s'
    gets_tags : Does (tags x world) s s' → Step s s'
    asks_bits : Does (board_bits x world) s s' → Step s s'
    reads_replies :
        (order : ℕ → List Entry) (w id : Text) (after wait : ℤ)
        → Does (replies x world order keys w id after wait) s s'
        → Step s s'
    reads_own_replies :
        (order : ℕ → List Entry) (t : Thread) (after wait : ℤ)
        → Does (replies_thread x world order keys t after wait) s s'
        → Step s s'

  -- What a client has come to, from some state, by any number of steps.
  pub data Reach (s : State) : State → Type 0 where
    here : Reach s s
    next : {t u : State} → Reach s t → Step t u → Reach s u

  moved :
      {s s' t : State}
      → s' ≡ t
      → (IsSound x world s → IsSound x world t)
      → IsSound x world s
      → IsSound x world s'
  moved e keeps h = subst (IsSound x world) (sym e) (keeps h)

  Step-IsSound : {s s' : State} → Step s s' → IsSound x world s → IsSound x world s'
  Step-IsSound {s} (reads_gate w fresh e) = moved e (gate-Keeps x world w fresh s)
  Step-IsSound {s} (asks_time w e) = moved e (seconds_left-Keeps x world w s)
  Step-IsSound {s} (forgets_gate w e) = moved e (forget_gate-Keeps x world w s)
  Step-IsSound {s} (plans w e) = moved e (plan_to-Keeps x world w s)
  Step-IsSound {s} (sends random w body opts e) =
      moved e (send-Keeps fuel x world keys random w body opts s)
  Step-IsSound {s} (opens draw ttl allow gate e) =
      moved e (open_thread-Keeps fuel x world keys draw ttl allow gate s)
  Step-IsSound {s} (closes w id e) = moved e (close_thread-Keeps fuel x world keys w id s)
  Step-IsSound {s} (takes_receipt sort w id e) =
      moved e (get_receipt-Keeps fuel x world keys sort w id s)
  Step-IsSound {s} (reads w id after wait e) =
      moved e (read-Keeps fuel x world keys w id after wait s)
  Step-IsSound {s} (reads_own t after wait e) =
      moved e (read_own-Keeps fuel x world keys t after wait s)
  Step-IsSound {s} (publishes w tags ttl e) =
      moved e (presence_publish-Keeps fuel x world keys w tags ttl s)
  Step-IsSound {s} (looks_at key e) = moved e (presence_get-Keeps fuel x world keys key s)
  Step-IsSound {s} (looks_up prefixes wait e) =
      moved e (presence_lookup-Keeps fuel x world keys prefixes wait s)
  Step-IsSound {s} (unpublishes e) = moved e (presence_delete-Keeps fuel x world keys s)
  Step-IsSound {s} (posts draw d o e) = moved e (post-Keeps fuel x world keys draw d o s)
  Step-IsSound {s} (opens_inbox draw ttl e) =
      moved e (reply_inbox-Keeps fuel x world keys draw ttl s)
  Step-IsSound {s} (answers draw random about reply_to text extra e) =
      moved e (answer-Keeps fuel x world keys draw random about reply_to text extra s)
  Step-IsSound {s} (withdraws draw id e) = moved e (withdraw-Keeps fuel x world keys draw id s)
  Step-IsSound {s} (finds o e) = moved e (find-Keeps fuel x world keys o s)
  Step-IsSound {s} (finds_scoped scope_key o e) =
      moved e (find_scoped-Keeps fuel x world keys scope_key o s)
  Step-IsSound {s} (gets_post id e) = moved e (get_post-Keeps fuel x world keys id s)
  Step-IsSound {s} (gets_tags e) = moved e (tags-Keeps fuel x world keys s)
  Step-IsSound {s} (asks_bits e) = moved e (board_bits-Keeps fuel x world keys s)
  Step-IsSound {s} (reads_replies order w id after wait e) =
      moved e (replies-Keeps fuel x world keys order w id after wait s)
  Step-IsSound {s} (reads_own_replies order t after wait e) =
      moved e (replies_thread-Keeps fuel x world keys order t after wait s)

  -- Whatever a client does, in any order and with any answers and clock, what it keeps stays sound
  -- from when it was made: every gate that it keeps is one that the service answered, to a read of
  -- it or as a 428 to a post for that address, and it keeps no time without a gate.
  pub Reach-IsSound : {s t : State} → Reach s t → IsSound x world s → IsSound x world t
  Reach-IsSound here h = h
  Reach-IsSound (next r st) h = Step-IsSound st (Reach-IsSound r h)
