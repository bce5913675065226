-- ===== src/Board/Post.antt =====
-- The writes of board.go: Post with the reply inbox that it opens, ReplyInbox, Answer and Withdraw,
-- and the descriptor that a board reads once.
pub mod Order
mod Said
mod Tests
use aamio_go.Prelude.{
  ℕ, ◌/◌, ℤ, pos, negsuc, pos_part, neg_part, ltb_ℤ, ltb, leb, ◌+◌, ◌-◌, Bool, true, false, ◌&&◌,
  not, List, [], ◌∷◌, ◌++◌, Option, none, some, Text, codes, is_empty, ◌==◌, if◌then◌else◌,
}
use aamio_go.Errors.{
  Error, Result, ok, err, posting_needs_keys, scope_is_key, answering_needs_keys, not_a_post,
  withdrawing_needs_keys,
}
use aamio_go.Json.{
  Fields, end, get, put, as_string, string_or_empty, array, string, int, int64, object,
}
use aamio_go.External.{External}
use aamio_go.Address.{is_w}
use aamio_go.Codec.{is_key}
use aamio_go.Keys.{Keys, board_signing_input, board_delete_signing_input}
use aamio_go.Gate.Work.{Work, nonce, ran_out, no_fuel, solve_board}
use aamio_go.Client.Http.{Request, Answer, board}
use aamio_go.Client.Allow.{star}
use aamio_go.Client.Message.{text_at}
use aamio_go.Client.Read.{Thread}
use aamio_go.Client.Session.{World, State, M, pure, ◌>>=◌, call, read_clock, second}
use aamio_go.Client.Session.Letter.{SendOptions}
use aamio_go.Client.Session.Send.{Sent, send}
use aamio_go.Client.Requests.{
  json, texts, request, json_header, signed_headers, open_thread, result_then, with_keys, stamped,
}
use aamio_go.Board.{advised_bits}

abbrev pub board_ttl : ℤ
board_ttl = pos 1800

abbrev pub inbox_margin : ℕ
inbox_margin = 60

abbrev pub plus : ℤ → ℕ → ℤ
plus (pos n) m = pos (n + m)
plus (negsuc n) m = if ltb n m then pos (m - (n + 1)) else negsuc (n - m)

pub record PostOptions : Type 0 where
  pub ttl : ℤ
  pub lang : Text
  pub deadline : Text
  pub scope : Text

-- What a post says, without what its options add.
pub record Draft : Type 0 where
  pub kind : Text
  pub title : Text
  pub text : Text
  pub tags : List Text

-- Posted: the answer, and the inbox for replies with the answer to its opening. `unfinished` is
-- work without fuel.
pub data Posted : Type 0 where
  posted : Answer → Thread × Answer → Posted
  unfinished : Posted

abbrev is_zero : ℤ → Bool
is_zero (pos n) = n == 0
is_zero (negsuc n) = false

-- A time of 0 is the one given instead.
abbrev pub or_ttl : ℤ → ℤ → ℤ
or_ttl ttl given = if is_zero ttl then given else ttl

abbrev pub put_text : Text → Text → Fields → Fields
put_text k s m = if is_empty s then m else put k (string s) m

-- The map that Post signs and sends.
unfoldable pub post_fields : Draft → PostOptions → Text → Fields
post_fields d o w =
    let m0 = put (codes "kind") (string d.kind) end in
    let m1 = put (codes "title") (string d.title) m0 in
    let m2 = put (codes "text") (string d.text) m1 in
    let m3 = put (codes "tags") (array (texts d.tags)) m2 in
    let m4 = put (codes "w") (string w) m3 in
    let m5 = put (codes "ttl") (int (or_ttl o.ttl board_ttl)) m4 in
    let m6 = put_text (codes "lang") o.lang m5 in
    let m7 = put_text (codes "deadline") o.deadline m6 in put_text (codes "scope") o.scope m7

-- What follows an opening, with its error passed on.
abbrev pub opened_then : {A B : Type 0} → (A → M (Result B)) → M (Result A) → M (Result B)
opened_then f m = m >>= λ r. result_then r f

module _ (fuel : ℕ) (x : External) (world : World) (draw : ℕ → Option ℕ) where
  abbrev pub described : Answer → Option Fields → Fields
  described a none = end
  described a (some m) = if a.status == 200 then m else end

  unfoldable pub keep_descriptor : Fields → M Fields
  keep_descriptor m s = (m, record s { descriptor = some m })

  abbrev pub descriptor_of : Option Fields → M Fields
  descriptor_of (some m) = pure m
  descriptor_of none = do
    a ← call world (request board (codes "GET") (codes "/.well-known/aamio-board.json") none [])
    keep_descriptor (described a a.body)

  unfoldable pub descriptor : M Fields
  unfolding call keep_descriptor
  descriptor s = descriptor_of s.descriptor s

  -- The request of a post, with its work when there was some.
  abbrev pub work_header : Option Text → List (Text × Text)
  work_header none = []
  work_header (some n) = (codes "X-Work", n) ∷ []

  unfoldable pub board_request : Keys → Text → Option Text → Request
  unfolding signed_headers
  board_request k body work =
      request board (codes "POST") (codes "/") (some body)
        (signed_headers x world k (board_signing_input k.public body) ++ work_header work)

  abbrev pub put_up : Keys → Text → Thread × Answer → Option Text → M (Result Posted)
  put_up k body inbox work = do
    a ← call world (board_request k body work)
    pure (ok (posted a inbox))

  abbrev pub put_up_worked : Keys → Text → Thread × Answer → Result Work → M (Result Posted)
  put_up_worked k body inbox (err e) = pure (err e)
  put_up_worked k body inbox (ok (nonce n)) = put_up k body inbox (some n)
  put_up_worked k body inbox (ok ran_out) = pure (ok unfinished)
  put_up_worked k body inbox (ok no_fuel) = pure (ok unfinished)

  unfoldable pub put_up_advised : Keys → Text → Thread × Answer → ℤ → M (Result Posted)
  unfolding board_request
  put_up_advised k body inbox bits =
      if ltb_ℤ (pos 0) bits
      then put_up_worked k body inbox (solve_board fuel k.public body bits)
      else put_up k body inbox none

  -- Post once the inbox is open.
  unfoldable pub post_with : Keys → Draft → PostOptions → Thread × Answer → M (Result Posted)
  unfolding put_up_advised descriptor json
  post_with k d o inbox =
      result_then (json x (post_fields d o inbox.0.w))
        λ body. do m ← descriptor; put_up_advised k body inbox (advised_bits m)

  abbrev pub after_inbox : Keys → Draft → PostOptions → Thread × Answer → M (Result Posted)
  after_inbox k d o inbox =
      if inbox.1.status == 201 then post_with k d o inbox else pure (ok (posted inbox.1 inbox))

  unfoldable pub post : Option Keys → Draft → PostOptions → M (Result Posted)
  unfolding post_with open_thread
  post keys d o = with_keys posting_needs_keys keys λ k.
      if not (is_empty o.scope) && not (is_w o.scope)
      then pure (err scope_is_key)
      else opened_then (after_inbox k d o)
          (open_thread x world draw (plus (or_ttl o.ttl board_ttl) inbox_margin) (star ∷ []) none)

  unfoldable pub reply_inbox : ℤ → M (Result (Thread × Answer))
  unfolding open_thread
  reply_inbox ttl =
      open_thread x world draw (or_ttl ttl (plus board_ttl inbox_margin)) (star ∷ []) none

  abbrev put_data : Option Fields → Fields → Fields
  put_data none m = m
  put_data (some d) m = put (codes "data") (object d) m

  unfoldable pub answer_fields : Keys → Text → Text → Text → Option Fields → Fields
  answer_fields k id reply_to text extra =
      let m0 = put (codes "post") (string id) end in
      let m1 = put (codes "reply_to") (string reply_to) m0 in
      let m2 = put (codes "from") (string k.hash_prefix) m1 in
      put_data extra (put_text (codes "text") text m2)

  abbrev pub answer_options : Text → SendOptions
  answer_options key = record { unsigned = false; seal_to = key; json = true }

  -- Answer, with the random bytes for the nonce of the box.
  unfoldable pub answer :
      Option Keys → Text → Fields → Text → Text → Option Fields → M (Result Sent)
  unfolding send json
  answer keys random about reply_to text extra = with_keys answering_needs_keys keys λ k.
      let id = text_at (codes "id") about in
      let w = text_at (codes "w") about in
      let key = text_at (codes "key") about in
      if not (is_empty id) && is_w w && is_key key
      then (result_then (json x (answer_fields k id reply_to text extra))
          λ body. send fuel x world keys random w body (answer_options key))
      else pure (err not_a_post)

  unfoldable pub withdraw_request : Keys → Text → Text → Request
  unfolding signed_headers
  withdraw_request k id body =
      request board (codes "DELETE") (b'/' ∷ id) (some body)
        (signed_headers x world k (board_delete_signing_input id body))

  unfoldable pub withdraw : Option Keys → Text → M (Result Answer)
  unfolding withdraw_request read_clock
  withdraw keys id = with_keys withdrawing_needs_keys keys λ k. do
    now ← read_clock world
    a ← call world (withdraw_request k id (stamped x world now))
    pure (ok a)
