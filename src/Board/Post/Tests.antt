-- ===== src/Board/Post/Tests.antt =====
-- The theorems of Post at a post in a scope, with an inbox that opens.
use aamio_go.Prelude.{
  pos, true, false, [], ◌∷◌, some, none, codes, ◌≡◌, refl, ◌⊎◌, ◌==◌, not, ◌&&◌, is_empty,
}
use aamio_go.Errors.{Result, ok}
use aamio_go.Toy.{toy, toy-SignsWell}
use aamio_go.Keys.{board_signing_input, board_delete_signing_input}
use aamio_go.Address.{is_w, new_id}
use aamio_go.Codec.Base32.{is_base32_char}
use aamio_go.Client.Http.{Answer}
use aamio_go.Client.Allow.{star}
use aamio_go.Client.Read.{Thread}
use aamio_go.Client.Message.Tests.{address}
use aamio_go.Client.Session.{World, State}
use aamio_go.Client.Session.Tests.{world, start, empty_answer}
use aamio_go.Client.Requests.{json, open_thread}
use aamio_go.Client.Requests.Tests.{made, seed, draw}
use aamio_go.Client.Requests.Signed.{IsSigned}
use aamio_go.Board.Post.{
  PostOptions, Draft, posted, post_fields, board_request, post, withdraw_request,
}
use aamio_go.Board.Post.Said.{Says}
use aamio_go.Board.Post.Order.{Course, inbox_ttl, post-Course, board_request-IsSigned}

abbrev opening : World
opening = record world { respond = λ n r. empty_answer 201 }

abbrev draft : Draft
draft = record { kind = codes "need"; title = codes "t"; text = codes "x"; tags = [] }

abbrev options : PostOptions
options = record { ttl = pos 0; lang = []; deadline = []; scope = address }

abbrev inbox_end : Result (Thread × Answer) × State
inbox_end =
    open_thread toy opening draw (inbox_ttl 9 toy opening draw options) (star ∷ []) none start

is_open : (inbox : Thread × Answer) × (inbox_end ≡ (ok inbox, inbox_end.1))
unfolding open_thread new_id
is_open = (_, refl)

fits : (not (is_empty options.scope) && not (is_w options.scope)) ≡ false
unfolding is_w is_base32_char
fits = refl

is_encoded : json toy (post_fields draft options is_open.0.0.w) ≡ ok (codes "{}")
unfolding json
is_encoded = refl

post-Course_example :
    let inbox = is_open.0 in
    let s1 = inbox_end.1 in
    let (r, s') = post 9 toy opening draw (some made.0) draft options start in
    Says draft options inbox.0.w (post_fields draft options inbox.0.w)
    × (((inbox.1.status == 201) ≡ true
          × Course 9 toy opening draw made.0 (codes "{}") inbox s1 r s')
        ⊎ ((inbox.1.status == 201) ≡ false × (r ≡ ok (posted inbox.1 inbox)) × (s' ≡ s1)))
post-Course_example =
    post-Course 9 toy opening draw made.0 draft options is_open.0 (codes "{}") start inbox_end.1
      fits is_open.1 is_encoded

board_request-IsSigned_example :
    IsSigned toy
      (board_signing_input made.0.public)
      (board_request 9 toy world draw made.0 (codes "{}") none)
    × IsSigned toy
        (board_delete_signing_input (codes "7"))
        (withdraw_request 9 toy world draw made.0 (codes "7") (codes "{}"))
board_request-IsSigned_example =
    board_request-IsSigned 9 toy world draw seed made.0 (codes "7") (codes "{}") none toy-SignsWell
      made.1
