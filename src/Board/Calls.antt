-- ===== src/Board/Calls.antt =====
-- The reads of board.go as calls: Find, FindInScope, Get, Tags and AdvisedBits.
use aamio_go.Prelude.{ℤ, List, [], ◌∷◌, Option, none, some, Text, codes}
use aamio_go.Errors.{Result, ok, err}
use aamio_go.Json.{Fields}
use aamio_go.External.{External}
use aamio_go.Address.{scope_address}
use aamio_go.Keys.{result_or_empty}
use aamio_go.Client.Http.{Request, Answer, board}
use aamio_go.Client.Session.{World, M, pure, ◌>>=◌, call}
use aamio_go.Client.Requests.{json, request, json_header}
use aamio_go.Board.{FindOptions, find_fields, find_answer, in_scope, advised_bits}
use aamio_go.Board.Post.{descriptor}

module _ (x : External) (world : World) where
  -- An error of JSON is passed over, and the body is then empty.
  unfoldable pub find_request : FindOptions → Text → Request
  unfolding json
  find_request o scope_key =
      request board (codes "POST") (codes "/find")
        (some (result_or_empty (json x (find_fields o scope_key)))) (json_header ∷ [])

  unfoldable pub find : FindOptions → M (Answer × List Fields × ℤ)
  unfolding find_request find_answer
  find o = do
    a ← call world (find_request o [])
    let (posts, next) = find_answer o a in pure (a, posts, next)

  -- The rest of FindInScope, with the address that its key gives; a key that is none has no answer,
  -- since the board is not asked.
  abbrev pub find_at :
      Text → FindOptions → Result Text → M (Option Answer × Result (List Fields × ℤ))
  find_at scope_key o (err e) = pure (none, err e)
  find_at scope_key o (ok address) = do
    a ← call world (find_request o scope_key)
    pure (some a, in_scope o a address)

  unfoldable pub find_scoped : Text → FindOptions → M (Option Answer × Result (List Fields × ℤ))
  unfolding find_request
  find_scoped scope_key o = find_at scope_key o (scope_address scope_key)

  unfoldable pub get_post : Text → M Answer
  get_post id = call world (request board (codes "GET") (b'/' ∷ id) none [])

  unfoldable pub tags : M Answer
  tags = call world (request board (codes "GET") (codes "/tags") none [])

  unfoldable pub board_bits : M ℤ
  unfolding descriptor
  board_bits = do m ← descriptor 0 x world (λ n. none); pure (advised_bits m)
