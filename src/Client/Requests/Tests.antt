-- ===== src/Client/Requests/Tests.antt =====
-- The theorems of Requests over the stand-in for ed25519.
use aamio_go.Prelude.{ℕ, ◌/◌, ◌^◌, pos, Option, arith, ◌∷◌, [], some, none, Text, codes, ◌≡◌, refl}
use aamio_go.Errors.{ok}
use aamio_go.Toy.{toy, toy-SignsWell}
use aamio_go.Keys.{
  Keys, from_seed, result_or_empty, presence_signing_input, presence_delete_signing_input,
}
use aamio_go.Client.Session.Tests.{world, start}
use aamio_go.Client.Requests.{
  json, publish_fields, publish_request, presence_publish, stamped, delete_request, presence_delete,
  open_thread,
}
use aamio_go.Client.Requests.Opening.{Draws, Ends, open_thread-Ends}
use aamio_go.Client.Requests.Signed.{IsSigned, IsAt, Names, seconds, presence-IsSigned}

abbrev pub seed : Text
seed = codes "0123456789abcdef0123456789abcdef"

pub made : (k : Keys) × (from_seed toy seed ≡ ok k)
unfolding from_seed
made = (_, refl)

is_encoded : json toy (publish_fields (codes "w") [] (pos 60)) ≡ ok (codes "{}")
unfolding json
is_encoded = refl

presence-IsSigned_example :
    let k = made.0 in
    let put = publish_request toy world k (codes "{}") in
    let time = stamped toy world 0 in
    let delete = delete_request toy world k time in
    Names (codes "w") [] (pos 60) (publish_fields (codes "w") [] (pos 60))
    × ((presence_publish toy world (some k) (codes "w") [] (pos 60) start).1.calls ≡ put ∷ [])
    × IsAt (codes "PUT") k.public (codes "{}") put
    × IsSigned toy (presence_signing_input k.public) put
    × (time ≡ result_or_empty (json toy (seconds (world.now 0 / 10 ^ 9))))
    × ((presence_delete toy world (some k) start).1.calls ≡ delete ∷ [])
    × IsAt (codes "DELETE") k.public time delete
    × IsSigned toy (presence_delete_signing_input k.public) delete
presence-IsSigned_example =
    presence-IsSigned toy world seed made.0 toy-SignsWell made.1 (codes "w") [] (pos 60)
      (codes "{}") start is_encoded

-- A source that draws the eighth character every time.
abbrev pub draw : ℕ → Option ℕ
draw j = some 7

pub draws : Draws draw
draws j = (7, refl, omega arith)

open_thread-Ends_example :
    let (r, s') = open_thread toy world draw (pos 600) [] none start in
    Ends toy world draw (pos 600) [] start r s'
open_thread-Ends_example = open_thread-Ends toy world draw (pos 600) [] none start draws
