-- ===== src/Client/Requests/Signed.antt =====
-- The signatures on the requests of client.go: what the service checks them by.
use aamio_go.Prelude.{
  ℕ, ◌/◌, ◌^◌, pos, ap, ℤ, true, List, [], ◌∷◌, ◌++◌, Option, some, Text, codes, ◌≡◌, refl, lookup,
  text_eq,
}
use aamio_go.Errors.{ok}
use aamio_go.External.{External, SignsWell}
use aamio_go.Keys.{
  Keys, from_seed, result_or_empty, sign, verify, presence_signing_input,
  presence_delete_signing_input, thread_signing_input,
}
use aamio_go.Keys.Signing.{verify-sign}
use aamio_go.Client.Http.{Request, aamio}
use aamio_go.Json.{Fields, end, field, Items, cons, array, string, int, int64, get, put}
use aamio_go.Json.Laws.{get-put}
use aamio_go.Client.Session.{World, State, call}
use aamio_go.Client.Session.Letter.{Letter, post_request}
use aamio_go.Client.Requests.{
  json, texts, publish_fields, publish_request, presence_publish, stamped, delete_request,
  presence_delete,
}

-- A request names a key and carries a signature that verifies under it, over the input that its
-- body gives.
abbrev pub IsSigned : External → (Text → Text) → Request → Type 0
IsSigned x input r =
    (body : Text) × (key : Text) × (signature : Text) × (r.body ≡ some body)
    × (lookup (codes "X-Key") r.headers ≡ some key)
    × (lookup (codes "X-Sig") r.headers ≡ some signature)
    × (verify x key signature (input body) ≡ true)

-- A request to aamio for the presence of a key, with a body.
abbrev pub IsAt : Text → Text → Text → Request → Type 0
IsAt method key body r =
    (r.service ≡ aamio) × (r.method ≡ method) × (r.path ≡ codes "/p/" ++ key) × (r.body ≡ some body)

-- The strings among some items.
abbrev pub strings : Items → List Text
strings (cons (string s) l) = s ∷ strings l
strings _ = []

pub strings-texts : (tags : List Text) → strings (texts tags) ≡ tags
strings-texts [] = refl
strings-texts (t ∷ tags) = ap (λ l. t ∷ l) (strings-texts tags)

-- A record with an address, tags and a ttl.
abbrev pub Names : Text → List Text → ℤ → Fields → Type 0
Names w tags ttl m =
    (get (codes "w") m ≡ some (string w))
    × (get (codes "ttl") m ≡ some (int ttl))
    × (l : Items) × (get (codes "tags") m ≡ some (array l))
    × (strings l ≡ tags)

publish_fields-Names :
    (w : Text) (tags : List Text) (ttl : ℤ) → Names w tags ttl (publish_fields w tags ttl)
unfolding publish_fields text_eq get
publish_fields-Names w tags ttl =
    (simp (get-put), simp (get-put), texts tags, simp (get-put), strings-texts tags)

abbrev pub seconds : ℕ → Fields
seconds n = field (codes "at") (int64 (pos n)) end

module _ (x : External) (world : World) (seed : Text) (k : Keys) (signs : SignsWell x)
    (made : from_seed x seed ≡ ok k) where
  pub publish_request-IsSigned :
      (body : Text) → IsSigned x (presence_signing_input k.public) (publish_request x world k body)
  unfolding publish_request lookup text_eq
  publish_request-IsSigned body =
      let input = presence_signing_input k.public body in
      (body, k.public, sign x k input, refl, refl, refl, verify-sign x seed input k signs made)

  delete_request-IsSigned :
      (body : Text)
      → IsSigned x (presence_delete_signing_input k.public) (delete_request x world k body)
  unfolding delete_request lookup text_eq
  delete_request-IsSigned body =
      let input = presence_delete_signing_input k.public body in
      (body, k.public, sign x k input, refl, refl, refl, verify-sign x seed input k signs made)

  -- What Send posts for a letter that these keys sign.
  pub post_request-IsSigned :
      (l : Letter) (work : Option Text)
      → l.signer ≡ some k
      → IsSigned x (thread_signing_input l.w) (post_request x l work)
  unfolding post_request lookup text_eq
  post_request-IsSigned l work h =
      let input = thread_signing_input l.w l.body in
      (
        l.body,
        k.public,
        sign x k input,
        refl,
        rw h refl,
        rw h refl,
        verify-sign x seed input k signs made,
      )

  -- PresencePublish makes one request to aamio, a PUT at the path of the key whose body is the JSON
  -- of a record with the address, the tags and the ttl it was given, and PresenceDelete one, a DELETE
  -- at the same path whose body is the JSON of the time in whole seconds. Each carries a signature
  -- that verifies over the input for just that call, this key and its body.
  pub presence-IsSigned :
      (w : Text) (tags : List Text) (ttl : ℤ) (body : Text) (s : State)
      → json x (publish_fields w tags ttl) ≡ ok body
      → let put = publish_request x world k body in
        let time = stamped x world (world.now s.readings) in
        let delete = delete_request x world k time in
        Names w tags ttl (publish_fields w tags ttl)
        × ((presence_publish x world (some k) w tags ttl s).1.calls ≡ s.calls ++ put ∷ [])
        × IsAt (codes "PUT") k.public body put
        × IsSigned x (presence_signing_input k.public) put
        × (time ≡ result_or_empty (json x (seconds (world.now s.readings / 10 ^ 9))))
        × ((presence_delete x world (some k) s).1.calls ≡ s.calls ++ delete ∷ [])
        × IsAt (codes "DELETE") k.public time delete
        × IsSigned x (presence_delete_signing_input k.public) delete
  unfolding presence_publish presence_delete call publish_request delete_request put
  presence-IsSigned w tags ttl body s h =
      let time = stamped x world (world.now s.readings) in
      (
        publish_fields-Names w tags ttl,
        rw h refl,
        (refl, refl, refl, refl),
        publish_request-IsSigned body,
        refl,
        refl,
        (refl, refl, refl, refl),
        delete_request-IsSigned time,
      )
