-- ===== src/Delivery.antt =====
-- From a send to a read: what Send of client.go posts, returned by a service that keeps to its
-- protocol, as ReadThread hands it over, an answer as the reply that it is read as, and the loop of
-- reads. The service is not this program's: Returns and Answers say what it is taken to do.
mod Signed
mod HandedOver
mod Sealed
mod Arrives
mod Polls
mod Replied
mod Tests
use aamio_go.Prelude.{List, [], ◌∷◌, Option, none, some, Text, codes, ◌≡◌, ◌⊎◌, true, lookup}
use aamio_go.Json.{Items, nil, cons, Fields, object, array, string, get, integer}
use aamio_go.Codec.{sha256_hex}
use aamio_go.Client.Http.{Request, Answer}
use aamio_go.Client.Message.{text_at}

abbrev text_or_empty : Option Text → Text
text_or_empty none = []
text_or_empty (some v) = v

abbrev pub header : Text → Request → Text
header k r = text_or_empty (lookup k r.headers)

-- The fields that the service returns for a post that it took: the bytes of the body and their
-- hash, the key and the signature that came with it, and its own number and time.
pub record Returns (r : Request) (raw : Fields) : Type 0 where
  pub body : Text
  pub posted : r.body ≡ some body
  pub returned : get (codes "body") raw ≡ some (string body)
  pub hashed : text_at (codes "sha256") raw ≡ sha256_hex body
  pub key : text_at (codes "from") raw ≡ header (codes "X-Key") r
  pub signature : text_at (codes "sig") raw ≡ header (codes "X-Sig") r
  pub numbered : (integer (get (codes "seq") raw)).1 ≡ true
  pub dated : (integer (get (codes "at") raw)).1 ≡ true

abbrev pub Among : Fields → Items → Type 0
Among raw nil = ⊥
Among raw (cons item items) = (item ≡ object raw) ⊎ Among raw items

-- An answer to a read that has the message among others.
pub record Answers (a : Answer) (raw : Fields) : Type 0 where
  pub body : Fields
  pub items : Items
  pub ok_status : a.status ≡ 200
  pub has_body : a.body ≡ some body
  pub has_messages : get (codes "messages") body ≡ some (array items)
  pub among : Among raw items

abbrev pub In : {A : Type 0} → A → List A → Type 0
In a [] = ⊥
In a (b ∷ bs) = (a ≡ b) ⊎ In a bs
