-- ===== src/External.antt =====
-- What the client calls and does not implement: ed25519, sha512, the conversion to X25519, the box,
-- and the JSON decoder. Texts are byte strings.
use aamio_go.Prelude.{◌≡◌, true, Bool, Option, Text, IsBytes, length}
use aamio_go.Json.{Fields}
use aamio_go.Json.Number.{Float64}
use aamio_go.Receipt.{Receipt}

-- The envelope struct of keys.go.
pub record Envelope : Type 0 where
  pub e2ee : Text
  pub to : Text
  pub nonce : Text
  pub ct : Text

pub record External : Type 0 where
  -- ed25519.NewKeyFromSeed(seed).Public(), ed25519.Sign and ed25519.Verify
  pub public_of : Text → Text
  pub sign : Text → Text → Text
  pub ed25519_verify : Text → Text → Text → Bool
  pub sha512 : Text → Text
  -- edwards25519: Point.SetBytes and BytesMontgomery
  pub montgomery : Text → Option Text
  -- box.Seal and box.Open: the text, the nonce, the peer's public key, our secret
  pub box_seal : Text → Text → Text → Text → Text
  pub box_open : Text → Text → Text → Text → Option Text
  -- json.Decoder into a map, with UseNumber; json.Unmarshal into an envelope, and into a struct of
  -- its fields e2ee and to alone; json.Encoder of an envelope
  pub decode_object : Text → Option Fields
  pub decode_envelope : Text → Option Envelope
  pub decode_recipient : Text → Option (Text × Text)
  pub encode_envelope : Envelope → Text
  -- json.Encoder of a map, with no HTML escaping; json.Unmarshal into a Receipt
  pub encode_object : Fields → Option Text
  pub decode_receipt : Text → Option Receipt
  -- strconv.FormatFloat(f, 'f', -1, 64)
  pub format_float : Float64 → Text

-- What ed25519 documents: the sizes, and that a signature verifies.
pub record SignsWell (x : External) : Type 0 where
  pub length-public : (seed : Text) → length seed ≡ 32 → length (x.public_of seed) ≡ 32
  pub public-IsBytes : (seed : Text) → length seed ≡ 32 → IsBytes (x.public_of seed)
  pub length-sign : (seed message : Text) → length seed ≡ 32 → length (x.sign seed message) ≡ 64
  pub sign-IsBytes : (seed message : Text) → length seed ≡ 32 → IsBytes (x.sign seed message)
  pub verify-sign :
      (seed message : Text)
      → length seed ≡ 32
      → x.ed25519_verify (x.public_of seed) message (x.sign seed message) ≡ true
