-- ===== src/Interop/Tests.antt =====
-- An exchange between two seeds over the stand-in whose boxes are their text.
use aamio_go.Prelude.{◌≡◌, refl, codes, arith, Text}
use aamio_go.Errors.{ok}
use aamio_go.Codec.Hex
use aamio_go.Keys.{sign, seal}
use aamio_go.Keys.Tests.{
  boxed, boxed-SignsWell, boxed-SealsWell, seed, other_seed, made_first, made_other, box_nonce,
}
use aamio_go.Keys.Sealing.{open_sealed-seal}
use aamio_go.Interop.{Input, Output, interop}
use aamio_go.Interop.Exchange.{Accepts, interop-Accepts}

-- What the peer seals to us.
sealed_here :
    (sealed : Text) × (seal boxed made_other.0 made_first.0.public (codes "yo") box_nonce
      ≡ ok sealed)
sealed_here =
    let (sealed, e, _) =
      open_sealed-seal boxed other_seed seed (codes "yo") box_nonce made_other.0 made_first.0
        boxed-SignsWell boxed-SealsWell made_other.1 made_first.1 refl (omega arith)
        (omega arith) in
    (sealed, e)

abbrev input : Input
input = record {
  go_seed = Hex.encode seed;
  py_public = made_other.0.public;
  signing_input = codes "line";
  py_signature = sign boxed made_other.0 (codes "line");
  plaintext_for_py = codes "hi";
  envelope_from_py = sealed_here.0;
}

interop-Accepts_example :
    (o : Output) × (interop boxed box_nonce input ≡ ok o)
    × Accepts boxed made_other.0 input (codes "yo") o
interop-Accepts_example =
    interop-Accepts boxed seed other_seed (codes "yo") box_nonce box_nonce made_first.0 made_other.0
      input boxed-SignsWell boxed-SealsWell made_first.1 made_other.1 (omega arith) (omega arith)
      (omega arith) refl refl refl refl sealed_here.1 (omega arith) (omega arith) refl
