-- ===== src/Interop/Exchange.antt =====
-- An exchange with a peer that follows the same scheme comes out right on both sides.
use aamio_go.Prelude.{◌≡◌, refl, true, ap, ◌∙◌, Text, IsBytes, length}
use aamio_go.Errors.{ok}
use aamio_go.External.{External, SignsWell}
use aamio_go.Codec.Hex
use aamio_go.Keys.{Keys, from_seed, from_seed_hex, open_sealed, seal, sign, verify}
use aamio_go.Keys.Signing.{verify-sign}
use aamio_go.Keys.Sealing.{SealsWell, open_sealed-seal}
use aamio_go.Interop.{Input, Output, interop}

-- What such a peer reads off the output: it verifies the signature, and opens what was sealed.
pub record Accepts (x : External) (peer : Keys) (i : Input) (plain : Text) (o : Output)
    : Type 0 where
  pub opened : o.opened ≡ plain
  pub verifies : o.py_signature_verifies ≡ true
  pub verified : verify x o.go_public o.go_signature i.signing_input ≡ true
  pub opens : open_sealed x peer o.go_public o.envelope_from_go ≡ ok i.plaintext_for_py

from_seed_hex-encode :
    (x : External) (a : Text) (k : Keys)
    → IsBytes a
    → from_seed x a ≡ ok k
    → from_seed_hex x (Hex.encode a) ≡ ok k
unfolding from_seed_hex
from_seed_hex-encode x a k h made = rw (Hex.decode-encode a h) made

-- For the libraries as documented: when the input has the hex of our seed, and of a peer made from
-- a seed its public key, its signature over the signing input and what it sealed to us, the command
-- ends with an output. It has what the peer sealed and that the signature verifies, and the peer
-- verifies the signature in it and opens the envelope to the text that was for it.
pub interop-Accepts :
    (x : External) (a b plain nonce nonce' : Text) (k peer : Keys) (i : Input)
    → SignsWell x
    → SealsWell x
    → from_seed x a ≡ ok k
    → from_seed x b ≡ ok peer
    → IsBytes a
    → IsBytes i.plaintext_for_py
    → IsBytes nonce'
    → length nonce' ≡ 24
    → i.go_seed ≡ Hex.encode a
    → i.py_public ≡ peer.public
    → i.py_signature ≡ sign x peer i.signing_input
    → seal x peer k.public plain nonce ≡ ok i.envelope_from_py
    → IsBytes plain
    → IsBytes nonce
    → length nonce ≡ 24
    → (o : Output) × (interop x nonce' i ≡ ok o) × Accepts x peer i plain o
unfolding interop
interop-Accepts x a b plain nonce nonce' k peer i signs seals made_a made_b ha hf hn' n' es ep eg
      from hp hn n =
    let (theirs, sealed, opened) =
      open_sealed-seal x b a plain nonce peer k signs seals made_b made_a n hp hn in
    let (ours, sealed', opened') =
      open_sealed-seal x a b i.plaintext_for_py nonce' k peer signs seals made_a made_b n' hf hn' in
    let same : theirs ≡ i.envelope_from_py = cc in
    let opens : open_sealed x k peer.public i.envelope_from_py ≡ ok plain = cc in
    let made : from_seed_hex x i.go_seed ≡ ok k =
      ap (from_seed_hex x) es ∙ from_seed_hex-encode x a k ha made_a in
    let out : Output = record {
      go_public = k.public;
      opened = plain;
      py_signature_verifies = verify x i.py_public i.py_signature i.signing_input;
      envelope_from_go = ours;
      go_signature = sign x k i.signing_input;
    } in
    (
      out,
      simp (made, ep, opens, sealed'),
      record {
        opened = refl;
        verifies = rw (ep, eg) (verify-sign x b i.signing_input peer signs made_b);
        verified = verify-sign x a i.signing_input k signs made_a;
        opens = opened';
      },
    )
