-- ===== src/Interop.antt =====
-- cmd/interop/main.go: the side of the interoperability test that opens, verifies, seals and signs.
-- The decoded input comes in and the output goes out; reading and printing them is not modelled.
pub mod Exchange
mod Tests
use aamio_go.Prelude.{Bool, Text}
use aamio_go.Errors.{Result, ok, ◌>>=◌}
use aamio_go.External.{External}
use aamio_go.Keys.{from_seed_hex, open_sealed, seal, sign, verify}

pub record Input : Type 0 where
  pub go_seed : Text
  pub py_public : Text
  pub signing_input : Text
  pub py_signature : Text
  pub plaintext_for_py : Text
  pub envelope_from_py : Text

pub record Output : Type 0 where
  pub go_public : Text
  pub opened : Text
  pub py_signature_verifies : Bool
  pub envelope_from_go : Text
  pub go_signature : Text

-- An error ends the process; the nonce is what rand.Read gives Seal.
unfoldable pub interop : External → Text → Input → Result Output
interop x nonce i = do
  keys ← from_seed_hex x i.go_seed
  opened ← open_sealed x keys i.py_public i.envelope_from_py
  sealed ← seal x keys i.py_public i.plaintext_for_py nonce
  ok (record {
    go_public = keys.public;
    opened = opened;
    py_signature_verifies = verify x i.py_public i.py_signature i.signing_input;
    envelope_from_go = sealed;
    go_signature = sign x keys i.signing_input;
  })
